-- ===== src/Spec.antt =====
-- Certificate specs: `CertificateSpec` of pkg/certtool/spec.go, a tree whose children are signed by
-- their parent, and the functions that read or change a whole tree.
pub mod Validate
pub mod Passwords
pub mod Depth
use certtool.Base.{ℤ, Bool, true, false, Option, List, [], ◌∷◌, ◌++◌}
use certtool.Base.Text.{Text}

-- The fields of a spec but its children.
pub record SpecFields : Type 0 where
  pub common_name : Text
  pub certificate_authority : Bool
  pub code_signing : Bool
  pub target : Text
  pub pfx_password : Text
  pub pfx : Text
  pub pfx_password_env : Text
  pub key_type : Text
  pub validity : Text
  pub organization : Text
  pub organizational_unit : Text
  pub country : Text
  pub locality : Text
  pub province : Text
  pub hostnames : List Text
  pub email_addresses : List Text
  pub ssh_public_key : Bool
  pub filename : Text
  pub max_path_len : Option ℤ
  pub permitted_dns_domains : List Text
  pub permitted_ip_ranges : List Text

mutual
  pub data CertificateSpec : Type 0 where
    spec : SpecFields → Specs → CertificateSpec

  pub data Specs : Type 0 where
    no_specs : Specs
    add_spec : CertificateSpec → Specs → Specs

abbrev pub fields_of : CertificateSpec → SpecFields
fields_of (spec f children) = f

abbrev pub children_of : CertificateSpec → Specs
children_of (spec f children) = children

abbrev pub has_specs : Specs → Bool
has_specs no_specs = false
has_specs (add_spec s ss) = true

-- the fields of every spec of a tree, the parent's before its children's
unfoldable mutual
  pub tree_fields : CertificateSpec → List SpecFields
  tree_fields (spec f children) = f ∷ all_fields children

  pub all_fields : Specs → List SpecFields
  all_fields no_specs = []
  all_fields (add_spec s ss) = tree_fields s ++ all_fields ss

-- A spec with a common name and nothing else.
abbrev pub plain_fields : Text → SpecFields
plain_fields cn = record {
  common_name = cn;
  certificate_authority = false;
  code_signing = false;
  target = [];
  pfx_password = [];
  pfx = [];
  pfx_password_env = [];
  key_type = [];
  validity = [];
  organization = [];
  organizational_unit = [];
  country = [];
  locality = [];
  province = [];
  hostnames = [];
  email_addresses = [];
  ssh_public_key = false;
  filename = [];
  max_path_len = Option.none;
  permitted_dns_domains = [];
  permitted_ip_ranges = [];
}
