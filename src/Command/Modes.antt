-- ===== src/Command/Modes.antt =====
-- The options and the checks on their combinations: `Args`, `DefaultArgs` and `validateModes` of
-- internal/certtool/certtool.go, and `validateEncryption` of internal/certtool/encrypt.go.
pub mod Consistent
use certtool.Base.{
  ℕ, ℤ, pos, negsuc, eq_ℤ, ltb_ℤ, ◌*◌, Bool, true, false, ◌&&◌, ◌||◌, not, if◌then◌else◌, [], ◌∷◌,
  is_empty, Outcome, ok, err, ◌>>=◌, ◌>>◌, refuse, ◌≡◌, refl,
}
use certtool.Base.Text.{Text, codes, same}

pub record Flags : Type 0 where
  pub public_certificate : Text
  pub private_key : Text
  pub ca : Bool
  pub max_path_len : ℤ
  pub permitted_dns_domains : Text
  pub permitted_ip_ranges : Text
  pub common_name : Text
  pub country : Text
  pub organization : Text
  pub organizational_unit : Text
  pub locality : Text
  pub province : Text
  pub validity : ℤ
  pub hostnames : Text
  pub key_type : Text
  pub parent_public_certificate : Text
  pub parent_private_key : Text
  pub code_signing : Bool
  pub target : Text
  pub pfx_output : Text
  pub pfx_password : Text
  pub spec : Text
  pub chain : Text
  pub name_prefix : Text
  pub output_dir : Text
  pub export_spec : Text
  pub scenario : Text
  pub clients : Text
  pub yubikey : Bool
  pub yubikey_generate_root : Bool
  pub yubikey_serial : Text
  pub yubikey_slot : Text
  pub yubikey_pin : Text
  pub yubikey_management_key : Text
  pub yubikey_touch_policy : Text
  pub yubikey_overwrite : Bool
  pub overwrite : Bool
  pub encrypt_to : Text
  pub age_identity_file : Text
  pub age_yubikey : Bool
  pub version : Bool

abbrev pub default_flags : Flags
default_flags = record {
  public_certificate = codes "app.crt";
  private_key = codes "app.key";
  ca = false;
  max_path_len = negsuc 0;
  permitted_dns_domains = [];
  permitted_ip_ranges = [];
  common_name = [];
  country = codes "US";
  organization = codes "cloudfra";
  organizational_unit = codes "gows";
  locality = codes "Seattle";
  province = codes "WA";
  validity = pos (365 * 24 * 3600000000000);
  hostnames = [];
  key_type = [];
  parent_public_certificate = [];
  parent_private_key = [];
  code_signing = false;
  target = [];
  pfx_output = codes "codesign.pfx";
  pfx_password = [];
  spec = [];
  chain = [];
  name_prefix = [];
  output_dir = codes ".";
  export_spec = [];
  scenario = [];
  clients = [];
  yubikey = false;
  yubikey_generate_root = false;
  yubikey_serial = [];
  yubikey_slot = codes "9c";
  yubikey_pin = [];
  yubikey_management_key = [];
  yubikey_touch_policy = codes "always";
  yubikey_overwrite = false;
  overwrite = false;
  encrypt_to = [];
  age_identity_file = [];
  age_yubikey = false;
  version = false;
}

-- The messages of the two functions, in the order of their checks.
pub data ModeError : Type 0 where
  chain_and_spec yubikey_and_root overwrite_without_tree constraints_on_tree constraints_without_ca
        negative_path_len yubikey_and_parent root_combined root_flags_without_root
        yubikey_flags_alone encryption_of_root encryption_of_export nothing_to_decrypt
        certificate_without_key key_without_certificate :
      ModeError

abbrev pub given : Text → Bool
given s = not (is_empty s)

-- a chain or a spec
abbrev pub tree : Flags → Bool
tree f = given f.chain || given f.spec

abbrev pub parent : Flags → Bool
parent f = given f.parent_public_certificate || given f.parent_private_key

abbrev pub constrains : Flags → Bool
constrains f =
    not (eq_ℤ f.max_path_len default_flags.max_path_len)
    || given f.permitted_dns_domains
    || given f.permitted_ip_ranges

abbrev pub decrypts : Flags → Bool
decrypts f = given f.age_identity_file || f.age_yubikey

unfoldable pub validate_constraints : Flags → Outcome ModeError (Unit {0})
validate_constraints f = do
  refuse (constrains f && tree f) constraints_on_tree
  refuse (constrains f && not f.ca && not f.yubikey_generate_root) constraints_without_ca
  refuse (constrains f && ltb_ℤ f.max_path_len (negsuc 0)) negative_path_len

-- what --yubikey-generate-root cannot be combined with
abbrev pub other_mode : Flags → Bool
other_mode f = tree f || given f.export_spec || f.code_signing || parent f

abbrev pub root_flags : Flags → Bool
root_flags f =
    f.yubikey_overwrite || not (same f.yubikey_touch_policy default_flags.yubikey_touch_policy)

abbrev pub yubikey_flags : Flags → Bool
yubikey_flags f =
    given f.yubikey_serial
    || not (same f.yubikey_slot default_flags.yubikey_slot)
    || given f.yubikey_pin
    || given f.yubikey_management_key

unfoldable pub validate_yubikey : Flags → Outcome ModeError (Unit {0})
unfolding same
validate_yubikey f = do
  refuse (f.yubikey && parent f) yubikey_and_parent
  refuse (f.yubikey_generate_root && other_mode f) root_combined
  refuse (not f.yubikey_generate_root && root_flags f) root_flags_without_root
  refuse (not f.yubikey && not f.yubikey_generate_root && not f.age_yubikey && yubikey_flags f)
      yubikey_flags_alone

unfoldable pub validate_encryption : Flags → Outcome ModeError (Unit {0})
validate_encryption f = do
  refuse (f.yubikey_generate_root && (given f.encrypt_to || decrypts f)) encryption_of_root
  refuse (given f.export_spec && (given f.encrypt_to || decrypts f)) encryption_of_export
  refuse (decrypts f && not (given f.parent_private_key) && not (tree f)) nothing_to_decrypt

unfoldable pub validate_parent : Flags → Outcome ModeError (Unit {0})
validate_parent f = do
  refuse (given f.parent_public_certificate && not (given f.parent_private_key))
      certificate_without_key
  refuse (given f.parent_private_key && not (given f.parent_public_certificate))
      key_without_certificate

unfoldable pub validate_tree : Flags → Outcome ModeError (Unit {0})
validate_tree f = do
  refuse (given f.chain && given f.spec) chain_and_spec
  refuse (f.yubikey && f.yubikey_generate_root) yubikey_and_root
  refuse (f.overwrite && not (tree f)) overwrite_without_tree

unfoldable pub validate_modes : Flags → Outcome ModeError (Unit {0})
unfolding validate_tree validate_constraints validate_yubikey validate_encryption validate_parent
validate_modes f = do
  validate_tree f
  validate_constraints f
  validate_yubikey f
  validate_encryption f
  validate_parent f

default_modes : validate_modes default_flags ≡ ok tt
unfolding validate_modes
default_modes = refl
