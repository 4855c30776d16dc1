-- ===== src/Spec/Validate.antt =====
-- `validateSpec`, `validateFilename`, `validateFilenames`, `specPFX`, `ParseIPRanges` and the checks
-- of `UnmarshalSpec` behind the YAML parser, of pkg/certtool/spec.go.
pub mod Accepts
pub mod Filenames
use certtool.Base.{
  ℤ, pos, negsuc, Bool, true, false, ◌&&◌, ◌||◌, not, ltb_ℤ, if◌then◌else◌, Option, none, some,
  is_some, is_none, List, [], ◌∷◌, is_empty, Outcome, ok, err, ◌>>=◌, ◌>>◌, refuse, map_err, xor,
}
use certtool.Base.Text.{Text, codes, same, contains_byte, trim_space}
use certtool.Net.Range.{IpNet, parse_cidr}
use certtool.Failure.{
  Failure, no_certificates, no_common_name, children_without_ca, bad_filename, pfx_on_code_signing,
  two_passwords, email_on_ca, ssh_on_ca, constraints_on_leaf, bad_max_path_len, in_spec,
  bad_ip_range, mixed_code_signing,
}
use certtool.Host.Valid.{Address, validate_hostname, validate_email_address}
use certtool.Profile.{PfxFormat, pfx_format, windows10_target}
use certtool.Spec.{
  SpecFields, CertificateSpec, spec, Specs, no_specs, add_spec, fields_of, has_specs,
}

-- filepath.IsLocal of a name without separators, on Unix.
unfoldable pub is_local_name : Text → Bool
unfolding same
is_local_name s = not (is_empty s || same s (codes ".."))

unfoldable pub validate_filename : SpecFields → Outcome Failure (Unit {0})
unfolding contains_byte is_local_name
validate_filename f =
    if is_empty f.filename
    then ok tt
    else refuse
        (contains_byte b'/' f.filename
          || contains_byte b'\\' f.filename
          || not (is_local_name f.filename))
        (bad_filename f.common_name)

or_default : Text → Text
or_default [] = windows10_target
or_default (c ∷ s) = c ∷ s

unfoldable pub spec_pfx : SpecFields → Outcome Failure PfxFormat
unfolding or_default
spec_pfx f = pfx_format f.code_signing (or_default f.target) f.pfx

parsed_range : Text → Option IpNet → Outcome Failure IpNet
parsed_range r none = err (bad_ip_range r)
parsed_range r (some net) = ok net

unfoldable pub parse_ip_ranges : List Text → Outcome Failure (List IpNet)
unfolding parsed_range
parse_ip_ranges [] = ok []
parse_ip_ranges (r ∷ rs) = do
  net ← parsed_range r (parse_cidr (trim_space r))
  nets ← parse_ip_ranges rs
  ok (net ∷ nets)

-- the loop over spec.Hostnames
unfoldable pub validate_hostnames : List Text → Outcome Failure (Unit {0})
validate_hostnames [] = ok tt
validate_hostnames (h ∷ hs) = validate_hostname h >> validate_hostnames hs

-- *spec.MaxPathLen < -1
unfoldable pub below_no_limit : Option ℤ → Bool
below_no_limit none = false
below_no_limit (some n) = ltb_ℤ n (negsuc 0)

unfoldable pub has_ca_constraints : SpecFields → Bool
has_ca_constraints f =
    is_some f.max_path_len
    || not (is_empty f.permitted_dns_domains)
    || not (is_empty f.permitted_ip_ranges)

module _ (parse_address : Text → Option Address) where
  -- the loop over spec.EmailAddresses
  unfoldable pub validate_emails : List Text → Outcome Failure (Unit {0})
  validate_emails [] = ok tt
  validate_emails (e ∷ es) = validate_email_address parse_address e >> validate_emails es

  -- the first half of validateSpec
  unfoldable pub validate_names : SpecFields → Specs → Outcome Failure (Unit {0})
  validate_names f children = do
    refuse (is_empty f.common_name) no_common_name
    refuse (has_specs children && not f.certificate_authority) (children_without_ca f.common_name)
    validate_filename f
    refuse (not (is_empty f.pfx) && f.code_signing) (pfx_on_code_signing f.common_name)
    _ ← map_err (in_spec f.common_name) (spec_pfx f)
    refuse (not (is_empty f.pfx_password) && not (is_empty f.pfx_password_env))
        (two_passwords f.common_name)
    map_err (in_spec f.common_name) (validate_hostnames f.hostnames)

  -- the second half, up to the loop over the children
  unfoldable pub validate_purpose : SpecFields → Outcome Failure (Unit {0})
  unfolding below_no_limit
  validate_purpose f = do
    refuse (not (is_empty f.email_addresses) && (f.certificate_authority || f.code_signing))
        (email_on_ca f.common_name)
    refuse (f.ssh_public_key && f.certificate_authority) (ssh_on_ca f.common_name)
    map_err (in_spec f.common_name) (validate_emails f.email_addresses)
    refuse (not f.certificate_authority && has_ca_constraints f) (constraints_on_leaf f.common_name)
    refuse (below_no_limit f.max_path_len) (bad_max_path_len f.common_name)
    _ ← map_err (in_spec f.common_name) (parse_ip_ranges f.permitted_ip_ranges)
    ok tt

  unfoldable mutual
    pub validate_spec : CertificateSpec → Outcome Failure (Unit {0})
    validate_spec (spec f children) = do
      validate_names f children
      validate_purpose f
      validate_children f children

    -- the loop over the children
    pub validate_children : SpecFields → Specs → Outcome Failure (Unit {0})
    validate_children f no_specs = ok tt
    validate_children f (add_spec child rest) = do
      refuse (xor (fields_of child).code_signing f.code_signing)
          (mixed_code_signing (fields_of child).common_name f.common_name)
      validate_spec child
      validate_children f rest

  -- the loop of UnmarshalSpec
  unfoldable pub validate_all : Specs → Outcome Failure (Unit {0})
  validate_all no_specs = ok tt
  validate_all (add_spec s ss) = validate_spec s >> validate_all ss

  -- UnmarshalSpec, on what the YAML parser returned
  unfoldable pub check_specs : Specs → Outcome Failure Specs
  check_specs specs = do
    refuse (not (has_specs specs)) no_certificates
    validate_all specs
    ok specs

-- validateFilenames
unfoldable mutual
  pub validate_tree_filenames : CertificateSpec → Outcome Failure (Unit {0})
  validate_tree_filenames (spec f children) = validate_filename f >> validate_filenames children

  pub validate_filenames : Specs → Outcome Failure (Unit {0})
  validate_filenames no_specs = ok tt
  validate_filenames (add_spec s ss) = validate_tree_filenames s >> validate_filenames ss
