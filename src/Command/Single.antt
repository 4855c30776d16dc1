-- ===== src/Command/Single.antt =====
-- A single certificate from the options, as arguments or as a spec: `pfxPassword`, `argsToSpec` and
-- `certificateArgs` of internal/certtool/certtool.go.
pub mod Agrees
use certtool.Base.{
  ℤ, pos, negsuc, eq_ℤ, ltb_ℤ, is_negative, Bool, true, false, ◌&&◌, ◌||◌, not, if◌then◌else◌,
  Option, none, some, List, [], ◌∷◌, is_empty, Outcome, ok, err, ◌>>=◌, ◌>>◌, refuse, map_err,
}
use certtool.Base.Text.{Text, codes}
use certtool.Failure.{Failure}
use certtool.Profile.{KeyType}
use certtool.Spec.{SpecFields, CertificateSpec, spec, Specs, no_specs, add_spec, plain_fields}
use certtool.Spec.Validate.{parse_ip_ranges}
use certtool.Issue.Args.{Args, KeyPair, default_to}
use certtool.Files.Store.{Store}
use certtool.Files.Private.{KeyEncryption, Disk, read_key_pair_from_file}
use certtool.Generate.Arguments.{Environment}
use certtool.Command.{
  FlagError, bad_validity, parent_not_read, bad_permitted_ranges, split_strings, split_hostnames,
}
use certtool.Command.KeyTypes.{string_to_key_type}
use certtool.Command.Modes.{Flags, default_flags, given}

abbrev pub pfx_password_variable : Text
pfx_password_variable = codes "CERTTOOL_PFX_PASSWORD"

unfoldable pub pfx_password : Environment → Flags → Text
pfx_password env f =
    if not (is_empty f.pfx_password) then f.pfx_password else env.getenv pfx_password_variable

-- without a key type, a spec's certificate gets one that it names
unfoldable pub spec_key_name : Flags → Text
spec_key_name f = if is_empty f.key_type && not f.code_signing then codes "RSA-2048" else f.key_type

-- a path length that was given
unfoldable pub spec_path_len : ℤ → Option ℤ
spec_path_len n = if not (eq_ℤ n (negsuc 0)) then some n else none

-- time.Duration.String is the argument `duration_string`.
module _ (duration_string : ℤ → Text) (env : Environment) where
  unfoldable pub flag_fields : Flags → List Text → SpecFields
  unfolding default_to spec_key_name spec_path_len pfx_password split_strings
  flag_fields f hostnames = record (plain_fields (default_to f.organization f.common_name)) {
    certificate_authority = f.ca;
    code_signing = f.code_signing;
    target = f.target;
    key_type = spec_key_name f;
    validity = duration_string f.validity;
    organization = f.organization;
    organizational_unit = f.organizational_unit;
    country = f.country;
    locality = f.locality;
    province = f.province;
    hostnames = hostnames;
    pfx_password_env = if not (is_empty (pfx_password env f)) then pfx_password_variable else [];
    max_path_len = if f.ca then spec_path_len f.max_path_len else none;
    permitted_dns_domains = if f.ca then split_strings f.permitted_dns_domains else [];
    permitted_ip_ranges = if f.ca then split_strings f.permitted_ip_ranges else [];
  }

  unfoldable pub args_to_spec : Flags → Outcome FlagError Specs
  unfolding split_hostnames flag_fields
  args_to_spec f = do
    hostnames ← split_hostnames f.hostnames
    ok (add_spec (spec (flag_fields f hostnames) no_specs) no_specs)

-- no key type for code signing: the profile's
unfoldable pub key_option : Flags → Outcome FlagError (Option KeyType)
unfolding string_to_key_type
key_option f =
    if not (is_empty f.key_type) || not f.code_signing
    then (do k ← string_to_key_type f.key_type; ok (some k))
    else ok none

unfoldable pub length_option : ℤ → Option ℤ
length_option n = if not (is_negative n) then some n else none

module _ (env : Environment) (disk : Disk) where
  unfoldable pub read_parent_pair :
      Flags → Option KeyEncryption → Store → Outcome FlagError (Option KeyPair)
  unfolding read_key_pair_from_file
  read_parent_pair f enc store =
      if given f.parent_public_certificate
      then (do
        pair ←
            map_err parent_not_read
              (read_key_pair_from_file disk enc f.parent_public_certificate f.parent_private_key
                store).0
        ok (some pair))
      else ok none

  unfoldable pub certificate_args : Flags → Option KeyEncryption → Store → Outcome FlagError Args
  unfolding key_option read_parent_pair split_hostnames split_strings parse_ip_ranges length_option
      pfx_password
  certificate_args f enc store = do
    key ← key_option f
    parent ← read_parent_pair f enc store
    refuse (ltb_ℤ f.validity (pos 1)) bad_validity
    hostnames ← split_hostnames f.hostnames
    ranges ← map_err bad_permitted_ranges (parse_ip_ranges (split_strings f.permitted_ip_ranges))
    ok (record {
      ca = f.ca;
      max_path_len = length_option f.max_path_len;
      permitted_dns_domains = split_strings f.permitted_dns_domains;
      permitted_ip_ranges = ranges;
      common_name = f.common_name;
      country = f.country;
      organization = f.organization;
      organizational_unit = f.organizational_unit;
      locality = f.locality;
      province = f.province;
      hostnames = hostnames;
      validity = f.validity;
      parent_key_pair = parent;
      issuer = none;
      key_type = key;
      code_signing = f.code_signing;
      target = f.target;
      pfx_password = pfx_password env f;
      pfx = [];
      email_addresses = [];
      email_protection = false;
    })
