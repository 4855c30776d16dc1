-- ===== src/Generate/Arguments.antt =====
-- The arguments of a certificate of a spec: `specToArgs` of pkg/certtool/spec.go, and what
-- `generateSpec` adds to them.
use certtool.Base.{
  ℕ, ◌+◌, ◌-◌, ◌*◌, ℤ, pos, negsuc, is_negative, Bool, false, ◌&&◌, not, leb, ◌==◌, if◌then◌else◌,
  Option, none, some, [], ◌∷◌, is_empty, Outcome, ok, err, ◌>>=◌, map_err,
}
use certtool.Base.Text.{Text, to_upper, trim_left}
use certtool.Net.HostPort.{cut}
use certtool.Failure.{Failure, password_not_set, in_spec}
use certtool.Profile.{KeyType}
use certtool.Spec.{SpecFields, CertificateSpec, spec}
use certtool.Spec.Validate.{parse_ip_ranges}
use certtool.Spec.Depth.{ca_depth, signs_email}
use certtool.Issue.Args.{Args, KeyPair, Issuer}

is_digit : ℕ → Bool
is_digit c = leb b'0' c && leb c b'9'

-- the number of the digits at the start, behind the digits that gave `n`
leading_number : ℕ → Text → ℕ
unfolding is_digit
leading_number n [] = n
leading_number n (c ∷ s) =
    let more = leading_number (n * 10 + (c - b'0')) s in if is_digit c then more else n

digits : Text → Option ℕ
unfolding is_digit leading_number
digits [] = none
digits (c ∷ s) = if is_digit c then some (leading_number 0 (c ∷ s)) else none

abbrev positive : Option ℕ → Option ℤ
positive none = none
positive (some n) = some (pos n)

abbrev negative : Option ℕ → Option ℤ
negative none = none
negative (some n) = some (if n == 0 then pos 0 else negsuc (n - 1))

signed : Text → Option ℤ
unfolding digits
signed [] = none
signed (c ∷ s) =
    if c == b'-'
    then negative (digits s)
    else if c == b'+'
    then positive (digits s)
    else positive (digits (c ∷ s))

-- fmt.Sscanf(s, "%d", &n): what follows the number is ignored; numbers do not overflow
unfoldable pub scan_number : Text → Option ℤ
unfolding signed
scan_number s = signed (trim_left s)

abbrev key_with_length : Text → Option ℤ → Option KeyType
key_with_length algorithm none = none
key_with_length algorithm (some n) = some (record { algorithm = algorithm; key_length = n })

abbrev key_of_parts : Text → Option (Text × Text) → Option KeyType
key_of_parts whole none = some (record { algorithm = whole; key_length = pos 0 })
key_of_parts whole (some (algorithm, length)) = key_with_length algorithm (scan_number length)

-- the key type of a spec: what cannot be read is no key type
unfoldable pub spec_key_type : Text → Option KeyType
unfolding scan_number
spec_key_type key_type =
    let upper = to_upper key_type in
    if is_empty key_type then none else key_of_parts upper (cut b'-' upper)

abbrev pub or_zero : Option ℤ → ℤ
or_zero none = pos 0
or_zero (some d) = d

-- time.ParseDuration is the argument `parse_duration`, os.Getenv is `getenv`.
pub record Environment : Type 0 where
  pub parse_duration : Text → Option ℤ
  pub getenv : Text → Text

module _ (env : Environment) where
  unfoldable pub spec_to_args : SpecFields → Args
  unfolding spec_key_type
  spec_to_args f = record {
    ca = f.certificate_authority;
    max_path_len = none;
    permitted_dns_domains = [];
    permitted_ip_ranges = [];
    common_name = f.common_name;
    country = f.country;
    organization = f.organization;
    organizational_unit = f.organizational_unit;
    locality = f.locality;
    province = f.province;
    hostnames = f.hostnames;
    validity = if is_empty f.validity then pos 0 else or_zero (env.parse_duration f.validity);
    parent_key_pair = none;
    issuer = none;
    key_type = spec_key_type f.key_type;
    code_signing = f.code_signing;
    target = f.target;
    pfx_password = f.pfx_password;
    pfx = f.pfx;
    email_addresses = f.email_addresses;
    email_protection = false;
  }

  -- the .pfx password from the environment
  unfoldable pub with_password : SpecFields → Args → Outcome Failure Args
  with_password f args =
      let password = env.getenv f.pfx_password_env in
      if is_empty f.pfx_password_env
      then ok args
      else if is_empty password
      then err (password_not_set f.common_name)
      else ok (record args { pfx_password = password })

  -- a path length below 0 is no limit
  unfoldable pub path_limit : ℕ → Option ℤ → Option ℤ
  path_limit depth none = some (pos depth)
  path_limit depth (some n) = if is_negative n then none else some n

  unfoldable pub with_constraints : CertificateSpec → Args → Outcome Failure Args
  unfolding path_limit
  with_constraints (spec f children) args = if not f.certificate_authority then ok args else (do
    ranges ← map_err (in_spec f.common_name) (parse_ip_ranges f.permitted_ip_ranges)
    ok (record args {
      max_path_len = path_limit (ca_depth (spec f children)) f.max_path_len;
      permitted_dns_domains = f.permitted_dns_domains;
      permitted_ip_ranges = ranges;
      email_protection = signs_email (spec f children);
    }))

  -- the arguments of a certificate in its place
  unfoldable pub place_args :
      CertificateSpec → Option KeyPair → Option Issuer → Outcome Failure Args
  unfolding spec_to_args with_password with_constraints
  place_args (spec f children) parent issuer = do
    named ← with_password f (record (spec_to_args f) { parent_key_pair = parent; issuer = issuer })
    with_constraints (spec f children) named
