-- ===== src/Host/Valid.antt =====
-- `hostWithoutPort`, `ValidateHostname` and `ValidateEmailAddress` of pkg/certtool/certtool.go.
use certtool.Base.{
  Bool, false, ◌||◌, not, if◌then◌else◌, Option, none, some, is_some, [], ◌∷◌, is_empty, Outcome,
  ok, err, is_ok, map_err,
}
use certtool.Base.Text.{Text, same, has_prefix, trim_space, contains_byte}
use certtool.Net.HostPort.{split_host_port}
use certtool.Net.Address.{parse_ip}
use certtool.Failure.{Failure, bad_hostname, email_not_bare, email_bad_domain}
use certtool.Host.Dns.{validate_dns_name}

abbrev or_whole : Text → Option Text → Text
or_whole hostname none = hostname
or_whole hostname (some host) = host

unfoldable pub host_without_port : Text → Text
unfolding split_host_port
host_without_port hostname = or_whole hostname (split_host_port hostname)

unfoldable pub validate_hostname : Text → Outcome Failure (Unit {0})
unfolding host_without_port
validate_hostname hostname =
    let host = host_without_port (trim_space hostname) in
    if is_some (parse_ip host)
    then ok tt
    else map_err (bad_hostname hostname) (validate_dns_name host)

-- mail.Address
pub record Address : Type 0 where
  pub name : Text
  pub address : Text

-- The text behind the last `@`; all of it where there is none.
unfoldable pub after_last_at : Text → Text
after_last_at [] = []
after_last_at (c ∷ s) = if contains_byte b'@' (c ∷ s) then after_last_at s else c ∷ s

-- mail.ParseAddress is not modelled; it is the argument `parse_address`.
module _ (parse_address : Text → Option Address) where
  -- err == nil && addr.Name == "" && addr.Address == email
  is_bare : Text → Option Address → Bool
  is_bare email none = false
  is_bare email (some a) = not (not (is_empty a.name) || not (same a.address email))

  unfoldable pub validate_email_address : Text → Outcome Failure (Unit {0})
  unfolding is_bare after_last_at
  validate_email_address email =
      let domain = after_last_at email in
      if not (is_bare email (parse_address email))
      then err (email_not_bare email)
      else if not (is_ok (validate_dns_name domain)) || has_prefix domain (b'*' ∷ [])
      then err (email_bad_domain email)
      else ok tt
