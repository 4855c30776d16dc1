-- ===== src/Cert/Constraints.antt =====
-- Name constraints: `dnsNamePermitted`, `ipRangeWithin`, `ipPermitted`, `applyNameConstraints` and
-- `inheritNameConstraints` of pkg/certtool/certtool.go.
pub mod Dns
pub mod Ranges
pub mod Apply
pub mod Narrower
pub mod Inherit
pub mod Dotted
use certtool.Base.{
  ℕ, ◌+◌, ◌*◌, ◌^◌, Bool, true, false, ◌&&◌, ◌||◌, not, ◌==◌, leb, if◌then◌else◌, List, [], ◌∷◌,
  is_empty, any, Outcome, ok, err, ◌>>=◌, ◌>>◌,
}
use certtool.Base.Text.{Text, codes, same, has_suffix, to_lower, trim_prefix}
use certtool.Net.Range.{IpNet, contains, address_of}
use certtool.Failure.{
  Failure, name_not_permitted, address_not_permitted, domain_not_permitted, range_not_permitted,
}
use certtool.Cert.{Certificate}

abbrev pub dot : ℕ
dot = b'.'

-- strings.HasPrefix(s, ".")
unfoldable pub starts_dot : Text → Bool
starts_dot [] = false
starts_dot (c ∷ s) = c == dot

-- one round of dnsNamePermitted, on a name in lower case
unfoldable pub domain_permits : Text → Text → Bool
unfolding starts_dot has_suffix same to_lower
domain_permits name domain =
    let domain = to_lower domain in
    if starts_dot domain
    then has_suffix name domain
    else same name domain || has_suffix name (dot ∷ domain)

unfoldable pub dns_name_permitted : Text → List Text → Bool
unfolding domain_permits
dns_name_permitted name domains = any (domain_permits (to_lower name)) domains

unfoldable pub ip_range_within : IpNet → IpNet → Bool
unfolding contains address_of
ip_range_within r parent =
    r.bits == parent.bits && leb parent.ones r.ones && contains parent (address_of r)

unfoldable pub ip_permitted : ℕ → List IpNet → Bool
unfolding contains
ip_permitted ip ranges = any (λ r. contains r ip) ranges

abbrev pub localhost : Text
localhost = codes "localhost"

-- 127.0.0.1
abbrev pub loopback : ℕ
loopback = 65535 * 2 ^ 32 + (127 * 2 ^ 24 + 1)

-- The loops of applyNameConstraints: what is permitted stays, what certtool adds itself goes, and
-- anything else is an error.
unfoldable pub keep {ℓ} :
    {A : Type ℓ} → (A → Bool) → (A → Bool) → (A → Failure) → List A → Outcome Failure (List A)
keep permitted own failure [] = ok []
keep permitted own failure (x ∷ xs) =
    let later = keep permitted own failure xs in
    if permitted x
    then (do kept ← later; ok (x ∷ kept))
    else if own x
    then later
    else err (failure x)

-- the loop over template.DNSNames
unfoldable pub keep_names : List Text → List Text → Outcome Failure (List Text)
unfolding keep
keep_names domains =
    keep (λ name. dns_name_permitted name domains) (λ name. same name localhost) name_not_permitted

-- the loop over template.IPAddresses
unfoldable pub keep_ips : List IpNet → List ℕ → Outcome Failure (List ℕ)
unfolding keep
keep_ips ranges = keep (λ ip. ip_permitted ip ranges) (λ ip. ip == loopback) address_not_permitted

unfoldable pub constrain_dns : Certificate → Certificate → Outcome Failure Certificate
constrain_dns issuer template = if is_empty issuer.permitted_dns_domains then ok template else do
  kept ← keep_names issuer.permitted_dns_domains template.dns_names
  ok (record template { dns_names = kept })

unfoldable pub constrain_ips : Certificate → Certificate → Outcome Failure Certificate
constrain_ips issuer template = if is_empty issuer.permitted_ip_ranges then ok template else do
  kept ← keep_ips issuer.permitted_ip_ranges template.ip_addresses
  ok (record template { ip_addresses = kept })

-- The template comes back with the names that are left.
unfoldable pub apply_name_constraints : Certificate → Certificate → Outcome Failure Certificate
unfolding constrain_dns constrain_ips
apply_name_constraints issuer template = constrain_dns issuer template >>= constrain_ips issuer

-- the loop over template.PermittedDNSDomains
unfoldable pub check_domains : List Text → List Text → Outcome Failure (Unit {0})
check_domains parents [] = ok tt
check_domains parents (domain ∷ domains) =
    let later = check_domains parents domains in
    if not (dns_name_permitted (trim_prefix dot domain) parents)
    then err (domain_not_permitted domain)
    else later

-- the loop over template.PermittedIPRanges
unfoldable pub check_ranges : List IpNet → List IpNet → Outcome Failure (Unit {0})
check_ranges parents [] = ok tt
check_ranges parents (r ∷ ranges) =
    let later = check_ranges parents ranges in
    if not (any (ip_range_within r) parents) then err range_not_permitted else later

-- a template without constraints of its own gets its issuer's
abbrev pub own_or {ℓ} : {A : Type ℓ} → List A → List A → List A
own_or [] parents = parents
own_or (x ∷ xs) parents = x ∷ xs

unfoldable pub inherit_dns : Certificate → Certificate → Outcome Failure Certificate
inherit_dns issuer template =
    let domains = own_or template.permitted_dns_domains issuer.permitted_dns_domains in
    if is_empty issuer.permitted_dns_domains then ok template else do
      check_domains issuer.permitted_dns_domains domains
      ok (record template { permitted_dns_domains = domains })

unfoldable pub inherit_ranges : Certificate → Certificate → Outcome Failure Certificate
inherit_ranges issuer template =
    let ranges = own_or template.permitted_ip_ranges issuer.permitted_ip_ranges in
    if is_empty issuer.permitted_ip_ranges then ok template else do
      check_ranges issuer.permitted_ip_ranges ranges
      ok (record template { permitted_ip_ranges = ranges })

-- Constraints are critical where there are any.
unfoldable pub mark_critical : Certificate → Certificate
mark_critical template =
    if not (is_empty template.permitted_dns_domains) || not (is_empty template.permitted_ip_ranges)
    then record template { permitted_dns_domains_critical = true }
    else template

unfoldable pub inherit_name_constraints : Certificate → Certificate → Outcome Failure Certificate
unfolding inherit_dns inherit_ranges mark_critical
inherit_name_constraints issuer template =
    if not template.is_ca
    then ok template
    else do t ← inherit_dns issuer template; u ← inherit_ranges issuer t; ok (mark_critical u)
