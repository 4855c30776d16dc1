-- ===== src/Scenario/Constraints.antt =====
-- The functions that scenario templates call: `scenarioFuncs`, `hostnameConstraints` and `cleanHost`
-- of pkg/certtool/scenario.go.
pub mod Permitted
use certtool.Base.{
  ℕ, ◌-◌, ◌≡◌, refl, Bool, true, false, ◌&&◌, ◌||◌, not, ◌==◌, if◌then◌else◌, Option, none, some,
  is_some, List, [], ◌∷◌, ◌++◌, is_empty, Outcome, ok, err, replicate,
}
use certtool.Base.Text.{Text, codes, mem_text, trim_space, trim_suffix, to_lower, join, split}
use certtool.Base.Decimal.{itoa}
use certtool.Net.HostPort.{cut}
use certtool.Net.Address.{parse_ip, to4}
use certtool.Net.Print.{ip_string}
use certtool.Failure.{Failure, not_a_controller}
use certtool.Host.Valid.{Address, host_without_port, validate_email_address}
use certtool.Profile.{TargetProfile, get_profile, windows10_target}
use certtool.Scenario.{or_else}

unfoldable pub clean_host : Text → Text
unfolding host_without_port trim_space trim_suffix
clean_host hostname = trim_suffix b'.' (host_without_port (trim_space hostname))

pub record Constraints : Type 0 where
  pub dns : List Text
  pub ip : List Text

-- append, unless it is there
unfoldable pub append_new : Text → List Text → List Text
unfolding mem_text
append_new x xs = if mem_text x xs then xs else xs ++ x ∷ []

-- strings.TrimPrefix(host, "*.")
unfoldable pub trim_wildcard : Text → Text
trim_wildcard [] = []
trim_wildcard (c ∷ []) = c ∷ []
trim_wildcard (c ∷ d ∷ s) = if c == b'*' && d == b'.' then s else c ∷ d ∷ s

-- the range that holds one address
unfoldable pub single_range : ℕ → Text
unfolding ip_string itoa
single_range ip = ip_string ip ++ (b'/' ∷ itoa (if is_some (to4 ip) then 32 else 128))

-- one round of the loop over the hostnames
unfoldable pub add_host : Text → Option ℕ → Constraints → Constraints
unfolding append_new single_range to_lower trim_wildcard
add_host host none c = record c { dns = append_new (to_lower (trim_wildcard host)) c.dns }
add_host host (some ip) c = record c { ip = append_new (single_range ip) c.ip }

unfoldable pub add_hosts : Constraints → List Text → Constraints
unfolding add_host clean_host parse_ip
add_hosts c [] = c
add_hosts c (h ∷ hs) = add_hosts (add_host (clean_host h) (parse_ip (clean_host h)) c) hs

unfoldable pub hostname_constraints : List Text → Constraints
unfolding add_hosts
hostname_constraints hostnames = add_hosts (record { dns = []; ip = [] }) hostnames

-- unique
unfoldable pub unique_from : List Text → List Text → List Text
unfolding append_new
unique_from out [] = out
unique_from out (item ∷ items) = unique_from (append_new item out) items

unfoldable pub unique : List Text → List Text
unfolding unique_from
unique items = unique_from [] items

-- nindent
unfoldable pub nindent : ℕ → Text → Text
unfolding join split
nindent n s = let pad = replicate n 32 in 10 ∷ (pad ++ join (10 ∷ pad) (split 10 s))

unfoldable pub is_email : (Text → Option Address) → Text → Bool
unfolding validate_email_address
is_email parse_address s = elim (validate_email_address parse_address s) [
  | ok u ↦ true
  | err e ↦ false
]

-- domainOf: the domain of a domain controller's name
unfoldable pub domain_of_parts : Text → Option (Text × Text) → Outcome Failure Text
domain_of_parts hostname none = err (not_a_controller hostname)
domain_of_parts hostname (some (name, domain)) =
    if is_empty domain then err (not_a_controller hostname) else ok domain

unfoldable pub domain_of : Text → Outcome Failure Text
unfolding domain_of_parts clean_host parse_ip cut to_lower
domain_of hostname =
    let host = clean_host hostname in
    if is_some (parse_ip host)
    then err (not_a_controller hostname)
    else domain_of_parts hostname (cut b'.' (to_lower host))

pub record ScenarioTarget : Type 0 where
  pub name : Text
  pub legacy_pfx : Bool
  pub output_pfx : Bool

abbrev target_of : Text → Outcome Failure TargetProfile → Outcome Failure ScenarioTarget
target_of name (err e) = err e
target_of name (ok p) =
    ok (record { name = name; legacy_pfx = p.legacy_pfx; output_pfx = p.output_pfx })

unfoldable pub code_sign_target : Text → Outcome Failure ScenarioTarget
unfolding get_profile
code_sign_target target =
    let name = or_else target windows10_target in target_of name (get_profile name)

constraint_forms :
    hostname_constraints (codes "*.Example.com" ∷ codes "10.0.0.1:443" ∷ codes "example.com." ∷ [])
    ≡ record { dns = codes "example.com" ∷ []; ip = codes "10.0.0.1/32" ∷ [] }
unfolding hostname_constraints
constraint_forms = refl
