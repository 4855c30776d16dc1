-- ===== src/Examples/Texts.antt =====
-- Names, hostnames and PEM at concrete inputs.
use certtool.Base.{
  ℕ, ◌≡◌, refl, ◌↔◌, Bool, true, false, ◌&&◌, not, ◌==◌, Option, none, some, List, [], ◌∷◌, ◌++◌,
  map, is_empty, Outcome, ok, err,
}
use certtool.Base.Text.{Text, codes, same, mem_text, Ascending}
use certtool.Host.Dns.{validate_dns_name}
use certtool.Host.Dns.Name.{IsDnsName, validate_dns_name_iff}
use certtool.Host.Names.{clean, get_hostnames}

validate_dns_name_example :
    (validate_dns_name (codes "*.example.com.") ≡ ok tt) ↔ IsDnsName (codes "*.example.com.")
validate_dns_name_example = validate_dns_name_iff (codes "*.example.com.")

abbrev some_hosts : List Text
some_hosts = codes " b.com:443" ∷ codes "a.com" ∷ codes "b.com" ∷ []

two_hosts : get_hostnames some_hosts ≡ codes "a.com" ∷ codes "b.com" ∷ []
unfolding get_hostnames clean certtool.Host.Valid.host_without_port certtool.Base.Text.trim_space
two_hosts = refl
