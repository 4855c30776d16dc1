-- ===== src/Examples/Constraints.antt =====
-- Name constraints at concrete certificates.
use certtool.Base.{
  ℕ, pos, negsuc, ◌*◌, ◌+◌, ◌^◌, ◌==◌, ◌≡◌, refl, ◌↔◌, Bool, true, false, ◌||◌, not, List, [], ◌∷◌,
  is_empty, Any, Outcome, ok, err, ◌>>=◌,
}
use certtool.Base.Text.{Text, codes, same, to_lower}
use certtool.Failure.{name_not_permitted, address_not_permitted, domain_not_permitted}
use certtool.Cert.{Certificate}
use certtool.Cert.Constraints.{
  localhost, loopback, dns_name_permitted, ip_range_within, apply_name_constraints,
  inherit_name_constraints,
}
use certtool.Net.Range.{contains}
use certtool.Cert.Constraints.Dns.{Permits, dns_name_permitted_iff}
use certtool.Cert.Constraints.Ranges.{ip_range_within-contains}
use certtool.Cert.Constraints.Apply.{filtered, allows_name, allows_ip, apply_name_constraints_lem}
use certtool.Cert.Constraints.Inherit.{inherit_name_constraints_sound}
use certtool.Cert.Constraints.Dotted.{dotted_domain_not_inherited}
use certtool.Examples.Samples.{plain_ca, example_ca, sub_ca, ten, ten_one}

-- sub_ca gets the range of its issuer
abbrev sub_limited : Certificate
sub_limited = record sub_ca {
  permitted_ip_ranges = ten ∷ [];
  permitted_dns_domains_critical = true;
}

inherits : inherit_name_constraints example_ca sub_ca ≡ ok sub_limited
unfolding inherit_name_constraints certtool.Cert.Constraints.check_domains dns_name_permitted
    certtool.Base.Text.trim_prefix certtool.Cert.Constraints.check_ranges ip_range_within
    certtool.Net.Address.to4
inherits = refl

inherit_name_constraints_sound_example :
    ((n : Text) → allows_name sub_limited n ≡ true → allows_name example_ca n ≡ true)
    × ((ip : ℕ) → allows_ip sub_limited ip ≡ true → allows_ip example_ca ip ≡ true)
    × ((not (is_empty sub_limited.permitted_dns_domains)
            || not (is_empty sub_limited.permitted_ip_ranges))
          ≡ true
        → sub_limited.permitted_dns_domains_critical ≡ true)
inherit_name_constraints_sound_example =
    inherit_name_constraints_sound example_ca sub_ca sub_limited refl inherits

abbrev leaf : Certificate
leaf = record plain_ca {
  is_ca = false;
  dns_names = codes "a.example.com" ∷ localhost ∷ [];
  ip_addresses = loopback ∷ [];
}

apply_name_constraints_example : apply_name_constraints example_ca leaf ≡ (do
  names ←
      filtered (allows_name example_ca) (λ n. same n localhost) name_not_permitted leaf.dns_names
  ips ←
      filtered (allows_ip example_ca) (λ ip. ip == loopback) address_not_permitted leaf.ip_addresses
  ok (record leaf { dns_names = names; ip_addresses = ips }))
apply_name_constraints_example = apply_name_constraints_lem example_ca leaf

drops_localhost :
    apply_name_constraints example_ca leaf
    ≡ ok (record leaf { dns_names = codes "a.example.com" ∷ []; ip_addresses = [] })
unfolding apply_name_constraints certtool.Cert.Constraints.keep_names dns_name_permitted
    certtool.Cert.Constraints.keep_ips certtool.Cert.Constraints.ip_permitted
    certtool.Net.Address.to4
drops_localhost = refl

dns_name_permitted_example :
    (dns_name_permitted (codes "A.Example.com") (codes "example.com" ∷ []) ≡ true)
    ↔ Any (Permits (to_lower (codes "A.Example.com"))) (codes "example.com" ∷ [])
dns_name_permitted_example =
    dns_name_permitted_iff (codes "A.Example.com") (codes "example.com" ∷ [])

-- 10.1.2.3
abbrev address : ℕ
address = 65535 * 2 ^ 32 + (10 * 2 ^ 24 + 2 ^ 16 + 515)

within : ip_range_within ten_one ten ≡ true
unfolding ip_range_within certtool.Net.Address.to4
within = refl

held : contains ten_one address ≡ true
unfolding contains certtool.Net.Address.to4
held = refl

ip_range_within_example : contains ten address ≡ true
ip_range_within_example = ip_range_within-contains ten_one ten address within held

abbrev dotted_ca : Certificate
dotted_ca = record plain_ca { permitted_dns_domains = codes ".example.com" ∷ [] }

dotted_domain_example :
    inherit_name_constraints dotted_ca plain_ca ≡ err (domain_not_permitted (codes ".example.com"))
dotted_domain_example =
    dotted_domain_not_inherited dotted_ca plain_ca (codes "example.com") refl refl refl
