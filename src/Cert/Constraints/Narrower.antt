-- ===== src/Cert/Constraints/Narrower.antt =====
-- Domains and ranges inside of others permit no more: `dnsNamePermitted` and `ipRangeWithin` of
-- pkg/certtool/certtool.go.
use certtool.Base.{
  ℕ, ◌≡◌, sym, ap, ◌∙◌, true, false, ◌==◌, List, [], ◌∷◌, ◌++◌, any, Any, All, ok, arith,
  Bool-cases, or_true, inl, inr, map, ==→eq,
}
use certtool.Base.Text.{Text, to_lower, lower_byte, trim_prefix}
use certtool.Net.Range.{IpNet, contains}
use certtool.Cert.Constraints.{
  dot, starts_dot, dns_name_permitted, ip_range_within, ip_permitted, check_domains, check_ranges,
}
use certtool.Cert.Constraints.Dns.{IsUnder, Permits, dns_name_permitted_iff, IsUnder-Permits}
use certtool.Cert.Constraints.Ranges.{ip_range_within-contains}

lower_dot : (c : ℕ) → (lower_byte c == dot) ≡ (c == dot)
unfolding lower_byte
lower_dot c = ground arith

-- A domain permits only names under what is left of it without its dot.
Permits-IsUnder :
    (n domain : Text) → Permits n domain → IsUnder n (to_lower (trim_prefix dot domain))
unfolding trim_prefix to_lower starts_dot
Permits-IsUnder n [] (inl (e, h)) = cc
Permits-IsUnder n [] (inr (e, h)) = h
Permits-IsUnder n (c ∷ d) (inl (e, (p, q))) =
    let is_dot : (c == dot) ≡ true = sym (lower_dot c) ∙ e in
    rw is_dot (inr (p, q ∙ ap (λ b. p ++ b ∷ map lower_byte d) (==→eq _ _ e)))
Permits-IsUnder n (c ∷ d) (inr (e, u)) =
    let no_dot : (c == dot) ≡ false = sym (lower_dot c) ∙ e in rw no_dot u

pub check_domains-All :
    (parents domains : List Text) {u : Unit {0}}
    → check_domains parents domains ≡ ok u
    → All (λ d. dns_name_permitted (trim_prefix dot d) parents ≡ true) domains
unfolding check_domains
check_domains-All parents [] h = tt
check_domains-All parents (d ∷ ds) h =
    elim (Bool-cases (dns_name_permitted (trim_prefix dot d) parents)) [
      | inl e ↦ (e, check_domains-All parents ds (rw e at h))
      | inr e ↦ cc (rw e at h)
    ]

pub check_ranges-All :
    (parents ranges : List IpNet) {u : Unit {0}}
    → check_ranges parents ranges ≡ ok u
    → All (λ r. any (ip_range_within r) parents ≡ true) ranges
unfolding check_ranges
check_ranges-All parents [] h = tt
check_ranges-All parents (r ∷ rs) h = elim (Bool-cases (any (ip_range_within r) parents)) [
  | inl e ↦ (e, check_ranges-All parents rs (rw e at h))
  | inr e ↦ cc (rw e at h)
]

under-Any :
    (n b : Text) (parents : List Text)
    → IsUnder n b
    → Any (Permits b) parents
    → Any (Permits n) parents
under-Any n b (e ∷ es) u (inl p) = inl (IsUnder-Permits n b e u p)
under-Any n b (e ∷ es) u (inr h) = inr (under-Any n b es u h)
under-Any n b [] u h = elim h [ ]

pub domains_mono :
    (name : Text) (parents domains : List Text)
    → All (λ d. dns_name_permitted (trim_prefix dot d) parents ≡ true) domains
    → Any (Permits (to_lower name)) domains
    → dns_name_permitted name parents ≡ true
domains_mono name parents (d ∷ ds) (p, h) (inl q) = (dns_name_permitted_iff name parents).1 (
    under-Any (to_lower name) _ parents (Permits-IsUnder (to_lower name) d q)
      ((dns_name_permitted_iff (trim_prefix dot d) parents).0 p))
domains_mono name parents (d ∷ ds) (p, h) (inr q) = domains_mono name parents ds h q
domains_mono name parents [] h q = elim q [ ]

within_any :
    (r : IpNet) (ip : ℕ) (parents : List IpNet)
    → contains r ip ≡ true
    → any (ip_range_within r) parents ≡ true
    → ip_permitted ip parents ≡ true
unfolding ip_permitted
within_any r ip [] c h = cc
within_any r ip (p ∷ ps) c h = elim (or_true (ip_range_within r p) _ h) [
  | inl e ↦ rw (ip_range_within-contains r p ip e c)
  | inr e ↦ ground (arith, within_any r ip ps c e)
]

pub ranges_mono :
    (ip : ℕ) (parents ranges : List IpNet)
    → All (λ r. any (ip_range_within r) parents ≡ true) ranges
    → ip_permitted ip ranges ≡ true
    → ip_permitted ip parents ≡ true
unfolding ip_permitted
ranges_mono ip parents [] h q = cc
ranges_mono ip parents (r ∷ rs) (w, h) q = elim (or_true (contains r ip) _ q) [
  | inl e ↦ within_any r ip parents e w
  | inr e ↦ ranges_mono ip parents rs h e
]
