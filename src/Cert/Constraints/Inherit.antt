-- ===== src/Cert/Constraints/Inherit.antt =====
-- Name constraints down a chain: what `inheritNameConstraints` of pkg/certtool/certtool.go leaves.
use mathlib.Core.Path.{ap₂}
use certtool.Base.{
  ℕ, ◌≡◌, refl, sym, ap, ◌∙◌, subst, Bool, true, false, ◌||◌, not, if◌then◌else◌, List, [], ◌∷◌,
  is_empty, ok, ◌>>=◌, >>=-eq-ok, arith, Bool-cases, inl, inr,
}
use certtool.Base.Text.{Text}
use certtool.Net.Range.{IpNet}
use certtool.Cert.{Certificate}
use certtool.Cert.Constraints.{
  dns_name_permitted, ip_permitted, check_domains, check_ranges, own_or, inherit_dns,
  inherit_ranges, mark_critical, inherit_name_constraints,
}
use certtool.Cert.Constraints.Dns.{dns_name_permitted_iff}
use certtool.Cert.Constraints.Apply.{allows_name, allows_ip}
use certtool.Cert.Constraints.Narrower.{
  check_domains-All, check_ranges-All, domains_mono, ranges_mono,
}

own_or-is_empty {ℓ} :
    {A : Type ℓ} (own parents : List A)
    → is_empty parents ≡ false
    → is_empty (own_or own parents) ≡ false
own_or-is_empty [] parents h = h
own_or-is_empty (x ∷ xs) parents h = refl

domains_allow :
    (n : Text) (parents own : List Text) {u : Unit {0}}
    → is_empty parents ≡ false
    → check_domains parents (own_or own parents) ≡ ok u
    → (is_empty (own_or own parents) || dns_name_permitted n (own_or own parents)) ≡ true
    → (is_empty parents || dns_name_permitted n parents) ≡ true
domains_allow n parents own e c a =
    let ds = own_or own parents in
    let p : dns_name_permitted n ds ≡ true = ground (arith, own_or-is_empty own parents e) in
    let q : dns_name_permitted n parents ≡ true =
      domains_mono n parents ds (check_domains-All parents ds c)
        ((dns_name_permitted_iff n ds).0 p) in
    ground arith

ranges_allow :
    (ip : ℕ) (parents own : List IpNet) {u : Unit {0}}
    → is_empty parents ≡ false
    → check_ranges parents (own_or own parents) ≡ ok u
    → (is_empty (own_or own parents) || ip_permitted ip (own_or own parents)) ≡ true
    → (is_empty parents || ip_permitted ip parents) ≡ true
ranges_allow ip parents own e c a =
    let rs = own_or own parents in
    let p : ip_permitted ip rs ≡ true = ground (arith, own_or-is_empty own parents e) in
    let q : ip_permitted ip parents ≡ true =
      ranges_mono ip parents rs (check_ranges-All parents rs c) p in
    ground arith

-- What inheriting the DNS constraints leaves.
inherit_dns_ok :
    (issuer template t : Certificate)
    → inherit_dns issuer template ≡ ok t
    → ((n : Text) → allows_name t n ≡ true → allows_name issuer n ≡ true)
      × (t.permitted_ip_ranges ≡ template.permitted_ip_ranges)
unfolding inherit_dns
inherit_dns_ok issuer template t h = elim (Bool-cases (is_empty issuer.permitted_dns_domains)) [
  | inl e ↦ (λ n a. rw e, ground arith)
  | inr e ↦
      let ds = own_or template.permitted_dns_domains issuer.permitted_dns_domains in
      let (u, c, r) = >>=-eq-ok (check_domains issuer.permitted_dns_domains ds) _ (rw e at h) in
      let same_domains : ds ≡ t.permitted_dns_domains = ground arith in
      (
        λ n a.
            domains_allow n issuer.permitted_dns_domains template.permitted_dns_domains e c
              (subst (λ l. (is_empty l || dns_name_permitted n l) ≡ true) (sym same_domains) a),
        ground arith,
      )
]

-- What inheriting the IP constraints leaves.
inherit_ranges_ok :
    (issuer template t : Certificate)
    → inherit_ranges issuer template ≡ ok t
    → ((ip : ℕ) → allows_ip t ip ≡ true → allows_ip issuer ip ≡ true)
      × (t.permitted_dns_domains ≡ template.permitted_dns_domains)
unfolding inherit_ranges
inherit_ranges_ok issuer template t h = elim (Bool-cases (is_empty issuer.permitted_ip_ranges)) [
  | inl e ↦ (λ ip a. rw e, ground arith)
  | inr e ↦
      let rs = own_or template.permitted_ip_ranges issuer.permitted_ip_ranges in
      let (u, c, r) = >>=-eq-ok (check_ranges issuer.permitted_ip_ranges rs) _ (rw e at h) in
      let same_ranges : rs ≡ t.permitted_ip_ranges = ground arith in
      (
        λ ip a.
            ranges_allow ip issuer.permitted_ip_ranges template.permitted_ip_ranges e c
              (subst (λ l. (is_empty l || ip_permitted ip l) ≡ true) (sym same_ranges) a),
        ground arith,
      )
]

mark_critical_lem :
    (t : Certificate)
    → ((mark_critical t).permitted_dns_domains ≡ t.permitted_dns_domains)
      × ((mark_critical t).permitted_ip_ranges ≡ t.permitted_ip_ranges)
      × ((mark_critical t).permitted_dns_domains_critical ≡ (
          t.permitted_dns_domains_critical
          || (not (is_empty t.permitted_dns_domains) || not (is_empty t.permitted_ip_ranges))))
unfolding mark_critical
mark_critical_lem t = ground arith

if_not-true {ℓ} : {A : Type ℓ} (b : Bool) (x y : A) → b ≡ true → (if not b then x else y) ≡ y
if_not-true true x y h = refl
if_not-true false x y h = cc

pub inherit_ca :
    (issuer template : Certificate)
    → template.is_ca ≡ true
    → inherit_name_constraints issuer template
      ≡ (inherit_dns issuer template >>= λ t. inherit_ranges issuer t >>= λ u. ok (mark_critical u))
unfolding inherit_name_constraints
inherit_ca issuer template ca = if_not-true template.is_ca _ _ ca

critical_true : (b c : Bool) → c ≡ true → (b || c) ≡ true
critical_true b c h = ground arith

-- After `inheritNameConstraints` a CA allows only DNS names and addresses that its issuer allows,
-- whether it had constraints of its own or got the issuer's, and its constraints are critical if it
-- has any.
pub inherit_name_constraints_sound :
    (issuer template t : Certificate)
    → template.is_ca ≡ true
    → inherit_name_constraints issuer template ≡ ok t
    → ((n : Text) → allows_name t n ≡ true → allows_name issuer n ≡ true)
      × ((ip : ℕ) → allows_ip t ip ≡ true → allows_ip issuer ip ≡ true)
      × ((not (is_empty t.permitted_dns_domains) || not (is_empty t.permitted_ip_ranges)) ≡ true
          → t.permitted_dns_domains_critical ≡ true)
inherit_name_constraints_sound issuer template t ca h =
    let (a, p, h1) =
      >>=-eq-ok (inherit_dns issuer template) _ (sym (inherit_ca issuer template ca) ∙ h) in
    let (b, q, h2) = >>=-eq-ok (inherit_ranges issuer a) _ h1 in
    let (names, ranges_a) = inherit_dns_ok issuer template a p in
    let (ips, domains_b) = inherit_ranges_ok issuer a b q in
    let (md, mr, mc) = mark_critical_lem b in
    let e : mark_critical b ≡ t = ground arith in
    (
      λ n al. names n (
          subst (λ l. (is_empty l || dns_name_permitted n l) ≡ true)
            (ap (λ (c : Certificate). c.permitted_dns_domains) (sym e) ∙ md ∙ domains_b) al),
      λ ip al. ips ip (
          subst (λ l. (is_empty l || ip_permitted ip l) ≡ true)
            (ap (λ (c : Certificate). c.permitted_ip_ranges) (sym e) ∙ mr) al),
      λ some_set.
          ap (λ (c : Certificate). c.permitted_dns_domains_critical) (sym e)
          ∙ mc
          ∙ critical_true _ _ (
              ap₂ (λ (ds : List Text) (rs : List IpNet). not (is_empty ds) || not (is_empty rs))
                (sym md ∙ ap (λ (c : Certificate). c.permitted_dns_domains) e)
                (sym mr ∙ ap (λ (c : Certificate). c.permitted_ip_ranges) e)
              ∙ some_set),
    )
