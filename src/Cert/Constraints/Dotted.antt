-- ===== src/Cert/Constraints/Dotted.antt =====
-- CA templates whose issuer has a DNS constraint with a leading dot, in `inheritNameConstraints` of
-- pkg/certtool/certtool.go.
use certtool.Base.{
  ℕ, ◌≡◌, ap, ◌∙◌, true, false, if◌then◌else◌, List, [], ◌∷◌, ◌++◌, is_empty, ok, err, ◌>>=◌, ◌>>◌,
  arith, Bool-cases, inl, inr, length, length-append, map,
}
use certtool.Base.Text.{Text, to_lower, lower_byte, trim_prefix, has_suffix, has_suffix→append}
use certtool.Failure.{domain_not_permitted}
use certtool.Cert.{Certificate}
use certtool.Cert.Constraints.{
  dot, starts_dot, dns_name_permitted, check_domains, own_or, inherit_dns, inherit_ranges,
  mark_critical, inherit_name_constraints,
}
use certtool.Cert.Constraints.Inherit.{inherit_ca}

-- A text does not end in a longer one.
longer_suffix : (s : Text) (c : ℕ) → has_suffix s (c ∷ s) ≡ false
longer_suffix s c = elim (Bool-cases (has_suffix s (c ∷ s))) [
  | inl e ↦
      let (p, q) = has_suffix→append s (c ∷ s) e in
      let l : length s ≡ length (p ++ c ∷ s) = ap length q in
      absurd (omega (arith, length-append p (c ∷ s)))
  | inr e ↦ e
]

not_its_own_subdomain : (d : Text) → dns_name_permitted d ((dot ∷ d) ∷ []) ≡ false
unfolding dns_name_permitted to_lower starts_dot
not_its_own_subdomain d = ground (arith, longer_suffix (map lower_byte d) dot)

refuses_copy :
    (d : Text)
    → check_domains ((dot ∷ d) ∷ []) ((dot ∷ d) ∷ []) ≡ err (domain_not_permitted (dot ∷ d))
unfolding check_domains trim_prefix
refuses_copy d = rw (not_its_own_subdomain d)

inherit_dotted :
    (issuer template : Certificate) (domains own : List Text) (d : Text)
    → domains ≡ (dot ∷ d) ∷ []
    → own ≡ []
    → (if is_empty domains
        then ok template
        else (check_domains domains (own_or own domains)
            >> ok (record template { permitted_dns_domains = own_or own domains })))
      ≡ err (domain_not_permitted (dot ∷ d))
inherit_dotted issuer template domains own d e f = rw (e, f) (rw (refuses_copy d))

-- A CA with the single DNS constraint of a name with a leading dot, such as .example.com, can issue
-- no CA without DNS constraints of its own: `inheritNameConstraints` copies the constraint and then
-- refuses its own copy.
pub dotted_domain_not_inherited :
    (issuer template : Certificate) (d : Text)
    → issuer.permitted_dns_domains ≡ (dot ∷ d) ∷ []
    → template.is_ca ≡ true
    → template.permitted_dns_domains ≡ []
    → inherit_name_constraints issuer template ≡ err (domain_not_permitted (dot ∷ d))
unfolding inherit_dns
dotted_domain_not_inherited issuer template d one ca none_set =
    inherit_ca issuer template ca
    ∙ ap (λ m. m >>= λ t. inherit_ranges issuer t >>= λ u. ok (mark_critical u))
        (inherit_dotted issuer template _ _ d one none_set)
