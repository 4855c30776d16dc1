-- ===== src/Cert/Constraints/Dns.antt =====
-- What DNS name constraints permit, as RFC 5280 says it.
use certtool.Base.{
  ◌≡◌, sym, ap, ◌∙◌, subst, true, false, ◌||◌, List, [], ◌∷◌, ◌++◌, append_assoc, any, Any, arith,
  Bool-cases, or_true, ◌↔◌, ◌⊎◌, inl, inr,
}
use certtool.Base.Text.{
  Text, same, same_iff, has_suffix, has_suffix→append, has_suffix-append, to_lower,
}
use certtool.Cert.Constraints.{dot, starts_dot, domain_permits, dns_name_permitted}

-- `name` is `base` or lies below it.
abbrev pub IsUnder : Text → Text → Type 0
IsUnder name base = (name ≡ base) ⊎ ((p : Text) × (name ≡ p ++ dot ∷ base))

-- A domain that starts with a dot permits the names below it; any other itself too.
abbrev pub Permits : Text → Text → Type 0
Permits name domain =
    ((starts_dot (to_lower domain) ≡ true) × ((p : Text) × (name ≡ p ++ to_lower domain)))
    ⊎ ((starts_dot (to_lower domain) ≡ false) × IsUnder name (to_lower domain))

domain_permits→Permits :
    (name domain : Text) → domain_permits name domain ≡ true → Permits name domain
unfolding domain_permits
domain_permits→Permits name domain h = elim (Bool-cases (starts_dot (to_lower domain))) [
  | inl e ↦ inl (e, has_suffix→append name (to_lower domain) (rw e at h))
  | inr e ↦ inr (e, plain (rw e at h))
]
  where
    plain :
        (same name (to_lower domain) || has_suffix name (dot ∷ to_lower domain)) ≡ true
        → IsUnder name (to_lower domain)
    plain k = elim (or_true (same name (to_lower domain)) _ k) [
      | inl q ↦ inl ((same_iff name _).0 q)
      | inr q ↦ inr (has_suffix→append name _ q)
    ]

domain_permits_complete :
    (name domain : Text) → Permits name domain → domain_permits name domain ≡ true
unfolding domain_permits
domain_permits_complete name domain (inl (e, (p, q))) = rw e (rw q (has_suffix-append p _))
domain_permits_complete name domain (inr (e, inl q)) =
    rw e (ground (arith, same_iff name (to_lower domain)))
domain_permits_complete name domain (inr (e, inr (p, q))) = rw e (
    let h : has_suffix name (dot ∷ to_lower domain) ≡ true = rw q (has_suffix-append p _) in
    ground arith)

any→Any :
    (name : Text) (ds : List Text) → any (domain_permits name) ds ≡ true → Any (Permits name) ds
any→Any name [] h = cc
any→Any name (d ∷ ds) h = elim (or_true (domain_permits name d) _ h) [
  | inl e ↦ inl (domain_permits→Permits name d e)
  | inr e ↦ inr (any→Any name ds e)
]

Any→any :
    (name : Text) (ds : List Text) → Any (Permits name) ds → any (domain_permits name) ds ≡ true
Any→any name [] h = elim h [ ]
Any→any name (d ∷ ds) (inl p) = rw (domain_permits_complete name d p)
Any→any name (d ∷ ds) (inr h) = ground (arith, Any→any name ds h)

-- `dnsNamePermitted` holds exactly when a listed domain permits the name in lower case: one with a
-- leading dot the names that end in it, any other itself and the names below it.
pub dns_name_permitted_iff :
    (name : Text) (domains : List Text)
    → (dns_name_permitted name domains ≡ true) ↔ Any (Permits (to_lower name)) domains
unfolding dns_name_permitted
dns_name_permitted_iff name domains = (any→Any _ domains, Any→any _ domains)

-- What lies under a permitted name is permitted.
pub IsUnder-Permits : (n b domain : Text) → IsUnder n b → Permits b domain → Permits n domain
IsUnder-Permits n b d (inl e) h = subst (λ t. Permits t d) (sym e) h
IsUnder-Permits n b d (inr (p, e)) (inl (s, (q, f))) =
    inl (s, (p ++ dot ∷ q, e ∙ ap (λ t. p ++ dot ∷ t) f ∙ sym (append_assoc p (dot ∷ q) _)))
IsUnder-Permits n b d (inr (p, e)) (inr (s, inl f)) = inr (s, inr (p, e ∙ ap (λ t. p ++ dot ∷ t) f))
IsUnder-Permits n b d (inr (p, e)) (inr (s, inr (q, f))) =
    inr (s, inr (p ++ dot ∷ q, e ∙ ap (λ t. p ++ dot ∷ t) f ∙ sym (append_assoc p (dot ∷ q) _)))
