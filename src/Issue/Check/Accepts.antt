-- ===== src/Issue/Check/Accepts.antt =====
-- The issuers that `checkIssuer` of pkg/certtool/certtool.go accepts.
use certtool.Base.{
  ap, ◌∙◌, subst, ◌≡◌, refl, ℤ, pos, ltb_ℤ, eq_ℤ, true, false, ◌&&◌, ◌||◌, not, List, [], ◌∷◌,
  is_empty, All, ok, ◌>>=◌, >>=-eq-ok, arith, ◌↔◌, Bool-cases, ◌⊎◌, inl, inr,
}
use certtool.Cert.{ExtKeyUsage, usage_any, is_set, Certificate}
use certtool.Cert.Constraints.{apply_name_constraints, inherit_name_constraints}
use certtool.Issue.Check.{has_usage, check_ca, check_usages, check_ext_usages, check_issuer}

-- The issuer is a CA that may sign certificates and is valid now, and it may have a CA below it if
-- the template is one.
pub record CanIssue (issuer template : Certificate) (now : ℤ) : Type 0 where
  pub constraints_valid : issuer.basic_constraints_valid ≡ true
  pub authority : issuer.is_ca ≡ true
  pub may_sign : (not (is_set issuer.key_usage) || issuer.key_usage.cert_sign) ≡ true
  pub not_expired : ltb_ℤ issuer.not_after now ≡ false
  pub started : ltb_ℤ now issuer.not_before ≡ false
  pub room_below :
      (template.is_ca && issuer.max_path_len_zero && eq_ℤ issuer.max_path_len (pos 0)) ≡ false

-- An issuer without extended key usages, or with the one for any purpose, allows all; any other
-- allows its own.
unfoldable pub AllowsUsages : Certificate → Certificate → Type 0
AllowsUsages issuer template =
    ((is_empty issuer.ext_key_usage || has_usage issuer.ext_key_usage usage_any) ≡ true)
    ⊎ All (λ u. has_usage issuer.ext_key_usage u ≡ true) template.ext_key_usage

check_ca_iff :
    (issuer template : Certificate) (now : ℤ)
    → (check_ca issuer template now ≡ ok tt) ↔ (
        (issuer.basic_constraints_valid ≡ true)
        × (issuer.is_ca ≡ true)
        × ((not (is_set issuer.key_usage) || issuer.key_usage.cert_sign) ≡ true)
        × (ltb_ℤ issuer.not_after now ≡ false)
        × (ltb_ℤ now issuer.not_before ≡ false)
        × ((template.is_ca && issuer.max_path_len_zero && eq_ℤ issuer.max_path_len (pos 0))
            ≡ false))
unfolding check_ca
check_ca_iff issuer template now = (λ h. ground arith, λ (a, b, c, d, e, g). ground arith)

check_usages_iff :
    (parents usages : List ExtKeyUsage)
    → (check_usages parents usages ≡ ok tt) ↔ All (λ u. has_usage parents u ≡ true) usages
unfolding check_usages
check_usages_iff parents [] = (λ h. tt, λ h. refl)
check_usages_iff parents (u ∷ us) = (
  λ h. elim (Bool-cases (has_usage parents u)) [
    | inl e ↦ (e, (check_usages_iff parents us).0 (rw e at h))
    | inr e ↦ cc (rw e at h)
  ],
  λ (p, q). rw p ((check_usages_iff parents us).1 q),
)

check_ext_usages_iff :
    (issuer template : Certificate)
    → (check_ext_usages issuer template ≡ ok tt) ↔ AllowsUsages issuer template
unfolding check_ext_usages AllowsUsages
check_ext_usages_iff issuer template =
    elim (Bool-cases (is_empty issuer.ext_key_usage || has_usage issuer.ext_key_usage usage_any)) [
      | inl e ↦ (λ h. inl e, λ h. rw e refl)
      | inr e ↦ (
        λ h. inr ((check_usages_iff issuer.ext_key_usage template.ext_key_usage).0 (rw e at h)),
        λ (h : AllowsUsages issuer template). rw e (elim h [
          | inl f ↦ cc
          | inr a ↦ (check_usages_iff issuer.ext_key_usage template.ext_key_usage).1 a
        ]),
      )
    ]

-- `checkIssuer` accepts an issuer exactly when it can issue, and the template that comes back is the
-- one that the name constraints leave, whose extended key usages the issuer allows.
pub check_issuer_iff :
    (issuer template t : Certificate) (now : ℤ)
    → (check_issuer issuer template now ≡ ok t) ↔ (
        CanIssue issuer template now
        × ((apply_name_constraints issuer template >>= inherit_name_constraints issuer) ≡ ok t)
        × AllowsUsages issuer t)
unfolding check_issuer
check_issuer_iff issuer template t now = (sound, λ (a, b, c). complete a b c)
  where
    sound :
        check_issuer issuer template now ≡ ok t
        → CanIssue issuer template now
          × ((apply_name_constraints issuer template >>= inherit_name_constraints issuer) ≡ ok t)
          × AllowsUsages issuer t
    sound h =
        let (u, p, h1) = >>=-eq-ok (check_ca issuer template now) _ h in
        let (a, b, c, d, e, g) = (check_ca_iff issuer template now).0 p in
        let (named, q, h2) = >>=-eq-ok (apply_name_constraints issuer template) _ h1 in
        let (constrained, r, h3) = >>=-eq-ok (inherit_name_constraints issuer named) _ h2 in
        let (v, s, h4) = >>=-eq-ok (check_ext_usages issuer constrained) _ h3 in
        let same_template : constrained ≡ t = cc in
        (
          record {
            constraints_valid = a;
            authority = b;
            may_sign = c;
            not_expired = d;
            started = e;
            room_below = g;
          },
          rw q (r ∙ ap ok same_template),
          subst (AllowsUsages issuer) same_template ((check_ext_usages_iff issuer constrained).0 s),
        )

    complete :
        CanIssue issuer template now
        → (apply_name_constraints issuer template >>= inherit_name_constraints issuer) ≡ ok t
        → AllowsUsages issuer t
        → check_issuer issuer template now ≡ ok t
    complete can e allowed =
        let (named, q, r) = >>=-eq-ok (apply_name_constraints issuer template) _ e in
        let p = (check_ca_iff issuer template now).1 (
          can.constraints_valid, can.authority, can.may_sign, can.not_expired, can.started,
          can.room_below,
        ) in
        rw (p, q) (rw r (rw ((check_ext_usages_iff issuer t).1 allowed) refl))
