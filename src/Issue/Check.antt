-- ===== src/Issue/Check.antt =====
-- `checkIssuer` of pkg/certtool/certtool.go.
pub mod Accepts
use certtool.Base.{
  ℕ, ◌≡◌, refl, ℤ, pos, ltb_ℤ, eq_ℤ, Bool, true, false, ◌&&◌, ◌||◌, not, if◌then◌else◌, List, [],
  ◌∷◌, is_empty, any, All, Outcome, ok, err, ◌>>=◌, ◌>>◌, refuse, >>=-eq-ok, refuse-eq-ok, arith,
  ◌↔◌, Bool-cases, inl, inr,
}
use certtool.Failure.{
  Failure, parent_not_ca, parent_cannot_sign, parent_expired, parent_not_yet_valid,
  path_length_zero, usage_not_permitted,
}
use certtool.Cert.{ExtKeyUsage, usage_any, usage_eq, is_set, Certificate}
use certtool.Cert.Constraints.{apply_name_constraints, inherit_name_constraints}

-- slices.Contains
unfoldable pub has_usage : List ExtKeyUsage → ExtKeyUsage → Bool
unfolding usage_eq
has_usage usages usage = any (λ u. usage_eq u usage) usages

-- the switch at the start, in its order
unfoldable pub check_ca : Certificate → Certificate → ℤ → Outcome Failure (Unit {0})
unfolding is_set
check_ca issuer template now = do
  refuse (not issuer.basic_constraints_valid || not issuer.is_ca) parent_not_ca
  refuse (is_set issuer.key_usage && not issuer.key_usage.cert_sign) parent_cannot_sign
  refuse (ltb_ℤ issuer.not_after now) parent_expired
  refuse (ltb_ℤ now issuer.not_before) parent_not_yet_valid
  refuse (template.is_ca && issuer.max_path_len_zero && eq_ℤ issuer.max_path_len (pos 0))
      path_length_zero

-- the loop over template.ExtKeyUsage
unfoldable pub check_usages : List ExtKeyUsage → List ExtKeyUsage → Outcome Failure (Unit {0})
unfolding has_usage
check_usages parents [] = ok tt
check_usages parents (usage ∷ usages) =
    let later = check_usages parents usages in
    if has_usage parents usage then later else err usage_not_permitted

unfoldable pub check_ext_usages : Certificate → Certificate → Outcome Failure (Unit {0})
unfolding check_usages
check_ext_usages issuer template =
    if is_empty issuer.ext_key_usage || has_usage issuer.ext_key_usage usage_any
    then ok tt
    else check_usages issuer.ext_key_usage template.ext_key_usage

-- The template comes back with the names and constraints that the issuer leaves or gives it.
unfoldable pub check_issuer : Certificate → Certificate → ℤ → Outcome Failure Certificate
unfolding check_ca check_ext_usages
check_issuer issuer template now = do
  check_ca issuer template now
  named ← apply_name_constraints issuer template
  constrained ← inherit_name_constraints issuer named
  check_ext_usages issuer constrained
  ok constrained
