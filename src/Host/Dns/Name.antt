-- ===== src/Host/Dns/Name.antt =====
-- What `validateDNSName` of pkg/certtool/certtool.go accepts.
use certtool.Base.{
  ◌≤◌, ◌≡◌, ◌≢◌, true, false, List, [], ◌∷◌, length, is_empty, ok, All, arith, refl, ◌↔◌, ◌⊎◌, inl,
  inr, Bool-cases, >>=-eq-ok,
}
use certtool.Base.Text.{Text, trim_suffix, split, same, same_iff}
use certtool.Host.Dns.{
  label_byte, validate_dns_label, validate_labels, first_label, validate_dns_name,
}
use certtool.Host.Dns.Label.{IsLabel, is_empty_iff, validate_dns_label_iff}

abbrev star : Text
star = b'*' ∷ []

-- The first label is a label, or a star with at least two labels behind it.
abbrev pub AreLabels : List Text → Type 0
AreLabels [] = Unit
AreLabels (l ∷ ls) = (IsLabel l ⊎ (l ≡ b'*' ∷ []) × (2 ≤ length ls)) × All IsLabel ls

-- Without one trailing dot, 1 to 253 bytes whose parts between dots are labels.
pub record IsDnsName (name : Text) : Type 0 where
  pub not_empty : trim_suffix b'.' name ≢ []
  pub short : length (trim_suffix b'.' name) ≤ 253
  pub labels : AreLabels (split b'.' (trim_suffix b'.' name))

validate_labels→All : (ls : List Text) → validate_labels ls ≡ ok tt → All IsLabel ls
unfolding validate_labels
validate_labels→All [] h = tt
validate_labels→All (l ∷ ls) h =
    let (u, p, q) = >>=-eq-ok (validate_dns_label l) (λ _. validate_labels ls) h in
    ((validate_dns_label_iff l).0 p, validate_labels→All ls q)

All→validate_labels : (ls : List Text) → All IsLabel ls → validate_labels ls ≡ ok tt
unfolding validate_labels
All→validate_labels [] h = refl
All→validate_labels (l ∷ ls) (p, h) = rw ((validate_dns_label_iff l).1 p) (All→validate_labels ls h)

-- A star is no label, since no label byte is one.
star_not-IsLabel : (l : Text) → l ≡ star → ¬ IsLabel l
unfolding label_byte
star_not-IsLabel [] e v = cc
star_not-IsLabel (c ∷ s) e v = let (p, _) = v.bytes in ground arith

-- A wildcard with two labels behind it.
behind_star :
    (l : Text) (ls : List Text)
    → same l star ≡ true
    → (first_label (l ∷ ls) ≡ ok tt) ↔ ((2 ≤ length ls) × (validate_labels ls ≡ ok tt))
unfolding first_label
behind_star l ls e = (λ h. ground arith, λ (a, b). ground arith)

-- Any other first label.
behind_label :
    (l : Text) (ls : List Text)
    → same l star ≡ false
    → (first_label (l ∷ ls) ≡ ok tt) ↔ (validate_labels (l ∷ ls) ≡ ok tt)
unfolding first_label
behind_label l ls e = (λ h. rw e at h, λ h. rw e h)

first_label_iff : (ls : List Text) → (first_label ls ≡ ok tt) ↔ AreLabels ls
first_label_iff [] = (λ h. tt, λ h. unfold first_label in refl)
first_label_iff (l ∷ ls) = elim (Bool-cases (same l star)) [
  | inl e ↦ (
    λ h.
        let (n, v) = (behind_star l ls e).0 h in
        (inr ((same_iff l star).0 e, n), validate_labels→All ls v),
    λ (first, rest). elim first [
      | inl v ↦ absurd (star_not-IsLabel l ((same_iff l star).0 e) v)
      | inr (q, n) ↦ (behind_star l ls e).1 (n, All→validate_labels ls rest)
    ],
  )
  | inr e ↦ (
    λ h. let (v, vs) = validate_labels→All (l ∷ ls) ((behind_label l ls e).0 h) in (inl v, vs),
    λ (first, rest). elim first [
      | inl v ↦ (behind_label l ls e).1 (All→validate_labels (l ∷ ls) (v, rest))
      | inr (q, n) ↦ cc ((same_iff l star).1 q)
    ],
  )
]

name_tests :
    (name : Text)
    → (validate_dns_name name ≡ ok tt) ↔ (
        (is_empty (trim_suffix b'.' name) ≡ false)
        × (length (trim_suffix b'.' name) ≤ 253)
        × (first_label (split b'.' (trim_suffix b'.' name)) ≡ ok tt))
unfolding validate_dns_name
name_tests name = (λ h. ground arith, λ (a, b, c). ground arith)

-- `validateDNSName` accepts exactly the names that, without one trailing dot, have 1 to 253 bytes
-- and whose parts between dots are labels; the first part may be a star if two labels follow it.
pub validate_dns_name_iff : (name : Text) → (validate_dns_name name ≡ ok tt) ↔ IsDnsName name
validate_dns_name_iff name = (
  λ h.
      let (a, b, c) = (name_tests name).0 h in
      record { not_empty = (is_empty_iff _).0 a; short = b; labels = (first_label_iff _).0 c },
  λ v.
      (name_tests name).1 ((is_empty_iff _).1 v.not_empty, v.short, (first_label_iff _).1 v.labels),
)
