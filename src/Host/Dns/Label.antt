-- ===== src/Host/Dns/Label.antt =====
-- What `validateDNSLabel` of pkg/certtool/certtool.go accepts, said without an order of tests.
use mathlib.Core.Bool.{false≢true}
use certtool.Base.{
  ◌≤◌, ◌≡◌, ◌≢◌, true, false, [], ◌∷◌, ◌++◌, sym, ap, ◌∙◌, length, is_empty, ok, All, arith, refl,
  ◌↔◌, inl, inr, Bool-cases,
}
use certtool.Base.Text.{Text, contains_byte}
use certtool.Host.Dns.{label_byte, check_bytes, starts_hyphen, ends_hyphen, validate_dns_label}

-- A label of letters, digits, hyphens and underscores, of 1 to 63 bytes, with no hyphen at an end.
pub record IsLabel (label : Text) : Type 0 where
  pub not_empty : label ≢ []
  pub short : length label ≤ 63
  pub bytes : All (λ r. label_byte r ≡ true) label
  pub no_first_hyphen : (s : Text) → label ≢ b'-' ∷ s
  pub no_last_hyphen : (s : Text) → label ≢ s ++ b'-' ∷ []

check_bytes→All : (s : Text) → check_bytes s ≡ ok tt → All (λ r. label_byte r ≡ true) s
unfolding check_bytes
check_bytes→All [] h = tt
check_bytes→All (r ∷ s) h = elim (Bool-cases (label_byte r)) [
  | inl e ↦ (e, check_bytes→All s (rw e at h))
  | inr e ↦ cc (rw e at h)
]

All→check_bytes : (s : Text) → All (λ r. label_byte r ≡ true) s → check_bytes s ≡ ok tt
unfolding check_bytes
All→check_bytes [] h = refl
All→check_bytes (r ∷ s) (p, h) = rw p (All→check_bytes s h)

-- a label's bytes are no stars
no_star : (s : Text) → All (λ r. label_byte r ≡ true) s → contains_byte b'*' s ≡ false
unfolding contains_byte label_byte
no_star [] h = refl
no_star (r ∷ s) (p, h) = ground (arith, no_star s h)

starts_hyphen_iff : (label : Text) → (starts_hyphen label ≡ false) ↔ ((s : Text) → label ≢ b'-' ∷ s)
unfolding starts_hyphen
starts_hyphen_iff [] = (λ h s e. cc, λ h. refl)
starts_hyphen_iff (c ∷ t) = (λ h s e. ground arith, λ h. ground (arith, h t))

ends_hyphen-append : (s : Text) → ends_hyphen (s ++ b'-' ∷ []) ≡ true
unfolding ends_hyphen
ends_hyphen-append [] = refl
ends_hyphen-append (c ∷ []) = refl
ends_hyphen-append (c ∷ d ∷ s) = ends_hyphen-append (d ∷ s)

ends_hyphen→append :
    (label : Text) → ends_hyphen label ≡ true → (s : Text) × (label ≡ s ++ b'-' ∷ [])
unfolding ends_hyphen
ends_hyphen→append [] h = cc
ends_hyphen→append (c ∷ []) h = ([], ground arith)
ends_hyphen→append (c ∷ d ∷ s) h =
    let (t, e) = ends_hyphen→append (d ∷ s) h in (c ∷ t, ap (λ x. c ∷ x) e)

ends_hyphen_iff :
    (label : Text) → (ends_hyphen label ≡ false) ↔ ((s : Text) → label ≢ s ++ b'-' ∷ [])
ends_hyphen_iff label = (
  λ h s e. false≢true (sym h ∙ ap ends_hyphen e ∙ ends_hyphen-append s),
  λ h. elim (Bool-cases (ends_hyphen label)) [
    | inl e ↦ let (s, q) = ends_hyphen→append label e in absurd (h s q)
    | inr e ↦ e
  ],
)

pub is_empty_iff : (s : Text) → (is_empty s ≡ false) ↔ (s ≢ [])
is_empty_iff s = ground arith

-- The tests that an accepted label has passed.
label_tests :
    (label : Text)
    → validate_dns_label label ≡ ok tt
    → (is_empty label ≡ false)
      × (length label ≤ 63)
      × (starts_hyphen label ≡ false)
      × (ends_hyphen label ≡ false)
      × (check_bytes label ≡ ok tt)
unfolding validate_dns_label
label_tests label h = ground arith

label_accepted :
    (label : Text)
    → is_empty label ≡ false
    → length label ≤ 63
    → contains_byte b'*' label ≡ false
    → starts_hyphen label ≡ false
    → ends_hyphen label ≡ false
    → check_bytes label ≡ ok tt
    → validate_dns_label label ≡ ok tt
unfolding validate_dns_label
label_accepted label e l s a b c = ground arith

-- `validateDNSLabel` accepts exactly the labels of 1 to 63 letters, digits, hyphens and underscores
-- that neither start nor end with a hyphen.
pub validate_dns_label_iff : (label : Text) → (validate_dns_label label ≡ ok tt) ↔ IsLabel label
validate_dns_label_iff label = (
  λ h.
      let (e, l, a, b, c) = label_tests label h in
      record {
        not_empty = (is_empty_iff label).0 e;
        short = l;
        bytes = check_bytes→All label c;
        no_first_hyphen = (starts_hyphen_iff label).0 a;
        no_last_hyphen = (ends_hyphen_iff label).0 b;
      },
  λ v.
      label_accepted label ((is_empty_iff label).1 v.not_empty) v.short (no_star label v.bytes)
        ((starts_hyphen_iff label).1 v.no_first_hyphen) ((ends_hyphen_iff label).1 v.no_last_hyphen)
        (All→check_bytes label v.bytes),
)
