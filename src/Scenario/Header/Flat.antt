-- ===== src/Scenario/Header/Flat.antt =====
-- Texts on one line, and what keeps them so: the parts of the header of a scenario's spec, of
-- pkg/certtool/scenario.go.
use certtool.Base.{
  ◌≡◌, refl, Bool, false, ◌&&◌, ◌||◌, not, ◌==◌, List, [], ◌∷◌, ◌++◌, is_empty, All, All-append,
  arith, Bool-cases, inl, inr, ok, >>=-eq-ok,
}
use certtool.Base.Text.{Text, codes, join}
use certtool.Scenario.{or_else}
use certtool.Scenario.Quote.{all_plain, escape_quotes, shell_quote}
use certtool.Scenario.Header.{has_control_character, check_values, check_text_fields, flag, flags}

-- LF and CR, the ends of lines in YAML 1.2
unfoldable pub has_break : Text → Bool
has_break [] = false
has_break (c ∷ s) = c == 10 || c == 13 || has_break s

-- A text without a line break.
unfoldable pub Flat : Text → Type 0
Flat s = has_break s ≡ false

uncontrolled-Flat : (s : Text) → has_control_character s ≡ false → Flat s
unfolding Flat has_control_character has_break
uncontrolled-Flat [] h = refl
uncontrolled-Flat (c ∷ []) h = ground arith
uncontrolled-Flat (c ∷ d ∷ s) h = ground (arith, uncontrolled-Flat (d ∷ s))

values-Flat : (field : Text) (vs : List Text) → check_values field vs ≡ ok tt → All Flat vs
unfolding check_values
values-Flat field [] h = tt
values-Flat field (v ∷ vs) h = elim (Bool-cases (has_control_character v)) [
  | inl e ↦ cc (rw e at h)
  | inr e ↦ (uncontrolled-Flat v e, values-Flat field vs (rw e at h))
]

pub fields-Flat :
    (fs : List (Text × List Text))
    → check_text_fields fs ≡ ok tt
    → All (λ (f : Text × List Text). All Flat f.1) fs
unfolding check_text_fields
fields-Flat [] h = tt
fields-Flat ((field, values) ∷ fs) h =
    let (u, p, q) = >>=-eq-ok (check_values field values) (λ _. check_text_fields fs) h in
    (values-Flat field values p, fields-Flat fs q)

pub append-Flat : (s t : Text) → Flat s → Flat t → Flat (s ++ t)
unfolding Flat has_break
append-Flat [] t h k = k
append-Flat (c ∷ s) t h k = ground (arith, append-Flat s t)

pub join-Flat : (sep : Text) (ss : List Text) → Flat sep → All Flat ss → Flat (join sep ss)
unfolding join
join-Flat sep [] h hs = unfold Flat has_break in refl
join-Flat sep (s ∷ []) h (k, ks) = k
join-Flat sep (s ∷ t ∷ ss) h (k, ks) =
    append-Flat s _ k (append-Flat sep _ h (join-Flat sep (t ∷ ss) h ks))

escape-Flat : (s : Text) → Flat s → Flat (escape_quotes s)
unfolding Flat has_break escape_quotes
escape-Flat [] h = refl
escape-Flat (c ∷ s) h = ground (arith, escape-Flat s)

pub quote-Flat : (s : Text) → Flat s → Flat (shell_quote s)
unfolding shell_quote
quote-Flat s h = elim (Bool-cases (not (is_empty s) && all_plain s)) [
  | inl e ↦ rw e h
  | inr e ↦ rw e (quoted (append-Flat (escape_quotes s) (b'\'' ∷ []) (escape-Flat s h)))
]
  where
    quoted :
        (Flat (b'\'' ∷ []) → Flat (escape_quotes s ++ b'\'' ∷ []))
        → Flat (b'\'' ∷ (escape_quotes s ++ b'\'' ∷ []))
    quoted f = unfold Flat has_break in f refl

pub flag-Flat :
    (name value : Text) → Flat (codes "--" ++ name) → Flat value → All Flat (flag name value)
unfolding flag
flag-Flat name [] h k = tt
flag-Flat name (c ∷ v) h k = (h, (quote-Flat (c ∷ v) k, tt))

pub flags-Flat :
    (fs : List (Text × Text))
    → All (λ (f : Text × Text). Flat (codes "--" ++ f.0) × Flat f.1) fs
    → All Flat (flags fs)
unfolding flags
flags-Flat [] h = tt
flags-Flat ((name, value) ∷ fs) ((p, q), h) =
    All-append Flat (flag name value) (flags fs) (flag-Flat name value p q) (flags-Flat fs h)

pub or_else-Flat : (s d : Text) → Flat s → Flat d → Flat (or_else s d)
or_else-Flat [] d h k = k
or_else-Flat (c ∷ s) d h k = h
