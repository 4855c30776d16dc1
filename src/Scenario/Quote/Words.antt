-- ===== src/Scenario/Quote/Words.antt =====
-- A shell reads quoted texts back.
use certtool.Base.{
  ℕ, ◌≡◌, refl, sym, ap, ◌∙◌, true, false, ◌&&◌, ◌||◌, not, ◌==◌, Option, some, List, [], ◌∷◌, ◌++◌,
  is_empty, map, arith, Bool-cases, and_true, inl, inr, append_assoc, append-nil, if_true, if_false,
}
use certtool.Base.Text.{Text, codes, contains_byte, join}
use certtool.Scenario.Quote.{
  plain_byte, all_plain, escape_quotes, shell_quote, between, inside, quoted, is_special, prepend,
  ended, read_words, shell_words,
}

-- a text in front of the first word
abbrev prepend_all : Text → Option (List Text) → Option (List Text)
prepend_all [] r = r
prepend_all (c ∷ s) r = prepend c (prepend_all s r)

-- what follows the tests for blanks, quotes and backslashes
plain_ordinary :
    (c : ℕ)
    → plain_byte c ≡ true
    → ((c == 32 || c == 9) ≡ false)
      × ((c == b'\'') ≡ false)
      × ((c == b'\\') ≡ false)
      × (is_special c ≡ false)
unfolding plain_byte is_special contains_byte
plain_ordinary c h = (ground arith, ground arith, ground arith, ground arith)

plain_read :
    (c : ℕ) (s : Text)
    → plain_byte c ≡ true
    → (read_words inside (c ∷ s) ≡ prepend c (read_words inside s))
      × (read_words between (c ∷ s) ≡ prepend c (read_words inside s))
unfolding read_words
plain_read c s h =
    let (a, b, d, e) = plain_ordinary c h in (rw (a, b, d, e) refl, rw (a, b, d, e) refl)

read-plain :
    (s rest : Text)
    → all_plain s ≡ true
    → read_words inside (s ++ rest) ≡ prepend_all s (read_words inside rest)
unfolding all_plain
read-plain [] rest h = refl
read-plain (c ∷ s) rest h =
    (plain_read c (s ++ rest) (ground arith)).0 ∙ ap (prepend c) (read-plain s rest (ground arith))

read-escape :
    (s rest : Text)
    → read_words quoted (escape_quotes s ++ b'\'' ∷ rest) ≡ prepend_all s (read_words inside rest)
unfolding escape_quotes read_words
read-escape [] rest = ground arith
read-escape (c ∷ s) rest = elim (Bool-cases (c == b'\'')) [
  | inl e ↦ ground (arith, read-escape s rest)
  | inr e ↦ ground (arith, read-escape s rest)
]

pub read-shell_quote :
    (w rest : Text)
    → read_words between (shell_quote w ++ rest) ≡ prepend_all w (read_words inside rest)
unfolding shell_quote
read-shell_quote w rest = elim (Bool-cases (not (is_empty w) && all_plain w)) [
  | inl e ↦ ap (λ t. read_words between (t ++ rest)) (if_true _ _ _ e) ∙ unquoted w e
  | inr e ↦
      ap (λ t. read_words between (t ++ rest)) (if_false _ _ _ e)
      ∙ opened (append_assoc (escape_quotes w) (b'\'' ∷ []) rest)
      ∙ read-escape w rest
]
  where
    unquoted :
        (w : Text)
        → (not (is_empty w) && all_plain w) ≡ true
        → read_words between (w ++ rest) ≡ prepend_all w (read_words inside rest)
    unquoted [] h = cc
    unquoted (c ∷ s) h =
        let (p, q) = and_true (plain_byte c) (all_plain s) h in
        (plain_read c (s ++ rest) p).1 ∙ ap (prepend c) (read-plain s rest q)

    opened :
        (escape_quotes w ++ b'\'' ∷ []) ++ rest ≡ escape_quotes w ++ b'\'' ∷ rest
        → read_words between (b'\'' ∷ ((escape_quotes w ++ b'\'' ∷ []) ++ rest))
          ≡ read_words quoted (escape_quotes w ++ b'\'' ∷ rest)
    opened e = unfold read_words in ap (read_words quoted) e

prepend_all_word : (w : Text) (ws : List Text) → prepend_all w (some ([] ∷ ws)) ≡ some (w ∷ ws)
prepend_all_word [] ws = refl
prepend_all_word (c ∷ w) ws = rw (prepend_all_word w ws) refl

-- A shell reads texts that are quoted and separated by spaces back as its words.
pub shell_words-join :
    (ws : List Text) → shell_words (join (codes " ") (map shell_quote ws)) ≡ some ws
unfolding shell_words join
shell_words-join [] = unfold read_words in refl
shell_words-join (w ∷ []) =
    ap (read_words between) (sym (append-nil (shell_quote w))) ∙ read-shell_quote w [] ∙ ended_word
  where
    ended_word : prepend_all w (read_words inside []) ≡ some (w ∷ [])
    ended_word = unfold read_words in prepend_all_word w []
shell_words-join (w ∷ v ∷ ws) =
    read-shell_quote w (32 ∷ join (codes " ") (map shell_quote (v ∷ ws)))
    ∙ ap (prepend_all w) (spaced (shell_words-join (v ∷ ws)))
    ∙ prepend_all_word w (v ∷ ws)
  where
    spaced :
        read_words between (join (codes " ") (map shell_quote (v ∷ ws))) ≡ some (v ∷ ws)
        → read_words inside (32 ∷ join (codes " ") (map shell_quote (v ∷ ws))) ≡ some ([] ∷ v ∷ ws)
    spaced h = ap ended h
