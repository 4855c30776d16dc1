-- ===== src/Scenario/Quote.antt =====
-- `shellQuote` of pkg/certtool/scenario.go, and the words that a POSIX shell reads.
pub mod Words
use certtool.Base.{
  ℕ, ◌≡◌, refl, Bool, true, false, ◌&&◌, ◌||◌, not, leb, ◌==◌, if◌then◌else◌, Option, none, some,
  List, [], ◌∷◌, ◌++◌, is_empty,
}
use certtool.Base.Text.{Text, codes, contains_byte}

-- the bytes that need no quotes
unfoldable pub plain_byte : ℕ → Bool
unfolding contains_byte
plain_byte c =
    (leb b'a' c && leb c b'z')
    || (leb b'A' c && leb c b'Z')
    || (leb b'0' c && leb c b'9')
    || contains_byte c (codes "._,:/@=+-")

-- strings.Trim(s, set) == "": every byte is in the set
unfoldable pub all_plain : Text → Bool
all_plain [] = true
all_plain (c ∷ s) = plain_byte c && all_plain s

-- strings.ReplaceAll(s, "'", `'\''`)
unfoldable pub escape_quotes : Text → Text
escape_quotes [] = []
escape_quotes (c ∷ s) =
    let rest = escape_quotes s in
    if c == b'\'' then b'\'' ∷ b'\\' ∷ b'\'' ∷ b'\'' ∷ rest else c ∷ rest

unfoldable pub shell_quote : Text → Text
unfolding all_plain plain_byte escape_quotes
shell_quote s =
    if not (is_empty s) && all_plain s then s else b'\'' ∷ (escape_quotes s ++ b'\'' ∷ [])

-- Where a shell stands in a line: between words, in a word, in single quotes, behind a backslash.
pub data Mode : Type 0 where
  between inside quoted escaped : Mode

-- The bytes that mean something to a shell outside of quotes; blanks aside. `=` does in front of the
-- command's name alone.
unfoldable pub is_special : ℕ → Bool
unfolding contains_byte
is_special c = c == 10 || contains_byte c (codes "|&;<>()$`\"*?[]#~%!{}^")

abbrev is_blank : ℕ → Bool
is_blank c = c == 32 || c == 9

-- a byte in front of the first word
abbrev pub prepend : ℕ → Option (List Text) → Option (List Text)
prepend c none = none
prepend c (some []) = none
prepend c (some (w ∷ ws)) = some ((c ∷ w) ∷ ws)

abbrev pub ended : Option (List Text) → Option (List Text)
ended none = none
ended (some ws) = some ([] ∷ ws)

-- The words of a line, the first of which is the rest of the current one unless the shell is between
-- words. Nothing for a line with special bytes or open quotes.
unfoldable pub read_words : Mode → Text → Option (List Text)
unfolding is_special
read_words between [] = some []
read_words inside [] = some ([] ∷ [])
read_words quoted [] = none
read_words escaped [] = none
read_words between (c ∷ s) =
    let skip = read_words between s in
    let quote = read_words quoted s in
    let escape = read_words escaped s in
    let take = prepend c (read_words inside s) in
    if is_blank c
    then skip
    else if c == b'\''
    then quote
    else if c == b'\\'
    then escape
    else if is_special c
    then none
    else take
read_words inside (c ∷ s) =
    let stop = ended (read_words between s) in
    let quote = read_words quoted s in
    let escape = read_words escaped s in
    let take = prepend c (read_words inside s) in
    if is_blank c
    then stop
    else if c == b'\''
    then quote
    else if c == b'\\'
    then escape
    else if is_special c
    then none
    else take
read_words quoted (c ∷ s) =
    let leave = read_words inside s in
    let take = prepend c (read_words quoted s) in if c == b'\'' then leave else take
read_words escaped (c ∷ s) =
    let take = prepend c (read_words inside s) in if c == 10 then none else take

unfoldable pub shell_words : Text → Option (List Text)
unfolding read_words
shell_words line = read_words between line

quote_forms :
    (shell_quote (codes "web.example.com") ≡ codes "web.example.com")
    × (shell_quote (codes "it's") ≡ codes "'it'\\''s'")
    × (shell_quote [] ≡ codes "''")
    × (shell_words (codes "a 'b c' d\\ e ''")
        ≡ some (codes "a" ∷ codes "b c" ∷ codes "d e" ∷ [] ∷ []))
    × (shell_words (codes "a; b") ≡ none)
unfolding shell_quote shell_words
quote_forms = (refl, refl, refl, refl, refl)
