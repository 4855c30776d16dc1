-- ===== src/Examples/Subjects.antt =====
-- A distinguished name, and the line of an SSH public key, at concrete inputs.
use certtool.Base.{◌≡◌, refl, false, [], ◌∷◌, ◌++◌, All, List, ok}
use certtool.Base.Text.{Text, codes, split, Lacks}
use certtool.Subject.{empty_name, parse_name}
use certtool.Generate.Ssh.{ssh_comment, ssh_line}
use certtool.Generate.Ssh.Blanks.{has_blank}
use certtool.Generate.Ssh.OneLine.{IsField, ssh_line-one_line}
use certtool.Subject.Print.{Attribute, c, o, cn, print_name, put_attributes, IsValue}
use certtool.Subject.RoundTrip.{parse_name-print_name}

abbrev attributes : List Attribute
attributes =
    record { kind = c; value = codes "US" }
    ∷ record { kind = o; value = codes "A/B" }
    ∷ record { kind = cn; value = codes "x" }
    ∷ []

writable : All (λ (a : Attribute). IsValue a.value) attributes
unfolding IsValue
writable = (
  ((refl, (refl, tt)), (refl, (refl, tt)), refl),
  (
    ((refl, (refl, (refl, tt))), (refl, (refl, (refl, tt))), refl),
    (((refl, tt), (refl, tt), refl), tt),
  ),
)

parse_name-print_name_example :
    parse_name (print_name attributes) ≡ ok (put_attributes attributes empty_name)
parse_name-print_name_example = parse_name-print_name attributes writable

-- a comment with a line feed, which would begin another key
abbrev two_lines : Text
two_lines = codes "a b" ++ 10 ∷ codes "key"

short_key : Lacks 10 (codes "ed")
short_key = (refl, (refl, tt))

ssh_line-one_line_example :
    (split 10 (ssh_line (codes "ed" ++ 10 ∷ []) two_lines)
      ≡ (codes "ed" ++ 32 ∷ ssh_comment two_lines) ∷ [] ∷ [])
    × IsField (ssh_comment two_lines)
    × (has_blank (ssh_comment two_lines) ≡ false)
ssh_line-one_line_example = ssh_line-one_line (codes "ed") two_lines short_key

-- a no-break space, a line separator, and a letter of three bytes that is neither
abbrev wide : Text
wide = 97 ∷ 0xc2 ∷ 0xa0 ∷ 98 ∷ 0xe2 ∷ 0x80 ∷ 0xa8 ∷ 0xe2 ∷ 0x82 ∷ 0xac ∷ []

wide_underscores : ssh_comment wide ≡ 97 ∷ b'_' ∷ 98 ∷ b'_' ∷ 0xe2 ∷ 0x82 ∷ 0xac ∷ []
unfolding ssh_comment
wide_underscores = refl

underscores : ssh_comment two_lines ≡ codes "a_b_key"
unfolding ssh_comment
underscores = refl
