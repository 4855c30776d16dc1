-- ===== src/Generate/Ssh.antt =====
-- The line of an SSH public key: `writeSSHPublicKey` and `sshComment` of pkg/certtool/spec.go.
pub mod Blanks
pub mod OneLine
use certtool.Base.{
  ℕ, zero, suc, ◌-◌, Bool, ◌&&◌, ◌||◌, ◌==◌, ltb, leb, if◌then◌else◌, [], ◌∷◌, ◌++◌,
}
use certtool.Base.Text.{Text, is_space, trim_suffix}

-- unicode.IsControl, of ASCII
unfoldable pub is_control : ℕ → Bool
is_control c = ltb c 32 || c == 127

-- the control characters U+0080 to U+009F, and the spaces U+0085 and U+00A0
unfoldable pub is_blank_pair : ℕ → ℕ → Bool
is_blank_pair c d = c == 0xc2 && (leb 0x80 d && leb d 0xa0)

-- the spaces U+1680, U+2000 to U+200A, U+2028, U+2029, U+202F, U+205F and U+3000
unfoldable pub is_blank_triple : ℕ → ℕ → ℕ → Bool
is_blank_triple c d e =
    (c == 0xe1 && (d == 0x9a && e == 0x80))
    || (c == 0xe2
        && ((d == 0x80 && ((leb 0x80 e && leb e 0x8a) || (e == 0xa8 || (e == 0xa9 || e == 0xaf))))
            || (d == 0x81 && e == 0x9f)))
    || (c == 0xe3 && (d == 0x80 && e == 0x80))

unfoldable pub long_blank : ℕ → Text → ℕ
unfolding is_blank_pair is_blank_triple
long_blank c [] = 0
long_blank c (d ∷ []) = if is_blank_pair c d then 2 else 0
long_blank c (d ∷ e ∷ s) = if is_blank_pair c d then 2 else if is_blank_triple c d e then 3 else 0

-- How many bytes the rune takes that the text starts with, in UTF-8, if unicode.IsSpace or
-- unicode.IsControl holds of it; otherwise 0.
unfoldable pub blank_width : ℕ → Text → ℕ
unfolding is_space is_control long_blank
blank_width c s = if is_space c || is_control c then 1 else long_blank c s

abbrev pub mark : ℕ → ℕ → ℕ
mark width c = if width == 0 then c else b'_'

-- strings.Map, behind the rest of a rune that was replaced
unfoldable pub replace_blanks : ℕ → Text → Text
unfolding blank_width
replace_blanks skip [] = []
replace_blanks (suc skip) (c ∷ s) = replace_blanks skip s
replace_blanks zero (c ∷ s) =
    let width = blank_width c s in mark width c ∷ replace_blanks (width - 1) s

unfoldable pub ssh_comment : Text → Text
unfolding replace_blanks
ssh_comment comment = replace_blanks 0 comment

-- ssh.MarshalAuthorizedKey ends the key with a line feed.
unfoldable pub ssh_line : Text → Text → Text
unfolding ssh_comment trim_suffix
ssh_line key comment = trim_suffix 10 key ++ 32 ∷ (ssh_comment comment ++ 10 ∷ [])
