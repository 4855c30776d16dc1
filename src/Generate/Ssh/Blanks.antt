-- ===== src/Generate/Ssh/Blanks.antt =====
-- `sshComment` of pkg/certtool/spec.go leaves no white space and no control character, in UTF-8.
use certtool.Base.{
  ℕ, zero, suc, ◌-◌, ◌≡◌, refl, Bool, false, ◌||◌, not, ◌==◌, [], ◌∷◌, arith, Bool-cases, inl, inr,
}
use certtool.Base.Text.{Text, is_space}
use certtool.Generate.Ssh.{
  is_control, is_blank_pair, is_blank_triple, long_blank, blank_width, mark, replace_blanks,
  ssh_comment,
}

-- A rune for which unicode.IsSpace or unicode.IsControl holds starts somewhere in the text.
unfoldable pub has_blank : Text → Bool
has_blank [] = false
has_blank (c ∷ s) = not (blank_width c s == 0) || has_blank s

marked_second : (n c d : ℕ) (u : Text) → (n == 0) ≡ false → long_blank c (mark n d ∷ u) ≡ 0
unfolding long_blank is_blank_pair is_blank_triple
marked_second n c d [] h = rw h (ground arith)
marked_second n c d (e ∷ u) h = rw h (ground arith)

marked_last : (n c d : ℕ) → long_blank c (d ∷ []) ≡ 0 → long_blank c (mark n d ∷ []) ≡ 0
unfolding long_blank is_blank_pair
marked_last n c d h = ground arith

marked_third :
    (n c d e : ℕ) (u v : Text) → long_blank c (d ∷ e ∷ v) ≡ 0 → long_blank c (d ∷ mark n e ∷ u) ≡ 0
unfolding long_blank is_blank_triple
marked_third n c d e u v h = ground arith

-- What does not start a rune that is replaced does not start one either in front of what is replaced.
kept : (c : ℕ) (s : Text) → long_blank c s ≡ 0 → long_blank c (replace_blanks 0 s) ≡ 0
unfolding replace_blanks
kept c [] h = h
kept c (d ∷ []) h = marked_last (blank_width d []) c d h
kept c (d ∷ e ∷ v) h = elim (Bool-cases (blank_width d (e ∷ v) == 0)) [
  | inl z ↦
      let none : blank_width d (e ∷ v) ≡ 0 = ground arith in
      rw none (marked_third (blank_width e v) c d e (replace_blanks (blank_width e v - 1) v) v h)
  | inr z ↦ marked_second _ c d (replace_blanks (blank_width d (e ∷ v) - 1) (e ∷ v)) z
]

kept_width : (c : ℕ) (s : Text) → blank_width c s ≡ 0 → blank_width c (replace_blanks 0 s) ≡ 0
unfolding blank_width
kept_width c s h = ground (arith, kept c s)

underscore_width : (s : Text) → blank_width b'_' s ≡ 0
unfolding blank_width is_space is_control long_blank is_blank_pair is_blank_triple
underscore_width [] = refl
underscore_width (d ∷ []) = refl
underscore_width (d ∷ e ∷ s) = refl

has_blank-replace_blanks : (skip : ℕ) (s : Text) → has_blank (replace_blanks skip s) ≡ false
unfolding has_blank replace_blanks
has_blank-replace_blanks skip [] = refl
has_blank-replace_blanks (suc skip) (c ∷ s) = has_blank-replace_blanks skip s
has_blank-replace_blanks zero (c ∷ s) = elim (Bool-cases (blank_width c s == 0)) [
  | inl z ↦
      let none : blank_width c s ≡ 0 = ground arith in
      rw (none, kept_width c s none) (has_blank-replace_blanks 0 s)
  | inr z ↦
      rw (z, underscore_width (replace_blanks (blank_width c s - 1) s))
        (has_blank-replace_blanks (blank_width c s - 1) s)
]

pub has_blank-ssh_comment : (comment : Text) → has_blank (ssh_comment comment) ≡ false
unfolding ssh_comment
has_blank-ssh_comment comment = has_blank-replace_blanks 0 comment
