-- ===== src/Generate/Ssh/OneLine.antt =====
-- The line of an SSH public key is one line: `writeSSHPublicKey` of pkg/certtool/spec.go.
use certtool.Base.{
  ℕ, zero, suc, ◌-◌, false, ◌==◌, [], ◌∷◌, ◌++◌, All, All-append, All-mono, append_assoc, ◌≡◌, refl,
  sym, ap, ◌∙◌, arith,
}
use certtool.Base.Text.{Text, is_space, trim_suffix, split, Lacks, split-append, split-whole}
use certtool.Generate.Ssh.Blanks.{has_blank, has_blank-ssh_comment}
use certtool.Generate.Ssh.{blank_width, mark, replace_blanks, ssh_comment, ssh_line}

-- a line that is one field at most
abbrev pub IsField : Text → Type 0
IsField = All (λ (x : ℕ). (is_space x ≡ false) × ((x == 10) ≡ false))

mark_lem :
    (c : ℕ) (s : Text)
    → (is_space (mark (blank_width c s) c) ≡ false) × ((mark (blank_width c s) c == 10) ≡ false)
unfolding blank_width is_space
mark_lem c s = (ground arith, ground arith)

replace_blanks-IsField : (skip : ℕ) (s : Text) → IsField (replace_blanks skip s)
unfolding replace_blanks
replace_blanks-IsField skip [] = tt
replace_blanks-IsField (suc skip) (c ∷ s) = replace_blanks-IsField skip s
replace_blanks-IsField zero (c ∷ s) = (mark_lem c s, replace_blanks-IsField (blank_width c s - 1) s)

ssh_comment-IsField : (comment : Text) → IsField (ssh_comment comment)
unfolding ssh_comment
ssh_comment-IsField comment = replace_blanks-IsField 0 comment

trim_suffix_end : (b : ℕ) (s : Text) → trim_suffix b (s ++ b ∷ []) ≡ s
unfolding trim_suffix
trim_suffix_end b [] = ground arith
trim_suffix_end b (x ∷ []) = ap (λ t. x ∷ t) (trim_suffix_end b [])
trim_suffix_end b (x ∷ y ∷ s) = ap (λ t. x ∷ t) (trim_suffix_end b (y ∷ s))

-- Where the marshalled key is one line, with its line feed at the end, the file holds one line, the key, a
-- space and the comment, with nothing behind its line feed, whatever the comment holds; and the comment
-- that is written is one field, without white space, and has no white space or control character of
-- Unicode in UTF-8.
pub ssh_line-one_line :
    (key comment : Text)
    → Lacks 10 key
    → (split 10 (ssh_line (key ++ 10 ∷ []) comment) ≡ (key ++ 32 ∷ ssh_comment comment) ∷ [] ∷ [])
      × IsField (ssh_comment comment)
      × (has_blank (ssh_comment comment) ≡ false)
unfolding ssh_line
ssh_line-one_line key comment h = (
  ap (λ k. split 10 (k ++ 32 ∷ (ssh_comment comment ++ 10 ∷ []))) (trim_suffix_end 10 key)
      ∙ ap (split 10) (sym (append_assoc key (32 ∷ ssh_comment comment) (10 ∷ [])))
      ∙ split-append 10 (key ++ 32 ∷ ssh_comment comment) [] line
      ∙ last,
  ssh_comment-IsField comment,
  has_blank-ssh_comment comment,
)
  where
    line : Lacks 10 (key ++ 32 ∷ ssh_comment comment)
    line =
        All-append (λ (x : ℕ). (x == 10) ≡ false) key (32 ∷ ssh_comment comment) h
          (refl, All-mono (λ x p. p.1) (ssh_comment comment) (ssh_comment-IsField comment))

    last :
        (key ++ 32 ∷ ssh_comment comment) ∷ split 10 []
        ≡ (key ++ 32 ∷ ssh_comment comment) ∷ [] ∷ []
    last = ap (λ ps. (key ++ 32 ∷ ssh_comment comment) ∷ ps) (split-whole 10 [] tt)
