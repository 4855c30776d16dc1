-- ===== src/Subject/Marks.antt =====
-- What `ParseName` of pkg/certtool/certtool.go does with escaped delimiters.
use certtool.Base.{
  ℕ, false, ◌==◌, if◌then◌else◌, [], ◌∷◌, ◌++◌, ◌≡◌, refl, sym, ap, ◌∙◌, arith, Bool-cases, inl,
  inr, ==→eq,
}
use certtool.Base.Text.{Text, Lacks}
use certtool.Subject.{replacement, protect, restore}
use certtool.Subject.Print.{escape, ends_in}

-- a value with its delimiters replaced
unfoldable pub mark : Text → Text
mark [] = []
mark (x ∷ s) = if x == b'/' then replacement (mark s) else x ∷ mark s

pub protect_other : (x : ℕ) (s : Text) → (x == b'\\') ≡ false → protect (x ∷ s) ≡ x ∷ protect s
unfolding protect
protect_other x [] h = refl
protect_other x (d ∷ s) h = ground (arith, h)

pub protect_next :
    (x d : ℕ) (s : Text) → (d == b'/') ≡ false → protect (x ∷ d ∷ s) ≡ x ∷ protect (d ∷ s)
unfolding protect
protect_next x d s h = ground (arith, h)

pub protect_delimiter : (s : Text) → protect (b'\\' ∷ b'/' ∷ s) ≡ replacement (protect s)
unfolding protect
protect_delimiter s = refl

pub protect-append : (k s : Text) → Lacks b'\\' k → protect (k ++ s) ≡ k ++ protect s
protect-append [] s h = refl
protect-append (x ∷ k) s (h, hs) =
    protect_other x (k ++ s) h ∙ ap (λ t. x ∷ t) (protect-append k s hs)

pub protect-escape :
    (v rest : Text) → ends_in b'\\' v ≡ false → protect (escape v ++ rest) ≡ mark v ++ protect rest
unfolding escape mark ends_in protect
protect-escape [] rest h = refl
protect-escape (x ∷ []) rest h = elim (Bool-cases (x == b'/')) [
  | inl e ↦ rw e refl
  | inr e ↦ rw e (protect_other x rest h)
]
protect-escape (x ∷ y ∷ s) rest h =
    let later = protect-escape (y ∷ s) rest h in
    elim (Bool-cases (x == b'/')) [
      | inl e ↦ rw e (ap (λ t. replacement t) later)
      | inr e ↦ elim (Bool-cases (y == b'/')) [
        | inl g ↦
            rw (e, g)
              (protect_next x b'\\' (b'/' ∷ (escape s ++ rest)) refl
                ∙ ap (λ t. x ∷ t) (rw g at later))
        | inr g ↦
            rw (e, g) (protect_next x y (escape s ++ rest) g ∙ ap (λ t. x ∷ t) (rw g at later))
      ]
    ]

pub mark-Lacks-delimiter : (v : Text) → Lacks b'/' (mark v)
unfolding mark
mark-Lacks-delimiter [] = tt
mark-Lacks-delimiter (x ∷ v) = elim (Bool-cases (x == b'/')) [
  | inl e ↦ rw e (refl, (refl, (refl, mark-Lacks-delimiter v)))
  | inr e ↦ rw e (e, mark-Lacks-delimiter v)
]

pub mark-Lacks-equals : (v : Text) → Lacks b'=' v → Lacks b'=' (mark v)
unfolding mark
mark-Lacks-equals [] h = tt
mark-Lacks-equals (x ∷ v) (h, hs) = elim (Bool-cases (x == b'/')) [
  | inl e ↦ rw e (refl, (refl, (refl, mark-Lacks-equals v hs)))
  | inr e ↦ rw e (h, mark-Lacks-equals v hs)
]

pub restore_other : (x : ℕ) (s : Text) → (x == 0xe2) ≡ false → restore (x ∷ s) ≡ x ∷ restore s
unfolding restore
restore_other x [] h = refl
restore_other x (y ∷ []) h = refl
restore_other x (y ∷ z ∷ s) h = ground (arith, h)

pub restore-mark : (v : Text) → Lacks 0xe2 v → restore (mark v) ≡ v
unfolding mark restore
restore-mark [] h = refl
restore-mark (x ∷ v) (h, hs) = elim (Bool-cases (x == b'/')) [
  | inl e ↦ rw e (ap (λ t. b'/' ∷ t) (restore-mark v hs) ∙ ap (λ y. y ∷ v) (sym (==→eq x b'/' e)))
  | inr e ↦ rw e (restore_other x (mark v) h ∙ ap (λ t. x ∷ t) (restore-mark v hs))
]
