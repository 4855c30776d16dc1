-- ===== src/Base/Text/Order.antt =====
-- Go's order of strings, sort.Strings, and sorted lists without repeats.
use mathlib.Core.Path.{◌≡◌, refl, ap, ◌∙◌}
use mathlib.Core.Logic.{inl, inr}
use mathlib.Core.Bool.{Bool, true, false, ◌||◌}
use mathlib.Core.List.{List, [], ◌∷◌}
use native.Mathlib.Omega.{arith}
use certtool.Base.Tests.{ltb, ◌==◌, if◌then◌else◌, Bool-cases}
use certtool.Base.Lists.{All, All-mono}
use certtool.Base.Text.Ops.{Text, same, mem_text}

-- s < t, bytewise
unfoldable pub text_lt : Text → Text → Bool
text_lt [] [] = false
text_lt [] (b ∷ t) = true
text_lt (a ∷ s) [] = false
text_lt (a ∷ s) (b ∷ t) = let rest = text_lt s t in if a == b then rest else ltb a b

unfoldable pub insert_text : Text → List Text → List Text
unfolding text_lt
insert_text x [] = x ∷ []
insert_text x (y ∷ ys) = let rest = insert_text x ys in if text_lt y x then y ∷ rest else x ∷ y ∷ ys

-- sort.Strings: the sorted list is unique, so the algorithm does not matter.
unfoldable pub sort_texts : List Text → List Text
unfolding insert_text
sort_texts [] = []
sort_texts (x ∷ xs) = insert_text x (sort_texts xs)

-- Strictly ascending, so without repeats.
abbrev pub Ascending : List Text → Type 0
Ascending [] = Unit
Ascending (x ∷ xs) = All (λ y. text_lt x y ≡ true) xs × Ascending xs

-- Without repeats.
abbrev pub Distinct : List Text → Type 0
Distinct [] = Unit
Distinct (x ∷ xs) = (mem_text x xs ≡ false) × Distinct xs

text_lt_trans : (s t u : Text) → text_lt s t ≡ true → text_lt t u ≡ true → text_lt s u ≡ true
unfolding text_lt
text_lt_trans [] [] u h k = cc
text_lt_trans [] (b ∷ t) [] h k = cc
text_lt_trans [] (b ∷ t) (c ∷ u) h k = refl
text_lt_trans (a ∷ s) [] u h k = cc
text_lt_trans (a ∷ s) (b ∷ t) [] h k = cc
text_lt_trans (a ∷ s) (b ∷ t) (c ∷ u) h k = ground (arith, text_lt_trans s t u)

-- Of two different texts one is smaller.
text_lt_or : (s t : Text) → text_lt s t ≡ false → same s t ≡ false → text_lt t s ≡ true
unfolding text_lt same
text_lt_or [] [] h k = cc
text_lt_or [] (b ∷ t) h k = cc
text_lt_or (a ∷ s) [] h k = refl
text_lt_or (a ∷ s) (b ∷ t) h k = ground (arith, text_lt_or s t)

pub same_comm : (s t : Text) → same s t ≡ same t s
unfolding same
same_comm [] [] = refl
same_comm [] (b ∷ t) = refl
same_comm (a ∷ s) [] = refl
same_comm (a ∷ s) (b ∷ t) = ground (arith, same_comm s t)

insert-All :
    (P : Text → Type 0) (x : Text) (ys : List Text) → P x → All P ys → All P (insert_text x ys)
unfolding insert_text
insert-All P x [] p h = (p, tt)
insert-All P x (y ∷ ys) p (q, h) = elim (Bool-cases (text_lt y x)) [
  | inl e ↦ rw e (q, insert-All P x ys p h)
  | inr e ↦ rw e (p, (q, h))
]

insert-Ascending :
    (x : Text) (ys : List Text)
    → mem_text x ys ≡ false
    → Ascending ys
    → Ascending (insert_text x ys)
unfolding insert_text mem_text
insert-Ascending x [] n h = (tt, tt)
insert-Ascending x (y ∷ ys) n (q, h) = elim (Bool-cases (text_lt y x)) [
  | inl e ↦
      rw e (insert-All (λ z. text_lt y z ≡ true) x ys e q, insert-Ascending x ys (ground arith) h)
  | inr e ↦
      let lt : text_lt x y ≡ true = text_lt_or y x e (ground (arith, same_comm x y)) in
      rw e ((lt, All-mono (λ z p. text_lt_trans x y z lt p) ys q), (q, h))
]

mem-insert :
    (t x : Text) (ys : List Text) → mem_text t (insert_text x ys) ≡ (same t x || mem_text t ys)
unfolding insert_text mem_text
mem-insert t x [] = refl
mem-insert t x (y ∷ ys) = ground (arith, mem-insert t x ys)

-- Sorting keeps the members.
pub mem-sort : (t : Text) (xs : List Text) → mem_text t (sort_texts xs) ≡ mem_text t xs
unfolding sort_texts mem_text
mem-sort t [] = refl
mem-sort t (x ∷ xs) = mem-insert t x (sort_texts xs) ∙ ap (λ b. same t x || b) (mem-sort t xs)

-- A list without repeats is sorted strictly.
pub sort-Ascending : (xs : List Text) → Distinct xs → Ascending (sort_texts xs)
unfolding sort_texts
sort-Ascending [] h = tt
sort-Ascending (x ∷ xs) (n, h) =
    insert-Ascending x (sort_texts xs) (mem-sort x xs ∙ n) (sort-Ascending xs h)

-- What none of a list is, is not among the list.
pub not_among :
    (n : Text) (seen ns : List Text)
    → All (λ m. mem_text m (n ∷ seen) ≡ false) ns
    → mem_text n ns ≡ false
unfolding mem_text
not_among n seen [] h = refl
not_among n seen (m ∷ ns) (p, h) = ground (arith, same_comm n m, not_among n seen ns h)
