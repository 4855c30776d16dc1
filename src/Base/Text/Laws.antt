-- ===== src/Base/Text/Laws.antt =====
-- Laws of the functions on texts.
use Prim.Native.Nat.{ℕ}
use mathlib.Core.Path.{◌≡◌, refl, sym, ap, ap₂, ◌∙◌}
use mathlib.Core.Logic.{◌↔◌, inl, inr}
use mathlib.Core.Bool.{true}
use mathlib.Core.List.{List, [], ◌∷◌, ◌++◌, map-append}
use native.Mathlib.Omega.{arith}
use certtool.Base.Tests.{◌==◌, or_true, and_true, ==→eq}
use certtool.Base.Lists.{Any}
use certtool.Base.Text.Ops.{Text, same, has_suffix, to_lower, lower_byte, mem_text}

pub same_refl : (s : Text) → same s s ≡ true
unfolding same
same_refl [] = refl
same_refl (c ∷ s) = ground (arith, same_refl s)

pub same→eq : (s t : Text) → same s t ≡ true → s ≡ t
unfolding same
same→eq [] [] h = refl
same→eq [] (b ∷ t) h = cc
same→eq (a ∷ s) [] h = cc
same→eq (a ∷ s) (b ∷ t) h =
    let (p, q) = and_true (a == b) (same s t) h in ap₂ ◌∷◌ (==→eq a b p) (same→eq s t q)

-- Texts are equal exactly when the test says so.
pub same_iff : (s t : Text) → (same s t ≡ true) ↔ (s ≡ t)
same_iff s t = (same→eq s t, λ e. ap (same s) (sym e) ∙ same_refl s)

pub has_suffix→append : (s x : Text) → has_suffix s x ≡ true → (p : Text) × (s ≡ p ++ x)
unfolding has_suffix
has_suffix→append [] x h = ([], same→eq [] x h)
has_suffix→append (c ∷ s) x h = elim (or_true (same (c ∷ s) x) (has_suffix s x) h) [
  | inl e ↦ ([], same→eq (c ∷ s) x e)
  | inr r ↦ let (p, e) = has_suffix→append s x r in (c ∷ p, ap (λ t. c ∷ t) e)
]

pub has_suffix-append : (p x : Text) → has_suffix (p ++ x) x ≡ true
unfolding has_suffix
has_suffix-append [] [] = refl
has_suffix-append [] (c ∷ x) = ground (arith, same_refl (c ∷ x))
has_suffix-append (c ∷ p) x = ground (arith, has_suffix-append p x)

lower_byte_idem : (c : ℕ) → lower_byte (lower_byte c) ≡ lower_byte c
unfolding lower_byte
lower_byte_idem c = ground arith

pub to_lower_idem : (s : Text) → to_lower (to_lower s) ≡ to_lower s
unfolding to_lower
to_lower_idem [] = refl
to_lower_idem (c ∷ s) = ap₂ ◌∷◌ (lower_byte_idem c) (to_lower_idem s)

pub to_lower-append : (s t : Text) → to_lower (s ++ t) ≡ to_lower s ++ to_lower t
unfolding to_lower
to_lower-append s t = map-append lower_byte s t

pub mem_text→Any : (t : Text) (ss : List Text) → mem_text t ss ≡ true → Any (λ s. t ≡ s) ss
unfolding mem_text
mem_text→Any t [] h = cc
mem_text→Any t (s ∷ ss) h = elim (or_true (same t s) (mem_text t ss) h) [
  | inl e ↦ inl (same→eq t s e)
  | inr r ↦ inr (mem_text→Any t ss r)
]

pub Any→mem_text : (t : Text) (ss : List Text) → Any (λ s. t ≡ s) ss → mem_text t ss ≡ true
unfolding mem_text
Any→mem_text t [] h = elim h [ ]
Any→mem_text t (s ∷ ss) (inl e) = ground (arith, same_iff t s)
Any→mem_text t (s ∷ ss) (inr h) = ground (arith, Any→mem_text t ss h)
