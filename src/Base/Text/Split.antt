-- ===== src/Base/Text/Split.antt =====
-- Splitting a text that was put together.
use Prim.Native.Nat.{ℕ}
use mathlib.Core.Path.{◌≡◌, refl}
use mathlib.Core.Bool.{true, false}
use mathlib.Core.List.{List, [], ◌∷◌, ◌++◌}
use native.Mathlib.Omega.{arith}
use certtool.Base.Tests.{◌==◌, if◌then◌else◌}
use certtool.Base.Lists.{All}
use certtool.Base.Text.Ops.{Text, split}

abbrev pub Lacks : ℕ → Text → Type 0
Lacks b = All (λ (c : ℕ). (c == b) ≡ false)

split-some : (sep : ℕ) (s : Text) → (p : Text) × (ps : List Text) × (split sep s ≡ p ∷ ps)
unfolding split
split-some sep [] = ([], [], refl)
split-some sep (c ∷ s) =
    let (p, ps, e) = split-some sep s in
    elim (c == sep)
      as (λ b.
        (q : Text) × (qs : List Text) × ((elim (split sep s) as (λ x. List Text) [
          | [] ↦ [] ∷ []
          | p' ∷ ps' ↦ if b then [] ∷ p' ∷ ps' else (c ∷ p') ∷ ps'
        ])
          ≡ q ∷ qs)) [ true ↦ ([], p ∷ ps, rw e refl) | false ↦ (c ∷ p, ps, rw e refl) ]

pub split_at : (sep : ℕ) (rest : Text) → split sep (sep ∷ rest) ≡ [] ∷ split sep rest
unfolding split
split_at sep rest = let (p, ps, e) = split-some sep rest in rw e (ground arith)

pub split-append :
    (sep : ℕ) (s rest : Text) → Lacks sep s → split sep (s ++ sep ∷ rest) ≡ s ∷ split sep rest
unfolding split
split-append sep [] rest h = split_at sep rest
split-append sep (c ∷ s) rest (h, hs) = rw (split-append sep s rest hs, h) refl

pub split-whole : (sep : ℕ) (s : Text) → Lacks sep s → split sep s ≡ s ∷ []
unfolding split
split-whole sep [] h = refl
split-whole sep (c ∷ s) (h, hs) = rw (split-whole sep s hs, h) refl
