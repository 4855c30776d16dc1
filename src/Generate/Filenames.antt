-- ===== src/Generate/Filenames.antt =====
-- The base names that a tree's files were given: the maps that `generateSpec` of
-- pkg/certtool/spec.go and `checkScenarioFilenames` of pkg/certtool/scenario.go fill.
use certtool.Base.{
  ◌≡◌, refl, Bool, false, ◌||◌, none, is_some, List, [], ◌∷◌, ◌++◌, All, All-mono, All-append,
  arith,
}
use certtool.Base.Text.{Text, mem_text, Distinct, not_among, same_comm}
use certtool.Profile.{lookup_text}

-- the map from base names to common names
abbrev pub Filenames : Type 0
Filenames = List (Text × Text)

abbrev pub taken : Filenames → Text → Bool
taken names b = is_some (lookup_text b names)

-- From one map of names to another, these base names were added, none of which was there.
pub record Grows (names : Filenames) (bases : List Text) (names' : Filenames) : Type 0 where
  pub distinct : Distinct bases
  pub fresh : All (λ b. taken names b ≡ false) bases
  pub known_after : (b : Text) → taken names' b ≡ (mem_text b bases || taken names b)

mem-append :
    (t : Text) (xs ys : List Text) → mem_text t (xs ++ ys) ≡ (mem_text t xs || mem_text t ys)
unfolding mem_text
mem-append t [] ys = refl
mem-append t (x ∷ xs) ys = ground (arith, mem-append t xs ys)

Distinct-append :
    (xs ys : List Text)
    → Distinct xs
    → Distinct ys
    → All (λ y. mem_text y xs ≡ false) ys
    → Distinct (xs ++ ys)
unfolding mem_text
Distinct-append [] ys dx dy apart = dy
Distinct-append (x ∷ xs) ys (n, dx) dy apart = (
  ground (arith, mem-append x xs ys, not_among x xs ys apart),
  Distinct-append xs ys dx dy (All-mono (λ y h. ground arith) ys apart),
)

-- What comes after is apart from what came before.
pub Grows-trans :
    (n0 n1 n2 : Filenames) (xs ys : List Text)
    → Grows n0 xs n1
    → Grows n1 ys n2
    → Grows n0 (xs ++ ys) n2
Grows-trans n0 n1 n2 xs ys g h = record {
  distinct =
      Distinct-append xs ys g.distinct h.distinct
        (All-mono (λ y e. ground (arith, g.known_after y)) ys h.fresh);
  fresh =
      All-append (λ b. taken n0 b ≡ false) xs ys g.fresh
        (All-mono (λ y e. ground (arith, g.known_after y)) ys h.fresh);
  known_after = λ b. ground (arith, g.known_after b, h.known_after b, mem-append b xs ys);
}

pub Grows-fresh :
    (names : Filenames) (b cn : Text)
    → lookup_text b names ≡ none
    → Grows names (b ∷ []) ((b, cn) ∷ names)
unfolding lookup_text mem_text
Grows-fresh names b cn h = record {
  distinct = (refl, tt);
  fresh = (ground arith, tt);
  known_after = λ c. ground (arith, same_comm b c);
}

pub Grows-none : (names : Filenames) → Grows names [] names
unfolding mem_text
Grows-none names = record { distinct = tt; fresh = tt; known_after = λ b. refl }
