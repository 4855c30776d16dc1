-- ===== src/Files/Store.antt =====
-- A file system as the program uses it, and steps that read and change it.
use certtool.Base.{
  ◌≡◌, refl, subst, Bool, false, if◌then◌else◌, Option, is_some, Outcome, ok, err, arith,
}
use certtool.Base.Text.{Text, same, same_refl}
use certtool.Failure.{Failure}

-- A file's contents, and whether only its owner may read it: mode 0600, or else 0644.
pub record File : Type 0 where
  pub contents : Text
  pub is_private : Bool

-- The files by their paths.
abbrev pub Store : Type 0
Store = Text → Option File

unfoldable pub put : Text → Option File → Store → Store
unfolding same
put path file store p = if same p path then file else store p

-- os.Stat without an error
unfoldable pub file_exists : Store → Text → Bool
file_exists store path = is_some (store path)

-- A step that may fail; what it changed before it failed stays changed.
abbrev pub Step : Type 0 → Type 0
Step A = Store → Outcome Failure A × Store

module _ {A B : Type 0} where
  unfoldable pub next : Outcome Failure A × Store → (A → Step B) → Outcome Failure B × Store
  next (ok a, store) k = k a store
  next (err e, store) k = (err e, store)

  infixl 5 ◌>>=◌ ◌>>◌
  abbrev pub ◌>>=◌ : Step A → (A → Step B) → Step B
  (m >>= k) store = next (m store) k

  abbrev pub ◌>>◌ : Step A → Step B → Step B
  (m >> k) store = next (m store) (λ _. k)

module _ {A : Type 0} where
  -- a step that reads the files and changes none
  abbrev pub look : (Store → Outcome Failure A) → Step A
  look r store = (r store, store)

  -- a step that does not touch the files
  abbrev pub pure : Outcome Failure A → Step A
  pure r store = (r, store)

module _ {A B : Type 0} where
  -- If what follows a first step succeeds, so did the first step.
  pub next-eq-ok :
      (r : Outcome Failure A × Store) (k : A → Step B) {b : B} {after : Store}
      → next r k ≡ (ok b, after)
      → (a : A) × (between : Store) × (r ≡ (ok a, between)) × (k a between ≡ (ok b, after))
  unfolding next
  next-eq-ok (ok a, s) k h = (a, s, refl, h)
  next-eq-ok (err x, s) k h = cc

-- What a step's result has, if it succeeds.
pub data Post {A : Type 0} (P : A → Type 0) : Outcome Failure A × Store → Type 0 where
  done : {a : A} {s : Store} → P a → Post P (ok a, s)
  failed : {e : Failure} {s : Store} → Post P (err e, s)

module _ {A B : Type 0} where
  pub Post-next :
      (Q : A → Type 0) (P : B → Type 0) (r : Outcome Failure A × Store) (k : A → Step B)
      → Post Q r
      → ((a : A) (s : Store) → Q a → Post P (k a s))
      → Post P (next r k)
  unfolding next
  Post-next Q P _ k (done {a = a} {s = s} q) f = f a s q
  Post-next Q P _ k failed f = failed

  -- a first step of which nothing need be known
  pub Post-after :
      (P : B → Type 0) (r : Outcome Failure A × Store) (k : A → Step B)
      → ((a : A) (s : Store) → Post P (k a s))
      → Post P (next r k)
  unfolding next
  Post-after P (ok a, s) k f = f a s
  Post-after P (err e, s) k f = failed

module _ {A : Type 0} where
  pub Post-ok :
      (P : A → Type 0) (r : Outcome Failure A × Store) {a : A} {s : Store}
      → r ≡ (ok a, s)
      → Post P r
      → P a
  Post-ok P r e h = held (subst (Post P) e h)
    where
      held : {a : A} {s : Store} → Post P (ok a, s) → P a
      held (done p) = p

pub put_same : (path : Text) (file : Option File) (store : Store) → put path file store path ≡ file
unfolding put
put_same path file store = ground (arith, same_refl path)

pub put_other :
    (path p : Text) (file : Option File) (store : Store)
    → same p path ≡ false
    → put path file store p ≡ store p
unfolding put
put_other path p file store h = rw h refl
