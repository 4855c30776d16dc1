-- ===== src/Base/Fallible.antt =====
-- What a function that may fail returns: a value, or the error.
use mathlib.Core.Path.{◌≡◌, refl}
use mathlib.Core.Bool.{Bool, true, false}

pub data Outcome {ℓ κ} (E : Type ℓ) (A : Type κ) : Type (ℓ ⊔ κ) where
  ok : A → Outcome E A
  err : E → Outcome E A

infixl 5 ◌>>=◌ ◌>>◌
-- `if err != nil { return err }` behind a call
abbrev pub ◌>>=◌ {ℓ κ μ} :
    {E : Type ℓ} {A : Type κ} {B : Type μ} → Outcome E A → (A → Outcome E B) → Outcome E B
err e >>= later = err e
ok a >>= later = later a

abbrev pub ◌>>◌ {ℓ κ μ} :
    {E : Type ℓ} {A : Type κ} {B : Type μ} → Outcome E A → Outcome E B → Outcome E B
first >> second = first >>= λ ignored. second

-- `if bad { return err }`
abbrev pub refuse {ℓ} : {E : Type ℓ} → Bool → E → Outcome E (Unit {0})
refuse true e = err e
refuse false e = ok tt

abbrev pub map_err {ℓ κ μ} :
    {E : Type ℓ} {F : Type κ} {A : Type μ} → (E → F) → Outcome E A → Outcome F A
map_err f (ok a) = ok a
map_err f (err e) = err (f e)

abbrev pub is_ok {ℓ κ} : {E : Type ℓ} {A : Type κ} → Outcome E A → Bool
is_ok (ok _) = true
is_ok (err _) = false

module _ {ℓ} {E : Type ℓ} where
  pub refuse-eq-ok : (b : Bool) (e : E) {u : Unit {0}} → refuse b e ≡ ok u → b ≡ false
  refuse-eq-ok true e h = cc
  refuse-eq-ok false e h = refl

-- If two steps succeed, the first does, and the second from what the first returned.
module _ {ℓ κ μ} {E : Type ℓ} {A : Type κ} {B : Type μ} where
  pub >>=-eq-ok :
      (first : Outcome E A) (later : A → Outcome E B) {result : B}
      → (first >>= later) ≡ ok result
      → (a : A) × (first ≡ ok a) × (later a ≡ ok result)
  >>=-eq-ok (err e) later both = cc
  >>=-eq-ok (ok a) later both = (a, refl, both)

module _ {ℓ κ μ} {E : Type ℓ} {F : Type κ} {A : Type μ} where
  pub map_err-eq-ok : (f : E → F) (r : Outcome E A) {a : A} → map_err f r ≡ ok a → r ≡ ok a
  map_err-eq-ok f (ok b) h = cc
  map_err-eq-ok f (err e) h = cc

pub >>=-fails {ℓ κ μ} :
    {E : Type ℓ} {A : Type κ} {B : Type μ} (r : Outcome E A) (later : A → Outcome E B)
    → ((a : A) → (e : E) × (later a ≡ err e))
    → (e : E) × ((r >>= later) ≡ err e)
>>=-fails (err e) later fails = (e, refl)
>>=-fails (ok a) later fails = fails a

pub ok-injective {ℓ κ} :
    {E : Type ℓ} {A : Type κ} (a b : A) → Path (Outcome E A) (ok a) (ok b) → a ≡ b
ok-injective a b h = cc
