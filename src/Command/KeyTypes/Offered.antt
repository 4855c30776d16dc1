-- ===== src/Command/KeyTypes/Offered.antt =====
-- The key types that the command line accepts, and the generator of keys.
use certtool.Base.{
  ℕ, ◌≡◌, refl, ap, sym, ◌∙◌, subst, ℤ, pos, negsuc, true, ◌==◌, Option, none, some, List, [], ◌∷◌,
  is_empty, Outcome, ok, err, is_ok, Bool-cases, inl, inr, arith, ◌⊎◌,
}
use certtool.Base.Text.{Text, same, to_upper, split, same→eq}
use certtool.Profile.{KeyType, rsa_algorithm, ecdsa_algorithm}
use certtool.Issue.Args.{default_key_type}
use certtool.Issue.Keys.{KeySource, generate_rsa, generate_ecdsa, generate_private_key_from_type}
use certtool.Command.{FlagError, not_a_key_type, needs_length, unknown_key_length, atoi}
use certtool.Command.KeyTypes.{
  key_name, key_type_names, contains, default_length, read_length, key_type_of_parts,
  parse_key_type_key_name, parse_key_type_name, string_to_key_type,
}

-- a key type of one of the lengths that the algorithm offers
unfoldable pub IsOffered : KeyType → Type 0
IsOffered key_type =
    ((same key_type.algorithm rsa_algorithm ≡ true)
      × (contains (2048 ∷ 4096 ∷ []) key_type.key_length ≡ true))
    ⊎ ((same key_type.algorithm ecdsa_algorithm ≡ true)
        × (contains (256 ∷ 384 ∷ 521 ∷ []) key_type.key_length ≡ true))

abbrev accepted : KeyType → Outcome FlagError KeyType
accepted key_type = ok key_type

module _ (name : Text) (length : ℕ) (valid : List ℕ)
    (offered : length ≡ 0 ⊎ contains valid (pos length) ≡ true) where
  fits :
      (algorithm : Text) (n : ℤ) (key_type : KeyType)
      → accepted (record { algorithm = algorithm; key_length = n }) ≡ ok key_type
      → contains valid n ≡ true
      → (key_type.algorithm ≡ algorithm) × (contains valid key_type.key_length ≡ true)
  fits algorithm n key_type h p =
      let same_type : record { algorithm = algorithm; key_length = n } ≡ key_type = cc in
      subst (λ k. (k.algorithm ≡ algorithm) × (contains valid k.key_length ≡ true)) same_type
        (refl, p)

  default-offered :
      (algorithm : Text) (key_type : KeyType)
      → default_length name algorithm length valid ≡ ok key_type
      → (key_type.algorithm ≡ algorithm) × (contains valid key_type.key_length ≡ true)
  unfolding default_length
  default-offered algorithm key_type h = elim (Bool-cases (length == 0)) [
    | inl e ↦ elim (fails (rw e at h)) [ ]
    | inr e ↦
        fits algorithm (pos length) key_type (rw e at h)
          (elim offered [ inl none_given ↦ ground arith | inr p ↦ p ])
  ]
    where
      fails : err (needs_length name (key_type_names algorithm valid)) ≡ ok key_type → ⊥
      fails k = cc

  read-offered :
      (algorithm : Text) (read : Option ℤ) (key_type : KeyType)
      → read_length name algorithm valid read ≡ ok key_type
      → (key_type.algorithm ≡ algorithm) × (contains valid key_type.key_length ≡ true)
  unfolding read_length
  read-offered algorithm none key_type h = cc
  read-offered algorithm (some n) key_type h = elim (Bool-cases (contains valid n)) [
    | inl e ↦ fits algorithm n key_type (rw e at h) e
    | inr e ↦ elim (fails (rw e at h)) [ ]
  ]
    where
      fails : err (unknown_key_length name (key_type_names algorithm valid)) ≡ ok key_type → ⊥
      fails k = cc

  parts-offered :
      (parts : List Text) (key_type : KeyType)
      → key_type_of_parts name length valid parts ≡ ok key_type
      → (key_type.algorithm ≡ key_name parts) × (contains valid key_type.key_length ≡ true)
  unfolding key_type_of_parts
  parts-offered [] key_type h = cc
  parts-offered (algorithm ∷ []) key_type h = default-offered algorithm key_type h
  parts-offered (algorithm ∷ part ∷ []) key_type h = elim (Bool-cases (is_empty part)) [
    | inl e ↦ default-offered algorithm key_type (rw e at h)
    | inr e ↦ read-offered algorithm (atoi part) key_type (rw e at h)
  ]
  parts-offered (algorithm ∷ part ∷ other ∷ parts) key_type h = cc

string_to_key_type-IsOffered :
    (name : Text) (key_type : KeyType) → string_to_key_type name ≡ ok key_type → IsOffered key_type
unfolding string_to_key_type parse_key_type_key_name parse_key_type_name IsOffered
string_to_key_type-IsOffered name key_type h = elim (Bool-cases (is_empty name)) [
  | inl e ↦
      let same_type : default_key_type ≡ key_type = given (rw e at h) in
      subst IsOffered same_type (inl (refl, refl))
  | inr e ↦ elim (Bool-cases (same (parse_key_type_key_name name) rsa_algorithm)) [
    | inl f ↦
        let (p, q) =
          parts-offered name 2048 (2048 ∷ 4096 ∷ []) (inr refl) (split b'-' (to_upper name))
            key_type (rw f at (rw e at h)) in
        inl (ap (λ a. same a rsa_algorithm) p ∙ f, q)
    | inr f ↦ elim (Bool-cases (same (parse_key_type_key_name name) ecdsa_algorithm)) [
      | inl g ↦
          let (p, q) =
            parts-offered name 0 (256 ∷ 384 ∷ 521 ∷ []) (inl refl) (split b'-' (to_upper name))
              key_type (rw g at (rw f at (rw e at h))) in
          inr (ap (λ a. same a ecdsa_algorithm) p ∙ g, q)
      | inr g ↦ elim (fails (rw g at (rw f at (rw e at h)))) [ ]
    ]
  ]
]
  where
    given : accepted default_key_type ≡ ok key_type → default_key_type ≡ key_type
    given k = cc

    fails : err (not_a_key_type name) ≡ ok key_type → ⊥
    fails k = cc

-- a source of keys that does not fail
abbrev pub working : (rsa_key ecdsa_key : ℕ → ℕ) → KeySource
working rsa_key ecdsa_key = record {
  rsa_key = λ size. ok (rsa_key size);
  ecdsa_key = λ size. ok (ecdsa_key size);
}

module _ (rsa_key ecdsa_key : ℕ → ℕ) where
  generate_rsa-works :
      (n : ℤ)
      → contains (2048 ∷ 4096 ∷ []) n ≡ true
      → is_ok (generate_rsa (working rsa_key ecdsa_key) n) ≡ true
  unfolding generate_rsa contains
  generate_rsa-works (pos n) h = ground arith
  generate_rsa-works (negsuc n) h = ground arith

  generate_ecdsa-works :
      (n : ℤ)
      → contains (256 ∷ 384 ∷ 521 ∷ []) n ≡ true
      → is_ok (generate_ecdsa (working rsa_key ecdsa_key) n) ≡ true
  unfolding generate_ecdsa contains
  generate_ecdsa-works (pos n) h = ground arith
  generate_ecdsa-works (negsuc n) h = ground arith

  generates :
      (key_type : KeyType)
      → IsOffered key_type
      → is_ok (generate_private_key_from_type (working rsa_key ecdsa_key) key_type) ≡ true
  unfolding IsOffered generate_private_key_from_type
  generates key_type (inl (p, q)) =
      let e = same→eq key_type.algorithm rsa_algorithm p in
      subst
        (λ a.
          is_ok (
            generate_private_key_from_type (working rsa_key ecdsa_key)
              (record { algorithm = a; key_length = key_type.key_length }))
          ≡ true)
        (sym e) (generate_rsa-works key_type.key_length q)
  generates key_type (inr (p, q)) =
      let e = same→eq key_type.algorithm ecdsa_algorithm p in
      subst
        (λ a.
          is_ok (
            generate_private_key_from_type (working rsa_key ecdsa_key)
              (record { algorithm = a; key_length = key_type.key_length }))
          ≡ true)
        (sym e) (generate_ecdsa-works key_type.key_length q)

  -- Each key type that `stringToKeyType` accepts is RSA with 2048 or 4096 bits or ECDSA with 256,
  -- 384 or 521, and `generatePrivateKeyFromType` makes a key of it, where rsa.GenerateKey and
  -- ecdsa.GenerateKey do not fail.
  pub string_to_key_type-generates :
      (name : Text) (key_type : KeyType)
      → string_to_key_type name ≡ ok key_type
      → IsOffered key_type
        × (is_ok (generate_private_key_from_type (working rsa_key ecdsa_key) key_type) ≡ true)
  string_to_key_type-generates name key_type h =
      let p = string_to_key_type-IsOffered name key_type h in (p, generates key_type p)
