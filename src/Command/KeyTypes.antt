-- ===== src/Command/KeyTypes.antt =====
-- The key types of the command line: `stringToKeyType`, `parseKeyTypeKeyName`, `parseKeyTypeName`
-- and `keyTypeNames` of internal/certtool/certtool.go.
pub mod Offered
use certtool.Base.{
  ℕ, ◌≡◌, refl, ap, sym, ◌∙◌, subst, ℤ, pos, eq_ℤ, Bool, true, false, ◌==◌, ◌||◌, if◌then◌else◌,
  Option, none, some, List, [], ◌∷◌, ◌++◌, map, is_empty, Outcome, ok, err, is_ok, Bool-cases, inl,
  inr, arith, ◌⊎◌,
}
use certtool.Base.Text.{Text, codes, same, to_upper, split, join, same→eq}
use certtool.Base.Decimal.{itoa}
use certtool.Profile.{KeyType, rsa_algorithm, ecdsa_algorithm}
use certtool.Issue.Args.{default_key_type}
use certtool.Issue.Keys.{generate_private_key_from_type}
use certtool.Command.{
  FlagError, not_a_key_type, bad_key_type_form, no_key_type_name, needs_length, bad_key_length,
  unknown_key_length, atoi,
}

abbrev pub key_name : List Text → Text
key_name [] = rsa_algorithm
key_name (name ∷ parts) = name

unfoldable pub parse_key_type_key_name : Text → Text
unfolding split to_upper
parse_key_type_key_name key_type_name = key_name (split b'-' (to_upper key_type_name))

or_between : List Text → Text
unfolding join
or_between [] = []
or_between (name ∷ []) = codes ", or " ++ name
or_between (name ∷ next ∷ names) = codes ", " ++ (name ++ or_between (next ∷ names))

list_names : List Text → Text
unfolding or_between
list_names [] = []
list_names (name ∷ []) = name
list_names (name ∷ next ∷ names) = name ++ or_between (next ∷ names)

unfoldable pub key_type_names : Text → List ℕ → Text
unfolding list_names itoa
key_type_names algorithm lengths =
    list_names (map (λ length. algorithm ++ (codes "-" ++ itoa length)) lengths)

-- slices.Contains
unfoldable pub contains : List ℕ → ℤ → Bool
contains [] length = false
contains (v ∷ valid) length = eq_ℤ (pos v) length || contains valid length

-- the type without a length; 0 is no default
unfoldable pub default_length : Text → Text → ℕ → List ℕ → Outcome FlagError KeyType
unfolding key_type_names
default_length name algorithm length valid =
    if length == 0
    then err (needs_length name (key_type_names algorithm valid))
    else ok (record { algorithm = algorithm; key_length = pos length })

unfoldable pub read_length : Text → Text → List ℕ → Option ℤ → Outcome FlagError KeyType
unfolding key_type_names contains
read_length name algorithm valid none = err (bad_key_length name algorithm)
read_length name algorithm valid (some length) =
    if contains valid length
    then ok (record { algorithm = algorithm; key_length = length })
    else err (unknown_key_length name (key_type_names algorithm valid))

unfoldable pub key_type_of_parts : Text → ℕ → List ℕ → List Text → Outcome FlagError KeyType
unfolding default_length read_length atoi
key_type_of_parts name length valid [] = err no_key_type_name
key_type_of_parts name length valid (algorithm ∷ []) = default_length name algorithm length valid
key_type_of_parts name length valid (algorithm ∷ part ∷ []) =
    if is_empty part
    then default_length name algorithm length valid
    else read_length name algorithm valid (atoi part)
key_type_of_parts name length valid (algorithm ∷ part ∷ other ∷ parts) =
    err (bad_key_type_form name)

unfoldable pub parse_key_type_name : Text → ℕ → List ℕ → Outcome FlagError KeyType
unfolding key_type_of_parts split to_upper
parse_key_type_name key_type_name default_length valid_values =
    key_type_of_parts key_type_name default_length valid_values
      (split b'-' (to_upper key_type_name))

unfoldable pub string_to_key_type : Text → Outcome FlagError KeyType
unfolding parse_key_type_key_name parse_key_type_name same
string_to_key_type key_type =
    if is_empty key_type
    then ok default_key_type
    else if same (parse_key_type_key_name key_type) rsa_algorithm
    then parse_key_type_name key_type 2048 (2048 ∷ 4096 ∷ [])
    else if same (parse_key_type_key_name key_type) ecdsa_algorithm
    then parse_key_type_name key_type 0 (256 ∷ 384 ∷ 521 ∷ [])
    else err (not_a_key_type key_type)

key_type_names_forms :
    (key_type_names ecdsa_algorithm (256 ∷ 384 ∷ 521 ∷ [])
      ≡ codes "ECDSA-256, ECDSA-384, or ECDSA-521")
    × (key_type_names rsa_algorithm (2048 ∷ 4096 ∷ []) ≡ codes "RSA-2048, or RSA-4096")
unfolding key_type_names
key_type_names_forms = (refl, refl)

string_to_key_type_forms :
    (string_to_key_type (codes "ecdsa-384")
      ≡ ok (record { algorithm = ecdsa_algorithm; key_length = pos 384 }))
    × (string_to_key_type (codes "rsa-") ≡ ok default_key_type)
    × (string_to_key_type (codes "RSA-1-2") ≡ err (bad_key_type_form (codes "RSA-1-2")))
unfolding string_to_key_type
string_to_key_type_forms = (refl, refl, refl)
