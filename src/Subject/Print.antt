-- ===== src/Subject/Print.antt =====
-- Distinguished names in the form that `ParseName` of pkg/certtool/certtool.go reads.
use certtool.Base.{ℕ, Bool, false, ◌==◌, if◌then◌else◌, List, [], ◌∷◌, ◌++◌, ◌≡◌}
use certtool.Base.Text.{Text, codes, Lacks}
use certtool.Cert.{Name}
use certtool.Subject.{}

-- The types of attributes that are known.
pub data Kind : Type 0 where
  cn ou o l st c street postal_code : Kind

unfoldable pub key : Kind → Text
key cn = codes "CN"
key ou = codes "OU"
key o = codes "O"
key l = codes "L"
key st = codes "ST"
key c = codes "C"
key street = codes "STREET"
key postal_code = codes "POSTALCODE"

pub record Attribute : Type 0 where
  pub kind : Kind
  pub value : Text

-- A value is written with a backslash before each delimiter.
unfoldable pub escape : Text → Text
escape [] = []
escape (x ∷ s) = if x == b'/' then b'\\' ∷ b'/' ∷ escape s else x ∷ escape s

-- /CN=…/O=…
unfoldable pub print_name : List Attribute → Text
unfolding key escape
print_name [] = []
print_name (a ∷ more) = b'/' ∷ (key a.kind ++ b'=' ∷ (escape a.value ++ print_name more))

-- what an attribute adds: a common name takes the place of the one before it
unfoldable pub put_attribute : Attribute → Name → Name
put_attribute a name = elim a.kind [
  | cn ↦ record name { common_name = a.value }
  | ou ↦ record name { organizational_unit = name.organizational_unit ++ a.value ∷ [] }
  | o ↦ record name { organization = name.organization ++ a.value ∷ [] }
  | l ↦ record name { locality = name.locality ++ a.value ∷ [] }
  | st ↦ record name { province = name.province ++ a.value ∷ [] }
  | c ↦ record name { country = name.country ++ a.value ∷ [] }
  | street ↦ record name { street_address = name.street_address ++ a.value ∷ [] }
  | postal_code ↦ record name { postal_code = name.postal_code ++ a.value ∷ [] }
]

unfoldable pub put_attributes : List Attribute → Name → Name
unfolding put_attribute
put_attributes [] name = name
put_attributes (a ∷ more) name = put_attributes more (put_attribute a name)

unfoldable pub ends_in : ℕ → Text → Bool
ends_in b [] = false
ends_in b (x ∷ []) = x == b
ends_in b (x ∷ y ∷ s) = ends_in b (y ∷ s)

-- A value that can be written: without an equals sign and the first byte of U+2318, and without a backslash
-- at its end.
unfoldable pub IsValue : Text → Type 0
unfolding ends_in
IsValue v = Lacks b'=' v × Lacks 0xe2 v × (ends_in b'\\' v ≡ false)
