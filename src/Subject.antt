-- ===== src/Subject.antt =====
-- Distinguished names: `ParseName` of pkg/certtool/certtool.go.
pub mod Print
pub mod Marks
pub mod RoundTrip
use certtool.Base.{
  ℕ, Bool, true, false, ◌&&◌, ◌==◌, if◌then◌else◌, Option, none, some, List, [], ◌∷◌, ◌++◌, Outcome,
  ok, err, ◌>>=◌, ◌≡◌, refl,
}
use certtool.Base.Text.{Text, codes, same, to_upper, split}
use certtool.Failure.{Failure, attribute_parts, unknown_attribute}
use certtool.Cert.{Name}

-- U+2318, which stands for a delimiter that was escaped
abbrev pub replacement : Text → Text
replacement s = 0xe2 ∷ 0x8c ∷ 0x98 ∷ s

-- strings.ReplaceAll of a backslash and the delimiter
unfoldable pub protect : Text → Text
protect [] = []
protect (c ∷ []) = c ∷ []
protect (c ∷ d ∷ s) = elim (c == b'\\' && d == b'/') [
  | true ↦ replacement (protect s)
  | false ↦ c ∷ protect (d ∷ s)
]

-- and back, to the delimiter alone
unfoldable pub restore : Text → Text
restore [] = []
restore (a ∷ []) = a ∷ []
restore (a ∷ b ∷ []) = a ∷ b ∷ []
restore (a ∷ b ∷ c ∷ s) = elim (a == 0xe2 && (b == 0x8c && c == 0x98)) [
  | true ↦ b'/' ∷ restore s
  | false ↦ a ∷ restore (b ∷ c ∷ s)
]

-- the switch on the type of an attribute, in upper case
unfoldable pub add_attribute : Text → Text → Name → Option Name
unfolding same
add_attribute kind value name =
    if same kind (codes "CN")
    then some (record name { common_name = value })
    else if same kind (codes "OU")
    then some (record name { organizational_unit = name.organizational_unit ++ value ∷ [] })
    else if same kind (codes "O")
    then some (record name { organization = name.organization ++ value ∷ [] })
    else if same kind (codes "L")
    then some (record name { locality = name.locality ++ value ∷ [] })
    else if same kind (codes "ST")
    then some (record name { province = name.province ++ value ∷ [] })
    else if same kind (codes "C")
    then some (record name { country = name.country ++ value ∷ [] })
    else if same kind (codes "STREET")
    then some (record name { street_address = name.street_address ++ value ∷ [] })
    else if same kind (codes "POSTALCODE")
    then some (record name { postal_code = name.postal_code ++ value ∷ [] })
    else none

abbrev pub known_attribute : Text → Option Name → Outcome Failure Name
known_attribute kind none = err (unknown_attribute kind)
known_attribute kind (some name) = ok name

-- what a part does to the name; a part without an equals sign is skipped
unfoldable pub parse_part : List Text → Name → Outcome Failure Name
unfolding add_attribute to_upper restore
parse_part [] name = ok name
parse_part (kind ∷ []) name = ok name
parse_part (kind ∷ value ∷ []) name =
    known_attribute kind (add_attribute (to_upper kind) (restore value) name)
parse_part (kind ∷ value ∷ other ∷ vals) name = err (attribute_parts kind)

unfoldable pub parse_parts : List Text → Name → Outcome Failure Name
unfolding parse_part split
parse_parts [] name = ok name
parse_parts (part ∷ parts) name =
    parse_part (split b'=' part) name >>= λ next. parse_parts parts next

abbrev pub empty_name : Name
empty_name = record {
  country = [];
  organization = [];
  organizational_unit = [];
  locality = [];
  province = [];
  street_address = [];
  postal_code = [];
  serial_number = [];
  common_name = [];
}

unfoldable pub parse_name : Text → Outcome Failure Name
unfolding parse_parts split protect
parse_name subject = parse_parts (split b'/' (protect subject)) empty_name

parse_name_forms :
    (parse_name (codes "/C=US/O=A\\/B/cn=x")
      ≡ ok (record empty_name {
        country = codes "US" ∷ [];
        organization = codes "A/B" ∷ [];
        common_name = codes "x";
      }))
    × (parse_name (codes "CN=a=b") ≡ err (attribute_parts (codes "CN")))
    × (parse_name (codes "X=a") ≡ err (unknown_attribute (codes "X")))
unfolding parse_name
parse_name_forms = (refl, refl, refl)
