-- ===== src/Host/Dns.antt =====
-- `validateDNSLabel` and `validateDNSName` of pkg/certtool/certtool.go.
pub mod Label
pub mod Name
use mathlib.Core.List.{reverse}
use certtool.Base.{
  ℕ, suc, ◌≤◌, ◌≢◌, ◌≡◌, Bool, true, false, ◌&&◌, ◌||◌, not, ◌==◌, ltb, leb, if◌then◌else◌, List,
  [], ◌∷◌, length, is_empty, Outcome, ok, err, ◌>>=◌, ◌>>◌, refuse, All, arith, refl, ◌↔◌,
}
use certtool.Base.Text.{Text, codes, contains_byte, trim_suffix, split, same}
use certtool.Failure.{
  Failure, name_empty, name_too_long, wildcard_too_short, label_empty, label_too_long,
  label_wildcard, label_hyphen, label_character,
}

abbrev pub max_dns_name_length : ℕ
max_dns_name_length = 253

abbrev pub max_dns_label_length : ℕ
max_dns_label_length = 63

-- `ok` in the loop of validateDNSLabel
unfoldable pub label_byte : ℕ → Bool
label_byte r =
    leb b'a' r && leb r b'z'
    || leb b'A' r && leb r b'Z'
    || leb b'0' r && leb r b'9'
    || r == b'-'
    || r == b'_'

unfoldable pub check_bytes : Text → Outcome Failure (Unit {0})
unfolding label_byte
check_bytes [] = ok tt
check_bytes (r ∷ s) =
    let rest = check_bytes s in if label_byte r then rest else err (label_character r)

-- label[0] == '-'
starts_hyphen : Text → Bool
starts_hyphen [] = false
starts_hyphen (c ∷ s) = c == b'-'

-- label[len(label)-1] == '-'
ends_hyphen : Text → Bool
ends_hyphen [] = false
ends_hyphen (c ∷ []) = c == b'-'
ends_hyphen (c ∷ d ∷ s) = ends_hyphen (d ∷ s)

unfoldable pub validate_dns_label : Text → Outcome Failure (Unit {0})
unfolding check_bytes starts_hyphen ends_hyphen contains_byte
validate_dns_label label =
    if is_empty label
    then err label_empty
    else if ltb max_dns_label_length (length label)
    then err label_too_long
    else if contains_byte b'*' label
    then err label_wildcard
    else if starts_hyphen label || ends_hyphen label
    then err label_hyphen
    else check_bytes label

-- the loop over the labels behind the first
unfoldable pub validate_labels : List Text → Outcome Failure (Unit {0})
unfolding validate_dns_label
validate_labels [] = ok tt
validate_labels (label ∷ labels) = validate_dns_label label >> validate_labels labels

-- the loop, which lets the first label be a wildcard
unfoldable pub first_label : List Text → Outcome Failure (Unit {0})
unfolding validate_labels same
first_label [] = ok tt
first_label (label ∷ labels) =
    if same label (b'*' ∷ [])
    then (if ltb (length (label ∷ labels)) 3
        then err wildcard_too_short
        else validate_labels labels)
    else validate_dns_label label >> validate_labels labels

unfoldable pub validate_dns_name : Text → Outcome Failure (Unit {0})
unfolding first_label
validate_dns_name name =
    let name = trim_suffix b'.' name in
    if is_empty name
    then err name_empty
    else if ltb max_dns_name_length (length name)
    then err name_too_long
    else first_label (split b'.' name)
