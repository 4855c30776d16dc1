-- ===== src/Base/Decimal.antt =====
-- strconv.Itoa on numbers that are not negative, and reading decimal digits.
use certtool.Base.{
  ℕ, zero, suc, ◌+◌, ◌-◌, ◌*◌, ◌/◌, ◌%◌, ◌≡◌, refl, ◌&&◌, ltb, leb, if◌then◌else◌, Option, none,
  some, [], ◌∷◌,
}
use certtool.Base.Text.{Text, codes}

-- The fuel is more than the number of digits.
write_digits : ℕ → ℕ → Text → Text
write_digits zero n out = out
write_digits (suc f) n out =
    let more = write_digits f (n / 10) ((b'0' + n % 10) ∷ out) in
    if ltb n 10 then (b'0' + n) ∷ out else more

unfoldable pub itoa : ℕ → Text
unfolding write_digits
itoa n = write_digits (suc n) n []

read_digits : ℕ → Text → Option ℕ
read_digits n [] = some n
read_digits n (c ∷ s) =
    let rest = read_digits (n * 10 + (c - b'0')) s in
    if leb b'0' c && leb c b'9' then rest else none

-- The number that decimal digits spell; nothing where there is no digit or another byte.
unfoldable pub read_decimal : Text → Option ℕ
unfolding read_digits
read_decimal [] = none
read_decimal (c ∷ s) = read_digits 0 (c ∷ s)

itoa_forms : (itoa 0 ≡ codes "0") × (itoa 1205 ≡ codes "1205")
unfolding itoa
itoa_forms = (refl, refl)
