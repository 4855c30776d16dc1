-- ===== src/Yubikey/Policy.antt =====
-- Slots, algorithms, touch policies and firmware: pkg/yubikey/yubikey.go, and `pivSlot`,
-- `pivAlgorithm`, `pivTouchPolicy`, `checkFirmware` and `versionAtLeast` of
-- pkg/yubikey/yubikey_piv.go.
use certtool.Base.{
  ℕ, ◌+◌, ◌-◌, ◌*◌, ◌≡◌, pos, eq_ℤ, Bool, true, false, ◌&&◌, ◌||◌, not, leb, ltb, ◌==◌,
  if◌then◌else◌, Option, none, some, [], ◌∷◌, Outcome, ok, err, ◌>>=◌, refuse, arith,
}
use certtool.Base.Text.{Text, codes, same, to_lower, to_upper, trim_space}
use certtool.Failure.{Failure, bad_touch_policy, bad_slot, unsupported_key_type, old_firmware}
use certtool.Profile.{KeyType, rsa_algorithm, ecdsa_algorithm}

pub data TouchPolicy : Type 0 where
  never always cached : TouchPolicy

unfoldable pub parse_touch_policy : Text → Outcome Failure TouchPolicy
unfolding same to_lower trim_space
parse_touch_policy s =
    let p = to_lower (trim_space s) in
    if same p (codes "never")
    then ok never
    else if same p (codes "always")
    then ok always
    else if same p (codes "cached")
    then ok cached
    else err (bad_touch_policy s)

hex_digit : ℕ → Option ℕ
hex_digit c =
    if leb b'0' c && leb c b'9'
    then some (c - b'0')
    else if leb b'a' c && leb c b'f'
    then some (c - b'a' + 10)
    else none

abbrev hex_more : (ℕ → Option ℕ) → ℕ → Option ℕ → Option ℕ
hex_more rest n none = none
hex_more rest n (some d) = rest (n * 16 + d)

read_hex : Text → ℕ → Option ℕ
unfolding hex_digit
read_hex [] n = some n
read_hex (c ∷ s) n = hex_more (read_hex s) n (hex_digit c)

-- strconv.ParseUint(s, 16, 8), of a text in lower case
parse_hex_byte : Text → Option ℕ
unfolding read_hex
parse_hex_byte [] = none
parse_hex_byte (c ∷ s) = elim (read_hex (c ∷ s) 0) [
  | none ↦ none
  | some n ↦ if ltb n 256 then some n else none
]

trim_0x : Text → Text
trim_0x (a ∷ b ∷ s) = if a == b'0' && b == b'x' then s else a ∷ b ∷ s
trim_0x s = s

abbrev default_slot : Text → Text
default_slot [] = codes "9c"
default_slot (c ∷ s) = c ∷ s

abbrev known_slot : Text → Option ℕ → Outcome Failure ℕ
known_slot s none = err (bad_slot s)
known_slot s (some n) = ok n

unfoldable pub parse_slot_key : Text → Outcome Failure ℕ
unfolding parse_hex_byte trim_0x to_lower trim_space
parse_slot_key s =
    let s = default_slot s in known_slot s (parse_hex_byte (trim_0x (to_lower (trim_space s))))

-- 9a, 9c, 9d, 9e, and the retired slots 82 through 95
unfoldable pub is_piv_slot : ℕ → Bool
is_piv_slot key =
    key == 0x9a || (key == 0x9c || (key == 0x9d || (key == 0x9e || (leb 0x82 key && leb key 0x95))))

unfoldable pub piv_slot : Text → Outcome Failure ℕ
unfolding parse_slot_key is_piv_slot
piv_slot s = do key ← parse_slot_key s; if is_piv_slot key then ok key else err (bad_slot s)

pub data Algorithm : Type 0 where
  ec256 ec384 rsa2048 rsa4096 : Algorithm

-- the text is the algorithm and the length, so no negative length is among them
unfoldable pub piv_algorithm : KeyType → Outcome Failure Algorithm
unfolding same to_upper
piv_algorithm k =
    let name = to_upper k.algorithm in
    if same name ecdsa_algorithm && eq_ℤ k.key_length (pos 256)
    then ok ec256
    else if same name ecdsa_algorithm && eq_ℤ k.key_length (pos 384)
    then ok ec384
    else if same name rsa_algorithm && eq_ℤ k.key_length (pos 2048)
    then ok rsa2048
    else if same name rsa_algorithm && eq_ℤ k.key_length (pos 4096)
    then ok rsa4096
    else err unsupported_key_type

pub record Version : Type 0 where
  pub major : ℕ
  pub minor : ℕ

unfoldable pub version_at_least : Version → ℕ → ℕ → Bool
version_at_least v major minor = ltb major v.major || (v.major == major && leb minor v.minor)

unfoldable pub touches : TouchPolicy → Bool
touches never = false
touches _ = true

-- piv.AlgorithmRSA3072 is not among what pivAlgorithm returns
unfoldable pub check_firmware : Version → Algorithm → TouchPolicy → Outcome Failure (Unit {0})
unfolding version_at_least touches
check_firmware v rsa4096 touch =
    if not (version_at_least v 5 7)
    then err old_firmware
    else refuse (touches touch && not (version_at_least v 4 0)) old_firmware
check_firmware v ec384 touch =
    if not (version_at_least v 4 0)
    then err old_firmware
    else refuse (touches touch && not (version_at_least v 4 0)) old_firmware
check_firmware v _ touch = refuse (touches touch && not (version_at_least v 4 0)) old_firmware

-- Newer firmware than one that is new enough is new enough: `checkFirmware` refuses no version above
-- one that it accepts.
check_firmware_mono :
    (v w : Version) (algorithm : Algorithm) (touch : TouchPolicy)
    → version_at_least w v.major v.minor ≡ true
    → check_firmware v algorithm touch ≡ ok tt
    → check_firmware w algorithm touch ≡ ok tt
unfolding check_firmware version_at_least
check_firmware_mono v w ec256 touch n h = ground arith
check_firmware_mono v w ec384 touch n h = ground arith
check_firmware_mono v w rsa2048 touch n h = ground arith
check_firmware_mono v w rsa4096 touch n h = ground arith
