-- ===== src/Net/Address.antt =====
-- net.ParseIP and net.IP.String: addresses are the 128-bit numbers of Go's 16-byte form, in which
-- IPv4 addresses are those of ::ffff:0:0/96.
use mathlib.Core.List.{foldl}
use certtool.Base.{
  ℕ, zero, suc, ◌+◌, ◌-◌, ◌*◌, ◌/◌, ◌%◌, ◌^◌, ◌≡◌, refl, Bool, false, ◌&&◌, ◌||◌, ◌==◌, leb, ltb,
  if◌then◌else◌, Option, none, some, is_some, List, [], ◌∷◌, ◌++◌, length, is_empty, take, drop,
  replicate,
}
use certtool.Base.Text.{Text, codes, split, contains_byte, same, has_prefix}

-- The value of a decimal octet: digits, no leading zero, at most 255.
octet_from : ℕ → Text → Option ℕ
octet_from n [] = some n
octet_from n (c ∷ s) =
    let m = n * 10 + (c - b'0') in
    let rest = octet_from m s in if leb b'0' c && leb c b'9' && leb m 255 then rest else none

octet : Text → Option ℕ
unfolding octet_from
octet [] = none
octet (c ∷ []) = octet_from 0 (c ∷ [])
octet (c ∷ d ∷ s) = if c == b'0' then none else octet_from 0 (c ∷ d ∷ s)

four : List Text → Option ℕ
unfolding octet
four (a ∷ b ∷ c ∷ d ∷ []) = elim (octet a) [
  | none ↦ none
  | some w ↦ elim (octet b) [
    | none ↦ none
    | some x ↦ elim (octet c) [
      | none ↦ none
      | some y ↦ elim (octet d) [
        | none ↦ none
        | some z ↦ some (((w * 256 + x) * 256 + y) * 256 + z)
      ]
    ]
  ]
]
four _ = none

-- The 32-bit number of a dotted IPv4 address.
unfoldable pub parse_ipv4 : Text → Option ℕ
unfolding four split
parse_ipv4 s = four (split b'.' s)

hex_digit : ℕ → Option ℕ
hex_digit c =
    if leb b'0' c && leb c b'9'
    then some (c - b'0')
    else if leb b'a' c && leb c b'f'
    then some (c - b'a' + 10)
    else if leb b'A' c && leb c b'F'
    then some (c - b'A' + 10)
    else none

-- The hexadecimal digits at the start: how many, their value, and what follows.
hex_run : ℕ → ℕ → Text → ℕ × ℕ × Text
unfolding hex_digit
hex_run off acc [] = (off, acc, [])
hex_run off acc (c ∷ s) = elim (hex_digit c) [
  | none ↦ (off, acc, c ∷ s)
  | some d ↦ hex_run (off + 1) (acc * 16 + d) s
]

-- The groups read, the number of them before the ellipsis, and whether the text ended well.
abbrev Groups : Type 0
Groups = List ℕ × Option ℕ

-- What follows a group: the end, or a colon and more, perhaps an ellipsis.
pub data Next : Type 0 where
  finish bad : Next
  more : Text → Next
  ellipsis : Text → Next

after_group : Text → Next
after_group [] = finish
after_group (c ∷ []) = bad
after_group (c ∷ d ∷ s) =
    if c == b':' then (if d == b':' then ellipsis s else more (d ∷ s)) else bad

abbrev add_ipv4 : List ℕ → Option ℕ → Option ℕ → Option Groups
add_ipv4 done gap none = none
add_ipv4 done gap (some v) = some (done ++ v / 65536 ∷ v % 65536 ∷ [], gap)

ends_ipv4 : Text → Bool
ends_ipv4 [] = false
ends_ipv4 (c ∷ s) = c == b'.'

-- An IPv4 tail fits behind an ellipsis, or as the last two of eight groups.
ipv4_fits : ℕ → List ℕ → Option ℕ → Bool
ipv4_fits left done gap = (is_some gap || length done == 6) && leb 1 left

after_ellipsis : Option Groups → List ℕ → Text → Option Groups
after_ellipsis rest done [] = some (done, some (length done))
after_ellipsis rest done (c ∷ s) = rest

-- `left` counts the groups that there is still room for; `gap` is the place of the ellipsis.
groups_from : ℕ → List ℕ → Option ℕ → Text → Option Groups
unfolding hex_run after_group ends_ipv4 ipv4_fits after_ellipsis
groups_from zero done gap s = if is_empty s then some (done, gap) else none
groups_from (suc left) done gap s =
    let (off, acc, rest) = hex_run 0 0 s in
    let grown = done ++ acc ∷ [] in
    if off == 0 || ltb 4 off
    then none
    else if ends_ipv4 rest
    then (if ipv4_fits left done gap then add_ipv4 done gap (parse_ipv4 s) else none)
    else elim (after_group rest) [
      | finish ↦ some (grown, gap)
      | bad ↦ none
      | more t ↦ groups_from left grown gap t
      | ellipsis t ↦ elim gap [
        | some _ ↦ none
        | none ↦ after_ellipsis (groups_from left grown (some (length grown)) t) grown t
      ]
    ]

number_of : List ℕ → ℕ
number_of = foldl (λ n g. n * 65536 + g) 0

-- The ellipsis stands for at least one group of zeros.
expand : Option Groups → Option ℕ
unfolding number_of
expand none = none
expand (some (done, none)) = if length done == 8 then some (number_of done) else none
expand (some (done, some k)) =
    if ltb (length done) 8
    then some (number_of (take k done ++ (replicate (8 - length done) 0 ++ drop k done)))
    else none

-- The 128-bit number of an IPv6 address.
unfoldable pub parse_ipv6 : Text → Option ℕ
unfolding groups_from expand has_prefix
parse_ipv6 s =
    if same s (codes "::")
    then some 0
    else if has_prefix s (codes "::")
    then expand (groups_from 8 [] (some 0) (drop 2 s))
    else expand (groups_from 8 [] none s)

abbrev map_ipv4 : Option ℕ → Option ℕ
map_ipv4 none = none
map_ipv4 (some v) = some (65535 * 2 ^ 32 + v)

-- net.ParseIP: a text with a colon is IPv6, any other IPv4; a zone is refused.
unfoldable pub parse_ip : Text → Option ℕ
unfolding parse_ipv4 parse_ipv6
parse_ip s = if contains_byte b':' s then parse_ipv6 s else map_ipv4 (parse_ipv4 s)

-- net.IP.To4
unfoldable pub to4 : ℕ → Option ℕ
to4 ip = if ip / 2 ^ 32 == 65535 then some (ip % 2 ^ 32) else none

loopback : parse_ip (codes "127.0.0.1") ≡ some (65535 * 2 ^ 32 + 127 * 2 ^ 24 + 1)
unfolding parse_ip contains_byte
loopback = refl

v6_forms :
    (parse_ip (codes "::1") ≡ some 1)
    × (parse_ip (codes "1::") ≡ some (2 ^ 112))
    × (parse_ip (codes "::ffff:1.2.3.4") ≡ parse_ip (codes "1.2.3.4"))
    × (parse_ip (codes "1:2:3:4:5:6:7::") ≡ parse_ip (codes "1:2:3:4:5:6:7:0"))
unfolding parse_ip contains_byte same
v6_forms = (refl, refl, refl, refl)

not_addresses :
    (parse_ip (codes "1.2.3") ≡ none)
    × (parse_ip (codes "01.2.3.4") ≡ none)
    × (parse_ip (codes "256.2.3.4") ≡ none)
    × (parse_ip (codes "1:2:3:4:5:6:7:8::") ≡ none)
    × (parse_ip (codes "::1::") ≡ none)
    × (parse_ip (codes "app.example.com") ≡ none)
    × (parse_ip (codes "fe80::1%eth0") ≡ none)
unfolding parse_ip contains_byte same
not_addresses = (refl, refl, refl, refl, refl, refl, refl)
