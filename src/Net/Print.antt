-- ===== src/Net/Print.antt =====
-- net.IP.String: dotted decimal for IPv4, and hexadecimal groups with the longest run of zeros
-- shortened for IPv6.
use certtool.Base.{
  ℕ, zero, suc, ◌+◌, ◌-◌, ◌*◌, ◌/◌, ◌%◌, ◌^◌, ◌≡◌, refl, ◌&&◌, ◌==◌, ltb, leb, if◌then◌else◌, none,
  some, List, [], ◌∷◌, ◌++◌, map, take, drop,
}
use certtool.Base.Text.{Text, codes, join}
use certtool.Base.Decimal.{itoa}
use certtool.Net.Address.{to4}

hex_byte : ℕ → ℕ
hex_byte d = if ltb d 10 then b'0' + d else b'a' + (d - 10)

-- at most four digits, no leading zeros
hex_group : ℕ → Text
unfolding hex_byte
hex_group g =
    if ltb g 16
    then hex_byte g ∷ []
    else if ltb g 256
    then hex_byte (g / 16) ∷ hex_byte (g % 16) ∷ []
    else if ltb g 4096
    then hex_byte (g / 256) ∷ hex_byte (g / 16 % 16) ∷ hex_byte (g % 16) ∷ []
    else hex_byte (g / 4096)
      ∷ hex_byte (g / 256 % 16)
      ∷ hex_byte (g / 16 % 16)
      ∷ hex_byte (g % 16)
      ∷ []

-- the eight groups, the highest first
groups_of : ℕ → ℕ → List ℕ → List ℕ
groups_of zero ip gs = gs
groups_of (suc n) ip gs = groups_of n (ip / 65536) (ip % 65536 ∷ gs)

zero_run : List ℕ → ℕ
zero_run [] = 0
zero_run (g ∷ gs) = let rest = zero_run gs in if g == 0 then rest + 1 else 0

-- the first longest run of at least two zeros: where it starts, and its length
best_run : ℕ → List ℕ → ℕ × ℕ → ℕ × ℕ
unfolding zero_run
best_run i [] best = best
best_run i (g ∷ gs) (start, len) =
    let n = zero_run (g ∷ gs) in
    best_run (i + 1) gs (if leb 2 n && ltb len n then (i, n) else (start, len))

ipv6_string : List ℕ → Text
unfolding best_run hex_group join
ipv6_string gs =
    let (start, len) = best_run 0 gs (0, 0) in
    let hex = map hex_group in
    if len == 0
    then join (codes ":") (hex gs)
    else join (codes ":") (hex (take start gs))
      ++ (codes "::" ++ join (codes ":") (hex (drop (start + len) gs)))

ipv4_string : ℕ → Text
unfolding itoa join
ipv4_string v =
    join (codes ".")
      (itoa (v / 2 ^ 24) ∷ itoa (v / 2 ^ 16 % 256) ∷ itoa (v / 2 ^ 8 % 256) ∷ itoa (v % 256) ∷ [])

unfoldable pub ip_string : ℕ → Text
unfolding ipv4_string ipv6_string groups_of to4
ip_string ip = elim (to4 ip) [ none ↦ ipv6_string (groups_of 8 ip []) | some v ↦ ipv4_string v ]

address_forms :
    (ip_string (65535 * 2 ^ 32 + 127 * 2 ^ 24 + 1) ≡ codes "127.0.0.1")
    × (ip_string 1 ≡ codes "::1")
    × (ip_string (0x2001 * 2 ^ 112 + 0xdb8 * 2 ^ 96 + 0xff) ≡ codes "2001:db8::ff")
unfolding ip_string
address_forms = (refl, refl, refl)
