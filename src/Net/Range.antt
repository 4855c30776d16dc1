-- ===== src/Net/Range.antt =====
-- net.IPNet: Contains, Mask.Size, and ParseCIDR.
use native.Mathlib.Nat.{pow-suc, div-div-eq-div-mul, mul_assoc, mul-one, add-zero}
use certtool.Base.{
  ℕ, zero, suc, ◌+◌, ◌-◌, ◌*◌, ◌/◌, ◌^◌, ◌≤◌, ◌≡◌, refl, sym, ap, ◌∙◌, subst, Bool, ◌&&◌, ◌==◌, leb,
  if◌then◌else◌, Option, none, some, arith,
}
use certtool.Base.Text.{Text, codes, contains_byte}
use certtool.Base.Decimal.{read_decimal}
use certtool.Net.HostPort.{cut}
use certtool.Net.Address.{parse_ipv4, parse_ipv6, to4}

-- A range: the number of bits of its mask, how many of them are ones, and the network's number,
-- which has `bits` bits. Masks are always prefixes, as ParseCIDR and the X.509 parser make them.
pub record IpNet : Type 0 where
  pub bits : ℕ
  pub ones : ℕ
  pub addr : ℕ

-- The width, the prefix length and the number that Contains compares: a mapped IPv4 network is IPv4.
pub record Network : Type 0 where
  pub width : ℕ
  pub prefix : ℕ
  pub number : ℕ

unfoldable pub network_of : ℕ → ℕ → ℕ → Network
network_of bits ones addr =
    if bits == 128
    then elim (to4 addr) [
      | none ↦ record { width = 128; prefix = ones; number = addr }
      | some v ↦ record { width = 32; prefix = ones - 96; number = v }
    ]
    else record { width = bits; prefix = ones; number = addr }

-- An address, as Contains sees it: 32 bits or 128.
unfoldable pub host_of : ℕ → Network
host_of ip = elim (to4 ip) [
  | none ↦ record { width = 128; prefix = 128; number = ip }
  | some v ↦ record { width = 32; prefix = 32; number = v }
]

unfoldable pub covers : Network → Network → Bool
covers n h =
    h.width == n.width && h.number / 2 ^ (n.width - n.prefix) == n.number / 2 ^ (n.width - n.prefix)

-- r.Contains(ip)
unfoldable pub contains : IpNet → ℕ → Bool
unfolding covers host_of network_of
contains r ip = covers (network_of r.bits r.ones r.addr) (host_of ip)

-- The address of a range as a 16-byte address.
unfoldable pub address_of : IpNet → ℕ
address_of r = if r.bits == 32 then 65535 * 2 ^ 32 + r.addr else r.addr

abbrev masked : ℕ → ℕ → Option ℕ → Option IpNet
masked bits n none = none
masked bits n (some v) =
    if leb n bits
    then some (record { bits = bits; ones = n; addr = v / 2 ^ (bits - n) * 2 ^ (bits - n) })
    else none

cidr_parts : Option (Text × Text) → Option IpNet
cidr_parts none = none
cidr_parts (some (a, m)) = elim (read_decimal m) [
  | none ↦ none
  | some n ↦
      (if contains_byte b':' a then masked 128 n (parse_ipv6 a) else masked 32 n (parse_ipv4 a))
]

-- net.ParseCIDR
unfoldable pub parse_cidr : Text → Option IpNet
unfolding cidr_parts
parse_cidr s = cidr_parts (cut b'/' s)

private_range :
    parse_cidr (codes "10.1.2.3/8") ≡ some (record { bits = 32; ones = 8; addr = 10 * 2 ^ 24 })
unfolding parse_cidr cut read_decimal contains_byte parse_ipv4
private_range = refl

pow_add : (m n : ℕ) → 2 ^ (m + n) ≡ 2 ^ m * 2 ^ n
pow_add m zero = ap (λ t. 2 ^ t) (add-zero m) ∙ sym (mul-one (2 ^ m))
pow_add m (suc n) =
    ap (λ t. 2 ^ t) (omega arith)
    ∙ pow-suc 2 (m + n)
    ∙ ap (λ t. t * 2) (pow_add m n)
    ∙ mul_assoc (2 ^ m) (2 ^ n) 2
    ∙ ap (λ t. 2 ^ m * t) (sym (pow-suc 2 n))

-- Numbers with the same leading bits have the same shorter leading bits.
pub shift_mono : (k j x y : ℕ) → x / 2 ^ k ≡ y / 2 ^ k → x / 2 ^ (k + j) ≡ y / 2 ^ (k + j)
shift_mono k j x y h =
    ap (λ p. x / p) (pow_add k j)
    ∙ sym (div-div-eq-div-mul x (2 ^ k) (2 ^ j))
    ∙ ap (λ q. q / 2 ^ j) h
    ∙ div-div-eq-div-mul y (2 ^ k) (2 ^ j)
    ∙ ap (λ p. y / p) (sym (pow_add k j))

pub shift_le : (k l x y : ℕ) → k ≤ l → x / 2 ^ k ≡ y / 2 ^ k → x / 2 ^ l ≡ y / 2 ^ l
shift_le k l x y le h =
    let e : k + (l - k) ≡ l = omega arith in
    subst (λ t. x / 2 ^ t ≡ y / 2 ^ t) e (shift_mono k (l - k) x y h)
