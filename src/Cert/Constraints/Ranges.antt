-- ===== src/Cert/Constraints/Ranges.antt =====
-- IP ranges inside one another: `ipRangeWithin` of pkg/certtool/certtool.go.
use certtool.Base.{ℕ, ◌-◌, ◌/◌, ◌^◌, ◌≤◌, ◌≡◌, ◌∙◌, true, arith, and_true, ==→eq, leb→le}
use certtool.Net.Address.{to4}
use certtool.Net.Range.{IpNet, Network, network_of, host_of, covers, contains, address_of, shift_le}
use certtool.Cert.Constraints.{ip_range_within}

covers_parts :
    (n h : Network)
    → covers n h ≡ true
    → (h.width ≡ n.width)
      × (h.number / 2 ^ (n.width - n.prefix) ≡ n.number / 2 ^ (n.width - n.prefix))
unfolding covers
covers_parts n h e = let (p, q) = and_true _ _ e in (==→eq _ _ p, ==→eq _ _ q)

covers_of :
    (n h : Network)
    → h.width ≡ n.width
    → h.number / 2 ^ (n.width - n.prefix) ≡ n.number / 2 ^ (n.width - n.prefix)
    → covers n h ≡ true
unfolding covers
covers_of n h p q = ground arith

-- A shorter prefix of the same number covers as much, and more.
covers_trans :
    (n m h : Network)
    → m.width ≡ n.width
    → n.prefix ≤ m.prefix
    → m.number / 2 ^ (n.width - n.prefix) ≡ n.number / 2 ^ (n.width - n.prefix)
    → covers m h ≡ true
    → covers n h ≡ true
covers_trans n m h w le q e =
    let (p, s) = covers_parts m h e in
    covers_of n h (p ∙ w)
      (shift_le (m.width - m.prefix) (n.width - n.prefix) h.number m.number (omega arith) s ∙ q)

network : IpNet → Network
unfolding network_of
network r = network_of r.bits r.ones r.addr

-- The network of a range that lies inside another, seen from the other.
within_network :
    (r parent : IpNet)
    → r.bits ≡ parent.bits
    → parent.ones ≤ r.ones
    → (host_of (address_of r)).width ≡ (network parent).width
    → ((network r).width ≡ (network parent).width)
      × ((network parent).prefix ≤ (network r).prefix)
      × ((network r).number ≡ (host_of (address_of r)).number)
unfolding network host_of address_of to4
within_network r parent b o w = ground arith

-- What a range inside `parent` contains, `parent` contains.
pub ip_range_within-contains :
    (r parent : IpNet) (ip : ℕ)
    → ip_range_within r parent ≡ true
    → contains r ip ≡ true
    → contains parent ip ≡ true
unfolding ip_range_within contains network
ip_range_within-contains r parent ip h c =
    let (bo, held) = and_true _ _ h in
    let (b, o) = and_true _ _ bo in
    let (hw, hq) = covers_parts (network parent) (host_of (address_of r)) held in
    let (w, p, n) = within_network r parent (==→eq _ _ b) (leb→le _ _ o) hw in
    covers_trans (network parent) (network r) (host_of ip) w p (rw n hq) c
