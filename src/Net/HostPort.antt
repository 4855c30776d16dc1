-- ===== src/Net/HostPort.antt =====
-- net.SplitHostPort, whose host `hostWithoutPort` of pkg/certtool/certtool.go takes.
use certtool.Base.{ℕ, ◌||◌, ◌==◌, if◌then◌else◌, Bool, Option, none, some, ◌≡◌, refl, [], ◌∷◌}
use certtool.Base.Text.{Text, codes, contains_byte}

abbrev put_back : ℕ → Option (Text × Text) → Option (Text × Text)
put_back c none = none
put_back c (some (before, after)) = some (c ∷ before, after)

-- strings.Cut at the first byte `b`: the text before it and the text behind it.
unfoldable pub cut : ℕ → Text → Option (Text × Text)
cut b [] = none
cut b (c ∷ s) = let rest = cut b s in if c == b then some ([], s) else put_back c rest

-- a bracket in the wrong place, or a second colon
misplaced : Text → Bool
unfolding contains_byte
misplaced s = contains_byte b'[' s || contains_byte b']' s || contains_byte b':' s

-- `[host]:port`, without the first bracket
bracketed : Option (Text × Text) → Option Text
unfolding misplaced
bracketed none = none
bracketed (some (host, [])) = none
bracketed (some (host, c ∷ port)) =
    if c == b':'
    then (if contains_byte b'[' host || misplaced port then none else some host)
    else none

-- `host:port`
plain : Option (Text × Text) → Option Text
unfolding misplaced
plain none = none
plain (some (host, port)) = if misplaced host || misplaced port then none else some host

-- The host of `host:port` or `[host]:port`; nothing where there is no port or a byte is misplaced.
unfoldable pub split_host_port : Text → Option Text
unfolding cut bracketed plain
split_host_port [] = none
split_host_port (c ∷ s) = if c == b'[' then bracketed (cut b']' s) else plain (cut b':' (c ∷ s))

host_port_forms :
    (split_host_port (codes "a.com:443") ≡ some (codes "a.com"))
    × (split_host_port (codes "[::1]:443") ≡ some (codes "::1"))
    × (split_host_port (codes "a.com") ≡ none)
    × (split_host_port (codes "::1") ≡ none)
    × (split_host_port (codes "[::1]") ≡ none)
unfolding split_host_port
host_port_forms = (refl, refl, refl, refl, refl)
