-- ===== src/IpRange.antt =====
-- iprange.go: ranges of IP addresses, and the map from addresses and ranges to ACLs. A net.IP is
-- the list of its bytes, four or sixteen. net.ParseIP, net.ParseCIDR and net.IP.String are the
-- section's parameters. An index out of range panics: `none` in `contains_address` and `matches`.
mod Order
mod Lookup
mod Tests
use redwood_filter.Common.{
  ℕ, ◌+◌, ◌-◌, ◌*◌, Bool, true, false, not, ◌&&◌, Option, none, some, List, [], ◌∷◌, ◌++◌, ltb, leb,
  if◌then◌else◌, ◌==◌, nat_eq, length, set, take, drop, replicate, Bytes, bytes_eq, ◌>>=◌,
}
use Prim.Native.Nat.{bit_or}
use redwood_filter.Common.GoMap.{GoMap, lookup_or, insert}

abbrev pub Ip : Type 0
Ip = Bytes

pub record IpRange : Type 0 where
  pub first : Ip
  pub last : Ip

-- net.IP.To4: an IPv4 address is four bytes, or sixteen that begin with ten zeros and two 0xff
unfoldable pub to4 : Ip → Option Ip
to4 ip =
    if length ip == 4
    then some ip
    else if length ip == 16 && (take 12 ip == (replicate 10 0 ++ 255 ∷ 255 ∷ []))
    then some (drop 12 ip)
    else none

abbrev or_self : Ip → Option Ip → Ip
or_self ip none = ip
or_self ip (some ip4) = ip4

-- `if f4 := ip.To4(); f4 != nil { ip = f4 }`
unfoldable pub short_form : Ip → Ip
unfolding to4
short_form ip = or_self ip (to4 ip)

-- The first loop of `Contains`: `some false` is the early return.
unfoldable pub not_below : Ip → Ip → Option Bool
not_below [] ys = some true
not_below (x ∷ xs) [] = none
not_below (x ∷ xs) (y ∷ ys) =
    let rest = not_below xs ys in
    if ltb x y then some false else if ltb y x then some true else rest

-- the second loop
unfoldable pub not_above : Ip → Ip → Option Bool
not_above [] ys = some true
not_above (x ∷ xs) [] = none
not_above (x ∷ xs) (y ∷ ys) =
    let rest = not_above xs ys in
    if ltb y x then some false else if ltb x y then some true else rest

-- the two loops, with the return between them
within : Ip → Ip → Ip → Option Bool
within addr first last = do
  low ← not_below addr first
  if low then not_above addr last else some false

unfoldable pub contains_address : IpRange → Ip → Option Bool
unfolding within
contains_address r addr =
    let a = short_form addr in
    if not (length a == length r.first) then some false else within a r.first r.last

-- strconv.ParseUint(s, 10, 8)
abbrev is_digit : ℕ → Bool
is_digit c = leb b'0' c && leb c b'9'

digits_value : ℕ → Bytes → Option ℕ
digits_value n [] = some n
digits_value n (c ∷ s) = if is_digit c then digits_value (n * 10 + (c - 48)) s else none

unfoldable pub parse_uint8 : Bytes → Option ℕ
unfolding digits_value
parse_uint8 [] = none
parse_uint8 (c ∷ s) = do n ← digits_value 0 (c ∷ s); if leb n 255 then some n else none

-- the text before the first dash, and the text behind it
unfoldable pub cut_dash : Bytes → Option (Bytes × Bytes)
cut_dash [] = none
cut_dash (c ∷ s) = if c == b'-' then some ([], s) else (do (a, b) ← cut_dash s; some (c ∷ a, b))

abbrev set_last : Ip → ℕ → Ip
set_last ip b = set ip (length ip - 1) b

-- r.last[i] = b | ^n.Mask[i]
unfoldable pub broadcast : Ip → Bytes → Ip
broadcast (b ∷ ip) (m ∷ mask) = bit_or b (255 - m) ∷ broadcast ip mask
broadcast _ _ = []

-- the deferred function, which runs when both addresses are there
abbrev short_range : Ip → Ip → IpRange
short_range first last = record { first = short_form first; last = short_form last }

pub record IpMap : Type 0 where
  pub addresses : GoMap Bytes (List Bytes)
  pub ranges : List (IpRange × Bytes)

abbrev pub no_addresses : IpMap
no_addresses = record { addresses = []; ranges = [] }

-- the loop over the ranges
unfoldable pub match_ranges : Ip → List (IpRange × Bytes) → Option (List Bytes)
match_ranges addr [] = some []
match_ranges addr ((r, group) ∷ ranges) = do
  inside ← contains_address r addr
  rest ← match_ranges addr ranges
  some (if inside then group ∷ rest else rest)

module _ (parse_ip : Bytes → Option Ip) (parse_cidr : Bytes → Option (Ip × Bytes))
    (ip_string : Ip → Bytes) where
  -- the part behind the dash: an address, or a last byte
  range_end : Ip → Bytes → Option IpRange
  range_end first last = elim (parse_ip last) [
    | some ip ↦ some (short_range first ip)
    | none ↦ elim (parse_uint8 last) [
      | some b ↦ some (short_range first (set_last first b))
      | none ↦ none
    ]
  ]

  -- `none` is an error
  unfoldable pub parse_ip_range : Bytes → Option IpRange
  unfolding range_end
  parse_ip_range s = elim (parse_cidr s) [
    | some (ip, mask) ↦ some (short_range ip (broadcast ip mask))
    | none ↦ (do (before, last) ← cut_dash s; first ← parse_ip before; range_end first last)
  ]

  -- The method `add`. The error leaves the map as it was, but for a first, empty map of addresses.
  unfoldable pub add_address : IpMap → Bytes → Bytes → Option IpMap
  add_address m addr acl = elim (parse_ip addr) [
    | some ip ↦
        let s = ip_string ip in
        some
          (record m { addresses = insert s (lookup_or s [] m.addresses ++ acl ∷ []) m.addresses })
    | none ↦ elim (parse_ip_range addr) [
      | some r ↦ some (record m { ranges = m.ranges ++ (r, acl) ∷ [] })
      | none ↦ none
    ]
  ]

  unfoldable pub matches : IpMap → Ip → Option (List Bytes)
  unfolding match_ranges
  matches m addr = do
    groups ← match_ranges addr m.ranges
    some (lookup_or (ip_string addr) [] m.addresses ++ groups)
