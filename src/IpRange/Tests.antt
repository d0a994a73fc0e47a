-- ===== src/IpRange/Tests.antt =====
-- Runs of the address ranges, and the witnesses of their properties. The parameters are functions
-- that know a few texts.
use redwood_filter.Common.{
  ℕ, ◌≡◌, refl, true, Option, none, some, List, [], ◌∷◌, ◌++◌, arith, if◌then◌else◌, ◌==◌, nat_eq,
  replicate, Bytes, codes, bytes_eq,
}
use redwood_filter.IpRange.{
  broadcast, parse_uint8, Ip, IpRange, IpMap, short_form, not_below, contains_address, cut_dash,
  parse_ip_range,
}
use redwood_filter.IpRange.Order.{value_from, IsRange, contains_address-value, mixed_range_panics}

abbrev v4 : ℕ → ℕ → ℕ → ℕ → Ip
v4 a b c d = replicate 10 0 ++ 255 ∷ 255 ∷ a ∷ b ∷ c ∷ d ∷ []

abbrev v6 : ℕ → Ip
v6 last = 32 ∷ 1 ∷ replicate 13 0 ++ last ∷ []

abbrev known_ips : List (Bytes × Ip)
known_ips =
    (codes "10.1.10.0", v4 10 1 10 0)
    ∷ (codes "10.1.10.9", v4 10 1 10 9)
    ∷ (codes "32.1.0.0", v4 32 1 0 0)
    ∷ (codes "2001::", v6 0)
    ∷ []

abbrev find_ip : List (Bytes × Ip) → Bytes → Option Ip
find_ip [] s = none
find_ip ((t, ip) ∷ known) s = if t == s then some ip else find_ip known s

abbrev known_ip : Bytes → Option Ip
known_ip = find_ip known_ips

abbrev known_cidr : Bytes → Option (Ip × Bytes)
known_cidr s =
    if s == codes "10.1.10.0/28"
    then some (10 ∷ 1 ∷ 10 ∷ 0 ∷ [], 255 ∷ 255 ∷ 255 ∷ 240 ∷ [])
    else none

abbrev printed : Ip → Bytes
printed = short_form

abbrev range : Bytes → Option IpRange
range = parse_ip_range known_ip known_cidr printed

abbrev small : IpRange
small = record { first = 10 ∷ 1 ∷ 10 ∷ 0 ∷ []; last = 10 ∷ 1 ∷ 10 ∷ 15 ∷ [] }

parse_ip_range_runs :
    (range (codes "10.1.10.0/28") ≡ some small)
    × (range (codes "10.1.10.0-15") ≡ some small)
    × (range (codes "10.1.10.0-256") ≡ none)
    × (range (codes "10.1.10.0") ≡ none)
unfolding parse_ip_range short_form broadcast cut_dash parse_uint8
parse_ip_range_runs = (refl, refl, refl, refl)

abbrev small-IsRange : IsRange small
small-IsRange = record {
  first_bytes = (omega arith, (omega arith, (omega arith, (omega arith, tt))));
  last_bytes = (omega arith, (omega arith, (omega arith, (omega arith, tt))));
  same_length = refl;
}

contains_address-value_example : contains_address small (v4 10 1 10 9) ≡ some true
unfolding short_form value_from
contains_address-value_example =
    contains_address-value small (v4 10 1 10 9) small-IsRange
      (omega arith, (omega arith, (omega arith, (omega arith, tt))))

mixed_range_panics_example :
    (r : IpRange) × (parse_ip_range known_ip known_cidr printed (codes "2001::-32.1.0.0") ≡ some r)
    × (contains_address r (v6 5) ≡ none)
unfolding cut_dash not_below short_form
mixed_range_panics_example =
    mixed_range_panics known_ip known_cidr printed (codes "2001::-32.1.0.0") (codes "2001::")
      (codes "32.1.0.0") (v6 0) (v4 32 1 0 0) (v6 5) (replicate 10 0 ++ 5 ∷ []) 0 refl refl refl
      refl refl refl refl

abbrev ranged : IpMap
ranged = record { addresses = (codes "x", codes "other" ∷ []) ∷ []; ranges = [] }

abbrev with_range : IpMap
with_range = record ranged { ranges = (small, codes "office") ∷ [] }
