-- ===== src/IpRange/Lookup.antt =====
-- The map from addresses and ranges to ACLs, after an entry was added.
use redwood_filter.Common.{Bool, Option, none, some, List, ◌==◌, nat_eq, Bytes, bytes_eq}
use redwood_filter.IpRange.{Ip, IpRange, IpMap, contains_address, parse_ip_range, matches}

module _ (parse_ip : Bytes → Option Ip) (parse_cidr : Bytes → Option (Ip × Bytes))
    (ip_string : Ip → Bytes) where
  -- Whether an entry of the configuration covers an address: it is the same address, or the address
  -- is in the range. `none` is a panic, or no entry at all.
  unfoldable pub covers : Bytes → Ip → Option Bool
  covers entry addr = elim (parse_ip entry) [
    | some ip ↦ some (ip_string ip == ip_string addr)
    | none ↦ elim (parse_ip_range parse_ip parse_cidr ip_string entry) [
      | some r ↦ contains_address r addr
      | none ↦ none
    ]
  ]

  abbrev Ms : IpMap → Ip → Option (List Bytes)
  Ms = matches parse_ip parse_cidr ip_string
