-- ===== src/Url/Matching.antt =====
-- url.go, MatchingRules: the rules that a URL matches, each with a count of 1. `none` is a loop
-- that its fuel cut short, or a lookup of an address that panics.
use redwood_filter.Common.{
  ℕ, ◌+◌, Bool, not, Option, none, some, [], ◌∷◌, ◌++◌, map, foldl, if◌then◌else◌, ◌==◌, nat_eq,
  length, Bytes, codes, bytes_eq, ◌>>=◌,
}
use redwood_filter.Common.Text.{trim_last}
use redwood_filter.Common.GoMap.{insert}
use redwood_filter.Common.Int.{pos}
use redwood_filter.IpRange
use redwood_filter.RegexMap.{find_matches}
use redwood_filter.Rule.{simple, rule_eq, ip_addr}
use redwood_filter.Scoring.{Tally}
use redwood_filter.Url.{
  Externals, Url, UrlMatcher, is_nil, or_same, without_port, main_domain, test_hosts,
}

-- Change ' ' back to '+'.
abbrev plus_for_space : ℕ → ℕ
plus_for_space c = if c == b' ' then b'+' else c

abbrev unless_nil : Bytes → Bytes → Bytes
unless_nil [] t = []
unless_nil (c ∷ s) t = t

module _ (x : Externals) where
  -- the host without its port and a final dot, before it is decoded
  abbrev pub plain_host : Url → Bytes
  plain_host u = trim_last b'.' (without_port (x.to_lower u.host))

  abbrev pub decoded : Bytes → Bytes
  decoded s = or_same s (x.to_unicode s)

  abbrev pub host_of : Url → Bytes
  host_of u = decoded (plain_host u)

  abbrev pub path_of : Url → Bytes
  path_of u = x.to_lower u.path

  unfoldable pub query_of : Url → Bytes
  query_of u =
      let query = x.to_lower u.raw_query in
      elim (x.query_unescape query) [ none ↦ query | some q ↦ map plus_for_space q ]

  abbrev pub has_query : Url → Bool
  has_query u = not (is_nil (x.to_lower u.raw_query))

  -- the variable urlString, when it is complete
  unfoldable pub url_string : Url → Bytes
  unfolding query_of
  url_string u =
      unless_nil u.scheme (x.to_lower u.scheme ++ codes ":")
      ++ (unless_nil (host_of u) (codes "//" ++ host_of u)
          ++ (path_of u ++ (if has_query u then codes "?" ++ query_of u else [])))

  unfoldable pub match_domain : UrlMatcher → Option Bytes → Tally → Option Tally
  match_domain m none result = some result
  match_domain m (some domain) result = find_matches m.domain_regexes (decoded domain) result

  -- the part about an address as the host
  unfoldable pub match_ip : UrlMatcher → Bytes → Tally → Option Tally
  match_ip m host result = elim (x.parse_ip host) [
    | none ↦ some result
    | some ip ↦ do
      groups ← IpRange.matches x.parse_ip x.parse_cidr x.ip_string m.ip_addrs ip
      some (
          foldl (λ t g. insert (simple (record { t = ip_addr; content = g })) (pos 1) t) result
            groups)
  ]

  unfoldable pub matching_rules : UrlMatcher → Url → Option Tally
  unfolding match_domain match_ip query_of url_string
  matching_rules m u = do
    by_domain ← match_domain m (main_domain x m (plain_host u)) []
    let by_host = find_matches m.host_regexes (host_of u) by_domain
    with_host ← if not (is_nil (host_of u)) then by_host else some by_domain
    with_path ← find_matches m.path_regexes (path_of u) with_host
    let by_query = find_matches m.query_regexes (query_of u) with_path
    with_query ← if has_query u then by_query else some with_path
    with_regexes ← find_matches m.regexes (url_string u) with_query
    with_texts ← test_hosts x m (length (host_of u) + 1) (host_of u) (path_of u) with_regexes
    match_ip m (host_of u) with_texts
