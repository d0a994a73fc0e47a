-- ===== src/Url.antt =====
-- url.go: the URLMatcher, which finds the rules that a URL matches. What it calls of other
-- packages is the record `Externals`; regexStrings is of restring.go, a modified copy of a file of
-- codesearch.
--   UrlMatcher, add_rule, finalize     the struct, AddRule and finalize
--   Matching.matching_rules            MatchingRules, in the order of the source
--   test_text, test_paths, test_hosts  the loops over the host and the path, on fuel
pub mod Matching
mod Candidates
mod Tested
mod Types
pub mod Hits
pub mod Lists
mod Lookup
mod Rules
pub mod Tests
use redwood_filter.Common.{
  ℕ, zero, suc, ◌+◌, ◌-◌, Bool, true, false, not, ◌&&◌, ◌||◌, Option, none, some, List, [], ◌∷◌,
  ◌++◌, foldl, ltb, if◌then◌else◌, ◌==◌, nat_eq, length, take, contains, Bytes, bytes_eq, ◌>>=◌,
}
use redwood_filter.Common.Text.{has_suffix, cut, cut_last}
use redwood_filter.Common.GoMap.{GoMap, lookup, insert}
use redwood_filter.Common.Int.{pos}
use redwood_filter.Cuckoo.{CuckooFilter, contains_text}
use redwood_filter.IpRange
use redwood_filter.IpRange.{Ip, IpMap, no_addresses}
use redwood_filter.RegexMap
use redwood_filter.RegexMap.{Regexp, RegexMap, new_regex_map}
use redwood_filter.Rule.{
  SimpleRule, Rule, simple, rule_eq, RuleType, url_match, ip_addr, url_regex, host_regex,
  domain_regex, path_regex, query_regex, url_list,
}
use redwood_filter.Scoring.{Tally}

-- Functions of other packages, and regexStrings.
pub record Externals : Type 0 where
  pub compile : Bytes → Option Regexp
  pub regex_strings : Bytes → Option (List Bytes)
  pub to_lower : Bytes → Bytes
  pub public_suffix : Bytes → Bytes
  pub to_unicode : Bytes → Option Bytes
  pub query_unescape : Bytes → Option Bytes
  pub hash : Bytes → ℕ
  pub parse_ip : Bytes → Option Ip
  pub parse_cidr : Bytes → Option (Ip × Bytes)
  pub ip_string : Ip → Bytes

-- the fields of url.URL that the matcher reads
pub record Url : Type 0 where
  pub scheme : Bytes
  pub host : Bytes
  pub path : Bytes
  pub raw_query : Bytes

pub record UrlMatcher : Type 0 where
  pub fragments : GoMap Bytes Rule
  pub regexes : RegexMap
  pub host_regexes : RegexMap
  pub domain_regexes : RegexMap
  pub path_regexes : RegexMap
  pub query_regexes : RegexMap
  pub public_suffixes : List Bytes
  pub ip_addrs : IpMap
  pub url_lists : GoMap Bytes CuckooFilter

abbrev pub new_url_matcher : UrlMatcher
new_url_matcher = record {
  fragments = [];
  regexes = new_regex_map;
  host_regexes = new_regex_map;
  domain_regexes = new_regex_map;
  path_regexes = new_regex_map;
  query_regexes = new_regex_map;
  public_suffixes = [];
  ip_addrs = no_addresses;
  url_lists = [];
}

abbrev or_before : IpMap → Option IpMap → IpMap
or_before m none = m
or_before m (some m') = m'

abbrev pub or_same : Bytes → Option Bytes → Bytes
or_same s none = s
or_same s (some t) = t

unfoldable pub finalize : UrlMatcher → UrlMatcher
finalize m = record m {
  regexes = RegexMap.finalize m.regexes;
  host_regexes = RegexMap.finalize m.host_regexes;
  domain_regexes = RegexMap.finalize m.domain_regexes;
  path_regexes = RegexMap.finalize m.path_regexes;
  query_regexes = RegexMap.finalize m.query_regexes;
}

abbrev is_nil : Bytes → Bool
is_nil [] = true
is_nil (c ∷ s) = false

-- the host without a port: behind the last colon, unless a bracket follows it
unfoldable pub without_port : Bytes → Bytes
without_port host = elim (cut_last b':' host) [
  | none ↦ host
  | some (before, behind) ↦ if not (contains behind b']') then before else host
]

-- one round of the loop over m.publicSuffixes
abbrev longer_suffix : Bytes → Bytes → Bytes → Bytes
longer_suffix host suffix s =
    if has_suffix host s
      && ltb (length suffix) (length s)
      && (host == s || has_suffix host (b'.' ∷ s))
    then s
    else suffix

-- the label before the suffix
abbrev last_label : Bytes → Bytes
last_label domain = elim (cut_last b'.' domain) [ none ↦ domain | some (before, label) ↦ label ]

module _ (x : Externals) where
  abbrev pub add_regex : RegexMap → SimpleRule → RegexMap
  add_regex = RegexMap.add_rule x.compile x.regex_strings

  -- The switch of `AddRule`. An error of the address map is dropped, as in the source.
  add_typed : UrlMatcher → SimpleRule → RuleType → UrlMatcher
  add_typed m r t = elim t [
    | url_match ↦ record m { fragments = insert r.content (simple r) m.fragments }
    | url_regex ↦ record m { regexes = add_regex m.regexes r }
    | host_regex ↦ record m { host_regexes = add_regex m.host_regexes r }
    | domain_regex ↦ record m { domain_regexes = add_regex m.domain_regexes r }
    | path_regex ↦ record m { path_regexes = add_regex m.path_regexes r }
    | query_regex ↦ record m { query_regexes = add_regex m.query_regexes r }
    | ip_addr ↦ record m {
      ip_addrs =
          or_before m.ip_addrs (
            IpRange.add_address x.parse_ip x.parse_cidr x.ip_string m.ip_addrs r.content r.content);
    }
    | _ ↦ m
  ]

  unfoldable pub add_rule : UrlMatcher → SimpleRule → UrlMatcher
  unfolding add_typed
  add_rule m r = add_typed m r r.t

  -- The main domain name, if there is one: the label before the longest known suffix.
  unfoldable pub main_domain : UrlMatcher → Bytes → Option Bytes
  main_domain m host =
      let suffix = foldl (longer_suffix host) (x.public_suffix host) m.public_suffixes in
      if not (is_nil suffix) && not (suffix == host)
      then some (last_label (take (length host - length suffix - 1) host))
      else none

  -- the fragment of this text, and the URL lists that contain it
  unfoldable pub test_text : UrlMatcher → Bytes → Tally → Tally
  test_text m s result =
      foldl
        (λ t (filename, filter).
          if contains_text x.hash filter s
          then insert (simple (record { t = url_list; content = filename })) (pos 1) t
          else t)
        (elim (lookup s m.fragments) [ none ↦ result | some r ↦ insert r (pos 1) result ])
        m.url_lists

  -- The inner loop.
  pub test_paths : UrlMatcher → ℕ → Bytes → Tally → Option Tally
  test_paths m zero s result = none
  test_paths m (suc fuel) s result = elim (cut_last b'/' s) [
    | none ↦ some (test_text m s result)
    | some (before, behind) ↦ elim (is_nil before) [
      | true ↦ some (test_text m s result)
      | false ↦ test_paths m fuel before (test_text m s result)
    ]
  ]

  -- The loop around it.
  pub test_hosts : UrlMatcher → ℕ → Bytes → Bytes → Tally → Option Tally
  test_hosts m zero s path result = none
  test_hosts m (suc fuel) s path result = do
    tested ← test_paths m (length (s ++ path) + 1) (s ++ path) result
    elim (cut b'.' s) [
      | none ↦ some (test_text m s tested)
      | some (label, behind) ↦ test_hosts m fuel behind path (test_text m s tested)
    ]
