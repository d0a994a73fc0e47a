-- ===== src/Url/Hits.antt =====
-- Whether a rule matches a URL, by its type: what the result of MatchingRules is compared with.
use redwood_filter.Common.{
  ◌≡◌, refl, Bool, false, not, ◌&&◌, ◌||◌, Option, none, some, List, [], ◌∷◌, foldl, arith, ◌==◌,
  nat_eq, any, contains, Bytes, bytes_beq_iff, bytes_eq,
}
use redwood_filter.Common.GoMap.{GoMap}
use redwood_filter.Common.Int.{int_eq}
use redwood_filter.Cuckoo.{CuckooFilter, contains_text}
use redwood_filter.IpRange
use redwood_filter.RegexMap.Seen.{regex_hit}
use redwood_filter.Rule.{
  SimpleRule, Rule, simple, rule_eq, RuleType, type_number, url_match, ip_addr, url_regex,
  host_regex, domain_regex, path_regex, query_regex,
}
use redwood_filter.Url.{
  Externals, Url, UrlMatcher, new_url_matcher, is_nil, add_rule, finalize, main_domain,
}
use redwood_filter.Url.Matching.{
  plain_host, decoded, host_of, path_of, query_of, has_query, url_string,
}
use redwood_filter.Url.Candidates.{candidates}
use redwood_filter.Url.Tested.{list_rule}

-- The matcher of these rules, URL lists and public suffixes, finalized.
abbrev pub built : Externals → List Bytes → GoMap Bytes CuckooFilter → List SimpleRule → UrlMatcher
built x suffixes lists rs = finalize (
    foldl (add_rule x) (record new_url_matcher { public_suffixes = suffixes; url_lists = lists })
      rs)

-- Whether a rule matches the URL, by its type.
unfoldable pub rule_hit : Externals → List Bytes → Url → SimpleRule → Bool
rule_hit x suffixes u q = elim q.t [
  | url_match ↦ contains (candidates (host_of x u) (path_of x u)) q.content
  | url_regex ↦ regex_hit x.compile x.regex_strings (url_string x u) q
  | host_regex ↦ not (is_nil (host_of x u)) && regex_hit x.compile x.regex_strings (host_of x u) q
  | domain_regex ↦
      elim (main_domain x (record new_url_matcher { public_suffixes = suffixes })
        (plain_host x u)) [
          | none ↦ false
          | some d ↦ regex_hit x.compile x.regex_strings (decoded x d) q
        ]
  | path_regex ↦ regex_hit x.compile x.regex_strings (path_of x u) q
  | query_regex ↦ has_query x u && regex_hit x.compile x.regex_strings (query_of x u) q
  | _ ↦ false
]

-- The ACL groups that an address as the host belongs to, if its lookup does not panic.
abbrev pub address_groups : Externals → UrlMatcher → Bytes → Option (List Bytes)
address_groups x m host = elim (x.parse_ip host) [
  | none ↦ some []
  | some ip ↦ IpRange.matches x.parse_ip x.parse_cidr x.ip_string m.ip_addrs ip
]

-- A rule matches the URL, or one of its candidates is in the rule's list, or its content is the
-- text of a group of the host's address.
abbrev pub url_hit :
    Externals
    → List Bytes
    → GoMap Bytes CuckooFilter
    → List SimpleRule
    → Url
    → List Bytes
    → Rule
    → Bool
url_hit x suffixes lists rs u groups r =
    any (λ q. simple q == r && rule_hit x suffixes u q) rs
    || (any
          (λ (name, filter).
            list_rule name == r
            && any (contains_text x.hash filter) (candidates (host_of x u) (path_of x u)))
          lists
        || any (λ g. simple (record { t = ip_addr; content = g }) == r) groups)

pub swap : (a b c : Bool) → (a && (b && c)) ≡ (b && (a && c))
swap a b c = ground arith

pub and_false : (a b : Bool) → (a && (b && false)) ≡ false
and_false a b = ground arith

pub regroup :
    (d h p q g a l i : Bool)
    → (d || (h || (p || (q || (g || ((a || l) || i))))))
      ≡ ((d || (h || (p || (q || (g || a))))) || (l || i))
regroup d h p q g a l i = ground arith

-- The parts of one rule, of which only that of its type counts.
pub by_type :
    (t : RuleType) (b d h p q g a : Bool)
    → ((b && (type_number t == type_number domain_regex && d))
        || ((b && (type_number t == type_number host_regex && h))
            || ((b && (type_number t == type_number path_regex && p))
                || ((b && (type_number t == type_number query_regex && q))
                    || ((b && (type_number t == type_number url_regex && g))
                        || (b && (type_number t == type_number url_match && a)))))))
      ≡ (b && (elim t [
        | url_match ↦ a
        | url_regex ↦ g
        | host_regex ↦ h
        | domain_regex ↦ d
        | path_regex ↦ p
        | query_regex ↦ q
        | _ ↦ false
      ]))
by_type t b d h p q g a = ground arith

pub any-contains : (p : Bytes) (xs : List Bytes) → any (λ s. p == s) xs ≡ contains xs p
any-contains p [] = refl
any-contains p (s ∷ xs) = ground (arith, bytes_beq_iff p s, bytes_beq_iff s p, any-contains p xs)
