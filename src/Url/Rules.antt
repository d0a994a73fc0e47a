-- ===== src/Url/Rules.antt =====
-- MatchingRules finds the rules that match when each is tried by itself.
use redwood_filter.Common.{
  ◌+◌, ◌≡◌, inl, inr, refl, sym, ap, ◌∙◌, Bool, true, false, not, ◌&&◌, ◌||◌, Option, none, some,
  List, [], foldl, arith, if◌then◌else◌, ◌==◌, nat_eq, Option-cases, length, All, any, contains,
  Bytes, bytes_eq, ◌>>=◌,
}
use mathlib.Core.Option.{some-injective}
use redwood_filter.Common.Anys.{any_or, any-nothing, any_same}
use redwood_filter.Common.GoMap.{GoMap}
use redwood_filter.Common.Int.{pos, int_eq}
use redwood_filter.Cuckoo.{CuckooFilter, contains_text}
use redwood_filter.IpRange
use redwood_filter.RegexMap
use redwood_filter.RegexMap.{RegexMap, new_regex_map, find_matches}
use redwood_filter.RegexMap.Seen.{IsSound, regex_hit}
use redwood_filter.RegexMap.Matches.{find_matches-regex_hits}
use redwood_filter.Rule.{
  SimpleRule, Rule, simple, rule_eq, RuleType, url_match, ip_addr, url_regex, host_regex,
  domain_regex, path_regex, query_regex,
}
use redwood_filter.Scoring.{Tally, count_of}
use redwood_filter.Url.{
  Externals, Url, UrlMatcher, new_url_matcher, is_nil, add_regex, finalize, main_domain,
}
use redwood_filter.Url.Matching.{
  plain_host, decoded, host_of, path_of, query_of, has_query, url_string, match_domain, match_ip,
  matching_rules,
}
use redwood_filter.Url.Candidates.{candidates}
use redwood_filter.Url.Tested.{
  Gives, Gives-bind, Gives-same, Gives-some, Sets-none, foldl-Sets, insert-Sets, list_rule,
  text_hit, test_hosts-Gives,
}
use redwood_filter.Url.Types.{
  has_type, is_regex, of_type, of_type-All, any-of_type, foldl-regexes, foldl-host_regexes,
  foldl-domain_regexes, foldl-path_regexes, foldl-query_regexes, foldl-rest,
}
use redwood_filter.Url.Hits.{
  built, rule_hit, address_groups, url_hit, swap, and_false, regroup, by_type,
}
use redwood_filter.Url.Lookup.{texts-hit}

module _ (x : Externals) (suffixes : List Bytes) (lists : GoMap Bytes CuckooFilter) where
  abbrev start : UrlMatcher
  start = record new_url_matcher { public_suffixes = suffixes; url_lists = lists }

  -- regexStrings is right about the rule, if it is one with a regular expression.
  abbrev pub IsSoundRegex : SimpleRule → Type 0
  IsSoundRegex r = is_regex r.t ≡ true → IsSound x.compile x.regex_strings r

  module _ (rs : List SimpleRule) where
    -- A rule of this type whose expression matches the text.
    abbrev typed_hit : RuleType → Bytes → Rule → Bool
    typed_hit t s r =
        any (λ q. simple q == r && (has_type t q && regex_hit x.compile x.regex_strings s q)) rs

    regex-Gives :
        (t : RuleType) (rm : RegexMap) (s : Bytes) (tally : Tally)
        → is_regex t ≡ true
        → All IsSoundRegex rs
        → rm ≡ foldl (add_regex x) new_regex_map (of_type t rs)
        → Gives (typed_hit t s) tally (find_matches (RegexMap.finalize rm) s tally)
    regex-Gives t rm s tally i sound same =
        let (tally', ends, sets) =
          find_matches-regex_hits x.compile x.regex_strings (of_type t rs) s tally
            (of_type-All (IsSound x.compile x.regex_strings) t rs i sound) in
        Gives-same
          (λ r.
            any-of_type (λ q. simple q == r && regex_hit x.compile x.regex_strings s q) t rs
            ∙ any_same _ _
                (λ q. swap (has_type t q) (simple q == r) (regex_hit x.compile x.regex_strings s q))
                rs)
          (record { tally = tally'; ends = rw same ends; sets = record { at = sets } })

    -- The part of `rule_hit` for the rules of a type, under a condition.
    abbrev part_hit : RuleType → (SimpleRule → Bool) → Rule → Bool
    part_hit t f r = any (λ q. simple q == r && (has_type t q && f q)) rs

    no_part : (t : RuleType) (r : Rule) → false ≡ part_hit t (λ q. false) r
    no_part t r =
        sym (any_same _ _ (λ q. and_false (simple q == r) (has_type t q)) rs ∙ any-nothing rs)

    given-Gives :
        (t : RuleType) (given : Bool) (rm : RegexMap) (s : Bytes) (tally : Tally)
        → is_regex t ≡ true
        → All IsSoundRegex rs
        → rm ≡ foldl (add_regex x) new_regex_map (of_type t rs)
        → Gives
            (part_hit t (λ q. given && regex_hit x.compile x.regex_strings s q))
            tally
            (if given then find_matches (RegexMap.finalize rm) s tally else some tally)
    given-Gives t true rm s tally i sound same = regex-Gives t rm s tally i sound same
    given-Gives t false rm s tally i sound same =
        Gives-same (no_part t) (Gives-some (Sets-none tally))

    domain-Gives :
        (o : Option Bytes) (tally : Tally)
        → All IsSoundRegex rs
        → Gives
            (part_hit domain_regex (λ q. elim o [
              | none ↦ false
              | some d ↦ regex_hit x.compile x.regex_strings (decoded x d) q
            ]))
            tally
            (match_domain x (built x suffixes lists rs) o tally)
    unfolding match_domain finalize
    domain-Gives none tally sound = Gives-same (no_part domain_regex) (Gives-some (Sets-none tally))
    domain-Gives (some d) tally sound =
        regex-Gives domain_regex _ (decoded x d) tally refl sound (foldl-domain_regexes x rs start)

    module _ (u : Url) where
      collect :
          (d h p q g a : SimpleRule → Bool) (l i : Bool)
          → (any d rs
              || (any h rs || (any p rs || (any q rs || (any g rs || ((any a rs || l) || i))))))
            ≡ (any (λ s. d s || (h s || (p s || (q s || (g s || a s))))) rs || (l || i))
      collect d h p q g a l i =
          rw
            (
              any_or d (λ s. h s || (p s || (q s || (g s || a s)))) rs,
              any_or h (λ s. p s || (q s || (g s || a s))) rs,
              any_or p (λ s. q s || (g s || a s)) rs,
              any_or q (λ s. g s || a s) rs,
              any_or g a rs,
            )
            (regroup (any d rs) (any h rs) (any p rs) (any q rs) (any g rs) (any a rs) l i)

      ip-Gives :
          (m : UrlMatcher) (host : Bytes) (groups : List Bytes) (tally : Tally)
          → address_groups x m host ≡ some groups
          → Gives
              (λ r. any (λ g. simple (record { t = ip_addr; content = g }) == r) groups)
              tally
              (match_ip x m host tally)
      unfolding match_ip
      ip-Gives m host groups tally h = elim (Option-cases (x.parse_ip host)) [
        | inl e ↦
            let same : [] ≡ groups = some-injective _ _ (rw (address_groups, e) at h) in
            rw (match_ip, e, ← same) (Gives-some (Sets-none tally))
        | inr (ip, e) ↦
            let found : IpRange.matches x.parse_ip x.parse_cidr x.ip_string m.ip_addrs ip
                ≡ some groups =
              rw (address_groups, e) at h in
            rw (match_ip, e, found, ◌>>=◌)
              (Gives-some (
                foldl-Sets _ (λ g r. simple (record { t = ip_addr; content = g }) == r)
                  (λ t g. insert-Sets (simple (record { t = ip_addr; content = g })) t) groups
                  tally))
      ]

      main_domain-built :
          (host : Bytes)
          → main_domain x (built x suffixes lists rs) host
            ≡ main_domain x (record new_url_matcher { public_suffixes = suffixes }) host
      unfolding main_domain finalize
      main_domain-built host = rw ((foldl-rest x rs start).1) refl

      domain_found :
          All IsSoundRegex rs
          → Gives
              (part_hit domain_regex (λ q.
                elim (main_domain x
                  (record new_url_matcher { public_suffixes = suffixes })
                  (plain_host x u)) [
                    | none ↦ false
                    | some d ↦ regex_hit x.compile x.regex_strings (decoded x d) q
                  ]))
              []
              (match_domain x
                (built x suffixes lists rs)
                (main_domain x (built x suffixes lists rs) (plain_host x u))
                [])
      domain_found sound = rw (main_domain-built (plain_host x u)) (domain-Gives _ [] sound)

      -- The tests of the steps in order, against the test of each rule by its type.
      same_hits :
          (groups : List Bytes) (r : Rule)
          → (part_hit domain_regex
                (λ q.
                  elim (main_domain x
                    (record new_url_matcher { public_suffixes = suffixes })
                    (plain_host x u)) [
                      | none ↦ false
                      | some d ↦ regex_hit x.compile x.regex_strings (decoded x d) q
                    ])
                r
              || (part_hit host_regex
                    (λ q.
                      not (is_nil (host_of x u))
                      && regex_hit x.compile x.regex_strings (host_of x u) q)
                    r
                  || (part_hit path_regex
                        (λ q. true && regex_hit x.compile x.regex_strings (path_of x u) q)
                        r
                      || (part_hit query_regex
                            (λ q.
                              has_query x u && regex_hit x.compile x.regex_strings (query_of x u) q)
                            r
                          || (part_hit url_regex
                                (λ q.
                                  true && regex_hit x.compile x.regex_strings (url_string x u) q)
                                r
                              || (any
                                    (text_hit x (built x suffixes lists rs) r)
                                    (candidates (host_of x u) (path_of x u))
                                  || any
                                      (λ g. simple (record { t = ip_addr; content = g }) == r)
                                      groups))))))
            ≡ url_hit x suffixes lists rs u groups r
      unfolding rule_hit
      same_hits groups r =
          let cs = candidates (host_of x u) (path_of x u) in
          let part : RuleType → (SimpleRule → Bool) → SimpleRule → Bool =
            λ t f q. simple q == r && (has_type t q && f q) in
          let on : Bytes → SimpleRule → Bool = λ s q. regex_hit x.compile x.regex_strings s q in
          let d : SimpleRule → Bool = λ q.
            elim (main_domain x (record new_url_matcher { public_suffixes = suffixes })
              (plain_host x u)) [ none ↦ false | some d ↦ on (decoded x d) q ] in
          let h : SimpleRule → Bool = λ q. not (is_nil (host_of x u)) && on (host_of x u) q in
          let k : SimpleRule → Bool = λ q. has_query x u && on (query_of x u) q in
          let a : SimpleRule → Bool = λ q. contains cs q.content in
          let in_list : Bool =
            any (λ (name, filter). list_rule name == r && any (contains_text x.hash filter) cs)
              lists in
          let in_groups : Bool =
            any (λ g. simple (record { t = ip_addr; content = g }) == r) groups in
          ap
            (λ b.
              any (part domain_regex d) rs
              || (any (part host_regex h) rs
                  || (any (part path_regex (on (path_of x u))) rs
                      || (any (part query_regex k) rs
                          || (any (part url_regex (on (url_string x u))) rs || (b || in_groups))))))
            (texts-hit x suffixes lists rs cs r)
          ∙ (collect (part domain_regex d) (part host_regex h) (part path_regex (on (path_of x u)))
                (part query_regex k) (part url_regex (on (url_string x u))) (part url_match a)
                in_list in_groups
              ∙ ap (λ b. b || (in_list || in_groups))
                  (any_same _ _
                    (λ q.
                      by_type q.t (simple q == r) (d q) (h q) (on (path_of x u) q) (k q)
                        (on (url_string x u) q) (a q))
                    rs))

      -- For a finalized matcher of rules, where regexStrings gives for each regular expression
      -- among them strings of bytes of which every matching text has one (or none at all), and a host whose lookup as an address
      -- does not panic: MatchingRules ends within the fuel, gives count 1 to each rule that matches the
      -- URL when it is tried by itself (a fragment among the parent domains, alone and with initial
      -- parts of the path, or an expression on the text of its type), to each URL list that has one
      -- of these texts and to each group of the address, and count 0 to every other rule.
      pub matching_rules-url_hit :
          (groups : List Bytes)
          → All IsSoundRegex rs
          → address_groups x (built x suffixes lists rs) (host_of x u) ≡ some groups
          → (tally : Tally) × (matching_rules x (built x suffixes lists rs) u ≡ some tally)
            × ((r : Rule)
                → count_of tally r
                  ≡ (if url_hit x suffixes lists rs u groups r then pos 1 else pos 0))
      unfolding matching_rules match_domain finalize rule_hit
      matching_rules-url_hit groups sound addresses =
          let host = host_of x u in
          let path = path_of x u in
          let m = built x suffixes lists rs in
          let domain = domain_found sound in
          let found = Gives-bind domain (λ t1.
            Gives-bind
              (given-Gives host_regex (not (is_nil host)) _ host t1 refl sound
                (foldl-host_regexes x rs start))
              (λ t2.
                Gives-bind
                  (given-Gives path_regex true _ path t2 refl sound (foldl-path_regexes x rs start))
                  (λ t3.
                    Gives-bind
                      (given-Gives query_regex (has_query x u) _ (query_of x u) t3 refl sound
                        (foldl-query_regexes x rs start))
                      (λ t4.
                        Gives-bind
                          (given-Gives url_regex true _ (url_string x u) t4 refl sound
                            (foldl-regexes x rs start))
                          (λ t5.
                            Gives-bind
                              (test_hosts-Gives x m (length host + 1) host path t5 (omega arith))
                              (λ t6. ip-Gives m host groups t6 addresses)))))) in
          let all = Gives-same (same_hits groups) found in (all.tally, all.ends, all.sets.at)
