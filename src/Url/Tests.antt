-- ===== src/Url/Tests.antt =====
-- A run of the URL matcher, and the witness of its property. Regular expressions are literal texts.
use redwood_filter.Common.{
  ◌≡◌, refl, true, none, some, List, [], ◌∷◌, arith, if◌then◌else◌, nat_eq, length, IsBytes, codes,
  bytes_eq,
}
use mathlib.Core.Option.{some-injective}
use redwood_filter.Common.Int.{pos, int_eq}
use redwood_filter.Common.Text.{has_part}
use redwood_filter.RegexMap.{Regexp}
use redwood_filter.RegexMap.Seen.{IsSound}
use redwood_filter.Rule.{SimpleRule, Rule, simple, rule_eq, url_match, host_regex}
use redwood_filter.Scoring.{Tally, count_of}
use redwood_filter.Url.{Externals, Url}
use redwood_filter.Url.Matching.{matching_rules}
use redwood_filter.Url.Hits.{built, rule_hit, url_hit}
use redwood_filter.Url.Rules.{matching_rules-url_hit}

abbrev pub externals : Externals
externals = record {
  compile = λ s. some (λ text. has_part text s);
  regex_strings = λ s. some (s ∷ []);
  to_lower = λ s. s;
  public_suffix = λ s. codes "com";
  to_unicode = λ s. some s;
  query_unescape = λ s. some s;
  hash = λ s. length s;
  parse_ip = λ s. none;
  parse_cidr = λ s. none;
  ip_string = λ s. s;
}

abbrev rules : List SimpleRule
rules =
    record { t = url_match; content = codes "example.com/ads" }
    ∷ record { t = host_regex; content = codes "www" }
    ∷ []

abbrev url : Url
url = record {
  scheme = codes "http";
  host = codes "www.example.com:80";
  path = codes "/ads/1";
  raw_query = [];
}

literal-IsSound :
    (r : SimpleRule) → IsBytes r.content → IsSound externals.compile externals.regex_strings r
literal-IsSound r b = record {
  bytes = λ ss e. rw (← some-injective (r.content ∷ []) ss e) (b, tt);
  needed = λ ss re text e f m h. rw (← some-injective (r.content ∷ []) ss e) (
      let same : (λ t. has_part t r.content) ≡ re = some-injective _ re f in
      let part : has_part text r.content ≡ true = rw (← same) at h in rw part refl);
}

matching_rules-url_hit_example :
    (tally : Tally) × (matching_rules externals (built externals [] [] rules) url ≡ some tally)
    × ((r : Rule)
        → count_of tally r ≡ (if url_hit externals [] [] rules url [] r then pos 1 else pos 0))
matching_rules-url_hit_example =
    matching_rules-url_hit externals [] [] rules url []
      (
        λ i. cc i,
        (λ i. literal-IsSound (record { t = host_regex; content = codes "www" }) (omega arith), tt),
      )
      refl

url_hit_runs :
    (url_hit externals [] [] rules url []
        (simple (record { t = url_match; content = codes "example.com/ads" }))
      ≡ true)
    × (url_hit externals [] [] rules url []
          (simple (record { t = host_regex; content = codes "www" }))
        ≡ true)
unfolding rule_hit redwood_filter.Url.without_port redwood_filter.RegexMap.Seen.regex_hit
url_hit_runs = (refl, refl)
