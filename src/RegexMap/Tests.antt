-- ===== src/RegexMap/Tests.antt =====
-- Runs of a map of regular expressions, and the witness of its property. The only expressions are
-- literal texts.
use redwood_filter.Common.{
  ◌≡◌, refl, true, Option, some, List, [], ◌∷◌, foldl, arith, if◌then◌else◌, nat_eq, Bytes, IsBytes,
  codes, bytes_eq,
}
use mathlib.Core.Option.{some-injective}
use redwood_filter.Common.Int.{pos, int_eq}
use redwood_filter.Common.Text.{has_part}
use redwood_filter.Rule.{SimpleRule, Rule, simple, rule_eq, url_regex}
use redwood_filter.Scoring.{Tally, count_of}
use redwood_filter.RegexMap.{Regexp, new_regex_map, add_rule, finalize, find_matches}
use redwood_filter.RegexMap.Seen.{IsSound, regex_hit, regex_hits}
use redwood_filter.RegexMap.Matches.{find_matches-regex_hits}

abbrev literal : Bytes → Option Regexp
literal s = some (λ text. has_part text s)

abbrev its_text : Bytes → Option (List Bytes)
its_text s = some (s ∷ [])

abbrev url_rule : Bytes → SimpleRule
url_rule s = record { t = url_regex; content = s }

abbrev rules : List SimpleRule
rules = url_rule (codes "ads") ∷ url_rule (codes "shop") ∷ []

ads-IsSound : (s : Bytes) → IsBytes s → IsSound literal its_text (url_rule s)
ads-IsSound s b = record {
  bytes = λ ss e. rw (← some-injective (s ∷ []) ss e) (b, tt);
  needed = λ ss re text e f m h. rw (← some-injective (s ∷ []) ss e) (
      let same : (λ t. has_part t s) ≡ re = some-injective _ re f in
      let part : has_part text s ≡ true = rw (← same) at h in rw part refl);
}

find_matches-regex_hits_example :
    (tally : Tally) × (find_matches
        (finalize (foldl (add_rule literal its_text) new_regex_map rules))
        (codes "ads.example.com")
        []
      ≡ some tally)
    × ((x : Rule)
        → count_of tally x ≡ (
            if regex_hits literal its_text rules (codes "ads.example.com") x
            then pos 1
            else count_of [] x))
find_matches-regex_hits_example =
    find_matches-regex_hits literal its_text rules (codes "ads.example.com") []
      (ads-IsSound (codes "ads") (omega arith), (ads-IsSound (codes "shop") (omega arith), tt))

regex_hits_runs :
    regex_hits literal its_text rules (codes "ads.example.com") (simple (url_rule (codes "ads")))
    ≡ true
unfolding regex_hit
regex_hits_runs = refl
