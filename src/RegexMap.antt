-- ===== src/RegexMap.antt =====
-- url.go, the type regexMap: regular-expression rules, found by the literal strings that a match
-- must contain. A compiled regular expression is its method MatchString. Parameters of the section
-- are regexp.Compile and regexStrings (restring.go, a modified copy of a file of codesearch).
--   add_rule          addRule: the rule goes to each of its strings, or to "" if it has none
--   find_matches      findMatches: the rules of the strings that the scanner finds, then those of ""
--   finalize          what URLMatcher.finalize does to each map
mod Hits
mod Built
pub mod Seen
pub mod Matches
mod Tests
use redwood_filter.Common.{
  ℕ, Bool, true, false, Option, none, some, List, [], ◌∷◌, ◌++◌, foldl, ltb, if◌then◌else◌, ◌==◌,
  nat_eq, length, Bytes, bytes_eq, ◌>>=◌,
}
use redwood_filter.Common.GoMap.{GoMap, lookup_or, insert}
use redwood_filter.Common.Int.{pos}
use redwood_filter.Phrase.{
  PhraseList, new_phrase_list, add_phrase, find_fallback_nodes, scan_from, matches_of,
}
use redwood_filter.Rule.{SimpleRule, simple, rule_eq}
use redwood_filter.Scoring.{Tally}

abbrev pub Regexp : Type 0
Regexp = Bytes → Bool

pub record RegexRule : Type 0 where
  pub rule : SimpleRule
  pub match_string : Regexp

pub record RegexMap : Type 0 where
  pub string_list : PhraseList
  pub rules : GoMap Bytes (List RegexRule)

abbrev pub new_regex_map : RegexMap
new_regex_map = record { string_list = new_phrase_list; rules = [] }

-- minLen, of restring.go
abbrev pub shorter : ℕ → Bytes → ℕ
shorter m s = if ltb (length s) m then length s else m

unfoldable pub min_len : List Bytes → ℕ
min_len [] = 0
min_len (s ∷ ss) = foldl shorter (length s) (s ∷ ss)

-- rm.rules[p] = append(rm.rules[p], r)
abbrev pub append_rule : RegexMap → Bytes → RegexRule → RegexMap
append_rule rm p r = record rm { rules = insert p (lookup_or p [] rm.rules ++ r ∷ []) rm.rules }

-- one round of the loop over the strings
pub add_string : RegexRule → RegexMap → Bytes → RegexMap
add_string r rm p = append_rule (record rm { string_list = add_phrase rm.string_list p }) p r

module _ (compile : Bytes → Option Regexp) (regex_strings : Bytes → Option (List Bytes)) where
  pub store : RegexMap → RegexRule → Option (List Bytes) → RegexMap
  store rm r none = append_rule rm [] r
  store rm r (some ss) = if min_len ss == 0 then append_rule rm [] r else foldl (add_string r) rm ss

  -- A regular expression that does not compile is logged, and its rule is left out.
  unfoldable pub add_rule : RegexMap → SimpleRule → RegexMap
  unfolding store add_string
  add_rule rm r = elim (compile r.content) [
    | none ↦ rm
    | some re ↦ store rm (record { rule = r; match_string = re }) (regex_strings r.content)
  ]

unfoldable pub finalize : RegexMap → RegexMap
finalize rm = record rm { string_list = find_fallback_nodes rm.string_list }

-- The loop over the rules of one string.
unfoldable pub try_rules : Bytes → Tally → List RegexRule → Tally
try_rules s tally [] = tally
try_rules s tally (r ∷ rs) =
    try_rules s (if r.match_string s then insert (simple r.rule) (pos 1) tally else tally) rs

-- The scanner's callback, on the strings tried so far and the tally.
pub on_string : RegexMap → Bytes → GoMap Bytes Bool × Tally → Bytes → GoMap Bytes Bool × Tally
on_string rm s (tried, tally) p =
    if lookup_or p false tried
    then (tried, tally)
    else (insert p true tried, try_rules s tally (lookup_or p [] rm.rules))

abbrev pub is_empty {ℓ} : {A : Type ℓ} → List A → Bool
is_empty [] = true
is_empty (x ∷ xs) = false

-- The tally afterwards; `none` is a scan that its fuel cut short.
unfoldable pub find_matches : RegexMap → Bytes → Tally → Option Tally
unfolding on_string try_rules
find_matches rm s tally = if is_empty rm.rules then some tally else (do
  found ← matches_of (scan_from rm.string_list 0 s)
  some (try_rules s (foldl (on_string rm s) ([], tally) found).1 (lookup_or [] [] rm.rules)))
