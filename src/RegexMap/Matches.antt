-- ===== src/RegexMap/Matches.antt =====
-- `findMatches` finds what trying every rule finds.
use redwood_filter.Common.{
  ◌≡◌, inl, inr, refl, sym, ap, ◌∙◌, Bool, true, false, Option, some, List, [], ◌∷◌, foldl, arith,
  if◌then◌else◌, ◌==◌, nat_eq, ==→eq, Bool-cases, All, any, contains, Bytes, bytes_eq, ◌>>=◌,
}
use mathlib.Core.Path.{fun_ext}
use redwood_filter.Common.Anys.{if_or}
use redwood_filter.Common.GoMap.{lookup_or}
use redwood_filter.Common.Int.{pos}
use redwood_filter.Phrase.{find_fallback_nodes, phrase_matches, scan_from, matches_of, occurrences}
use redwood_filter.Phrase.Scan.{phrase_matches-occurrences}
use redwood_filter.Phrase.Parts.{occurrences-has_part}
use redwood_filter.Rule.{SimpleRule, Rule, rule_eq}
use redwood_filter.Scoring.{Tally, count_of}
use redwood_filter.RegexMap.{
  Regexp, new_regex_map, add_rule, is_empty, finalize, try_rules, on_string, find_matches,
}
use redwood_filter.RegexMap.Hits.{bucket_hit, try_rules-count_of, foldl-on_string}
use redwood_filter.RegexMap.Built.{
  Entry, strings, entry_hit, entries, built, built-string_list, built-hit, built-is_empty,
}
use redwood_filter.RegexMap.Seen.{
  seen, Complete, any-entry_hit, IsSound, regex_hits, any-seen, strings-IsBytes,
}

strings_nonempty :
    (es : List Entry) (p : Bytes) → contains (strings es) p ≡ true → (p == []) ≡ false
strings_nonempty [] p h = cc h
strings_nonempty (([], r) ∷ es) p h = strings_nonempty es p h
strings_nonempty ((c ∷ q, r) ∷ es) p h = elim (Bool-cases ((c ∷ q) == p)) [
  | inl e ↦ rw (← ==→eq (c ∷ q) p e) refl
  | inr e ↦ strings_nonempty es p (ground (arith, h, e))
]

any_empty {ℓ} : {A : Type ℓ} (f : A → Bool) (xs : List A) → is_empty xs ≡ true → any f xs ≡ false
any_empty f [] h = refl
any_empty f (x ∷ xs) h = cc h

module _ (compile : Bytes → Option Regexp) (regex_strings : Bytes → Option (List Bytes)) where
  -- The count of a rule after the scan and the rules of "".
  count_after :
      (rs : List SimpleRule) (found : List Bytes) (s : Bytes) (x : Rule) (tally : Tally)
      → (let rm = built compile regex_strings rs in
          count_of
            (try_rules s (foldl (on_string rm s) ([], tally) found).1 (lookup_or [] [] rm.rules))
            x)
        ≡ (if any (seen found s x) (entries compile regex_strings rs)
            then pos 1
            else count_of tally x)
  count_after rs found s x tally =
      let rm = built compile regex_strings rs in
      let es = entries compile regex_strings rs in
      let before = (foldl (on_string rm s) ([], tally) found).1 in
      let same : (λ p. bucket_hit rm s x p) ≡ (λ p. any (entry_hit s x p) es) =
        fun_ext (λ p. built-hit compile regex_strings rs s x p) in
      try_rules-count_of s before (lookup_or [] [] rm.rules) x
      ∙ rw
          (
            built-hit compile regex_strings rs s x [],
            foldl-on_string rm s x found [] tally (λ p h. cc h),
            same,
            if_or (any (entry_hit s x []) es) (any (λ p. any (entry_hit s x p) es) found) (pos 1)
                (count_of tally x),
            any-entry_hit found s x es,
          )
          refl

  -- For a map that is built of rules for each of which regexStrings gives strings of bytes of
  -- which every text that matches has one (or none at all), and finalized: findMatches ends
  -- within the fuel, sets the count of each rule whose expression matches the text to 1, and
  -- leaves every other count.
  pub find_matches-regex_hits :
      (rs : List SimpleRule) (s : Bytes) (tally : Tally)
      → All (IsSound compile regex_strings) rs
      → (tally' : Tally) × (find_matches
            (finalize (foldl (add_rule compile regex_strings) new_regex_map rs))
            s
            tally
          ≡ some tally')
        × ((x : Rule)
            → count_of tally' x
              ≡ (if regex_hits compile regex_strings rs s x then pos 1 else count_of tally x))
  unfolding find_matches finalize phrase_matches
  find_matches-regex_hits rs s tally sound =
      let rm = built compile regex_strings rs in
      let es = entries compile regex_strings rs in
      let found = occurrences (strings es) [] s in
      let scanned : matches_of (scan_from (find_fallback_nodes rm.string_list) 0 s) ≡ some found =
        ap (λ l. matches_of (scan_from (find_fallback_nodes l) 0 s))
          (built-string_list compile regex_strings rs)
        ∙ phrase_matches-occurrences (strings es) s
            (strings-IsBytes compile regex_strings rs sound) in
      let complete : Complete found s es =
        λ p c part. occurrences-has_part (strings es) s p c (strings_nonempty es p c) part in
      let all = λ (x : Rule). any-seen compile regex_strings found s x rs sound complete in
      elim (Bool-cases (is_empty rm.rules)) [
        | inl e ↦
            let none_there : is_empty es ≡ true =
              sym (built-is_empty compile regex_strings rs) ∙ e in
            (
              tally,
              rw (find_matches, e) refl,
              λ x. rw (← all x, any_empty (seen found s x) es none_there) refl,
            )
        | inr e ↦ (
          try_rules s (foldl (on_string rm s) ([], tally) found).1 (lookup_or [] [] rm.rules),
          rw (find_matches, e, scanned, ◌>>=◌) refl,
          λ x. count_after rs found s x tally ∙ rw (all x) refl,
        )
      ]
