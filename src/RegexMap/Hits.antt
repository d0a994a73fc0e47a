-- ===== src/RegexMap/Hits.antt =====
-- What `findMatches` adds to the tally, as tests on the rules of the strings that were found.
use redwood_filter.Common.{
  ◌≡◌, inl, inr, refl, ap, ◌∙◌, Bool, true, false, ◌&&◌, List, [], ◌∷◌, foldl, arith, if◌then◌else◌,
  ◌==◌, nat_eq, ==→eq, Bool-cases, any, Bytes, bytes_eq,
}
use redwood_filter.Common.GoMap.{GoMap, lookup_or, insert, lookup_or-insert}
use redwood_filter.Common.Int.{pos, int_eq}
use redwood_filter.Rule.{Rule, simple, rule_eq}
use redwood_filter.Scoring.{Tally, count_of}
use redwood_filter.RegexMap.{RegexRule, RegexMap, try_rules, on_string}

-- The rule `x` is tried among these and matches.
abbrev pub hit : Bytes → Rule → RegexRule → Bool
hit s x r = simple r.rule == x && r.match_string s

pub try_rules-count_of :
    (s : Bytes) (tally : Tally) (rs : List RegexRule) (x : Rule)
    → count_of (try_rules s tally rs) x ≡ (if any (hit s x) rs then pos 1 else count_of tally x)
unfolding try_rules
try_rules-count_of s tally [] x = refl
try_rules-count_of s tally (r ∷ rs) x =
    rw
      (try_rules-count_of s
        (if r.match_string s then insert (simple r.rule) (pos 1) tally else tally) rs x)
      (elim (Bool-cases (r.match_string s)) [
        | inl e ↦ rw (e, lookup_or-insert (simple r.rule) x (pos 1) (pos 0) tally) (ground arith)
        | inr e ↦ rw e (ground arith)
      ])

module _ (rm : RegexMap) (s : Bytes) (x : Rule) where
  abbrev pub bucket_hit : Bytes → Bool
  bucket_hit p = any (hit s x) (lookup_or p [] rm.rules)

  -- A string that was tried has left its mark.
  abbrev pub IsMarked : GoMap Bytes Bool → Tally → Type 0
  IsMarked tried tally =
      (p : Bytes) → lookup_or p false tried ≡ true → bucket_hit p ≡ true → count_of tally x ≡ pos 1

  pub foldl-on_string :
      (found : List Bytes) (tried : GoMap Bytes Bool) (tally : Tally)
      → IsMarked tried tally
      → count_of (foldl (on_string rm s) (tried, tally) found).1 x
        ≡ (if any bucket_hit found then pos 1 else count_of tally x)
  unfolding on_string
  foldl-on_string [] tried tally m = refl
  foldl-on_string (p ∷ found) tried tally m = elim (Bool-cases (lookup_or p false tried)) [
    | inl e ↦
        let step : on_string rm s (tried, tally) p ≡ (tried, tally) = rw e refl in
        ap (λ st. count_of (foldl (on_string rm s) st found).1 x) step
        ∙ foldl-on_string found tried tally m
        ∙ (elim (Bool-cases (bucket_hit p)) [
          | inl h ↦ rw (h, m p e h) (ground arith)
          | inr h ↦ rw h refl
        ])
    | inr e ↦
        let rs = lookup_or p [] rm.rules in
        let tally' = try_rules s tally rs in
        let count = try_rules-count_of s tally rs x in
        let marked : IsMarked (insert p true tried) tally' = λ p' h b. elim (Bool-cases (p == p')) [
          | inl q ↦ let here : bucket_hit p ≡ true = rw (==→eq p p' q) b in rw (count, here) refl
          | inr q ↦
              let old : lookup_or p' false tried ≡ true =
                rw (lookup_or-insert p p' true false tried, q) at h in
              rw (count, m p' old b) (ground arith)
        ] in
        let step : on_string rm s (tried, tally) p ≡ (insert p true tried, tally') = rw e refl in
        ap (λ st. count_of (foldl (on_string rm s) st found).1 x) step
        ∙ foldl-on_string found (insert p true tried) tally' marked
        ∙ rw count (ground arith)
  ]
