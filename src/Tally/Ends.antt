-- ===== src/Tally/Ends.antt =====
-- parseTally ends within its fuel.
use redwood_filter.Common.{
  length-drop, ℕ, zero, suc, ◌+◌, ◌≤◌, ◌<◌, inl, inr, Option, none, some, [], ◌∷◌, arith, ◌==◌,
  nat_eq, Bool-cases, length, set, drop, contains, Bytes, codes, bytes_eq,
}
use redwood_filter.Common.GoMap.{insert}
use redwood_filter.Common.Text.{has_prefix}
use redwood_filter.Common.Int.{ℤ}
use redwood_filter.Combinators.{
  Parsed, ok, failed, cut_short, trim_left, tag, then_else, trim_set, take_any1, opt, recognize2,
  map_with_error, integer,
}
use redwood_filter.Rule.{rule_eq}
use redwood_filter.Rule.Parse.{parse_compound_rule}
use redwood_filter.Rule.Ends.{
  Settles, then_else-Settles, tag-Settles, trim_left-le, has_prefix-length,
  parse_compound_rule-Settles,
}
use redwood_filter.Scoring.{Tally}
use redwood_filter.Tally.{tally_loop, parse_tally}
use redwood_filter.Tally.Numbers.{digits}
use redwood_filter.Word.{Unicode}

trim_set-le : (set s : Bytes) → length (trim_set set s) ≤ length s
trim_set-le set [] = omega arith
trim_set-le set (c ∷ s) = elim (Bool-cases (contains set c)) [
  | inl e ↦ rw e (omega (arith, trim_set-le set s))
  | inr e ↦ rw e (omega arith)
]

take_any1-Settles : (set s : Bytes) → Settles (length s) (take_any1 set s)
unfolding take_any1
take_any1-Settles set s = elim (Bool-cases (length (trim_set set s) == length s)) [
  | inl e ↦ rw (take_any1, e) tt
  | inr e ↦ rw (take_any1, e) (trim_set-le set s)
]

module _ (atoi : Bytes → Option ℤ) where
  sign-Settles : (s : Bytes) → Settles (length s) (opt (tag (codes "-")) s)
  unfolding opt
  sign-Settles s =
      then_else-Settles (length s) (length s) (tag (codes "-") s) _ _
        (tag-Settles (codes "-") s (length s) (omega arith)) (λ v rest h. h) (λ rest. omega arith)

  number-Settles :
      (s : Bytes) → Settles (length s) (recognize2 (opt (tag (codes "-"))) (take_any1 digits) s)
  unfolding recognize2
  number-Settles s =
      then_else-Settles (length s) (length s) (opt (tag (codes "-")) s) _ _ (sign-Settles s)
        (λ v rest h.
          then_else-Settles (length rest) (length s) (take_any1 digits rest) _ _
            (take_any1-Settles digits rest) (λ v' rest' k. omega (arith, h, k)) (λ rest. tt))
        (λ rest. tt)

  converted :
      (o : Option ℤ) (n : ℕ) (rest : Bytes)
      → length rest ≤ n
      → Settles {A = ℤ} n (elim o [ none ↦ failed rest | some u ↦ ok u rest ])
  converted none n rest h = tt
  converted (some u) n rest h = h

  pub integer-Settles : (s : Bytes) → Settles (length s) (integer atoi s)
  unfolding integer map_with_error
  integer-Settles s =
      then_else-Settles (length (trim_left s)) (length s)
        (recognize2 (opt (tag (codes "-"))) (take_any1 digits) (trim_left s)) _ _
        (number-Settles (trim_left s))
        (λ v rest h. converted (atoi v) (length s) rest (omega (arith, h, trim_left-le s)))
        (λ rest. tt)

weaken : (m n : ℕ) (p : Parsed Tally) → m ≤ n → Settles m p → Settles n p
weaken m n (ok v rest) l k = omega (arith, l, k)
weaken m n (failed rest) l k = tt
weaken m n cut_short l k = k

module _ (x : Unicode) (atoi : Bytes → Option ℤ) where
  -- Behind a comma there is less text.
  comma-Settles :
      (tally : Tally) (f : Bytes → Parsed Tally) (s : Bytes)
      → ((t : Bytes) → length t < length s → Settles (length t) (f t))
      → Settles (length s) (then_else (tag (codes ",") s) (λ _ rest. f rest) (ok tally))
  unfolding tag
  comma-Settles tally f s h = elim (Bool-cases (has_prefix (trim_left s) (codes ","))) [
    | inr e ↦ rw (tag, e) (omega arith)
    | inl e ↦
        let rest = drop 1 (trim_left s) in
        let short : length rest < length s = omega (
          arith,
          length-drop 1 (trim_left s),
          has_prefix-length (trim_left s) (codes ",") e,
          trim_left-le s,
        ) in
        rw (tag, e) (weaken (length rest) (length s) (f rest) (omega (arith, short)) (h rest short))
  ]

  pub tally_loop-Settles :
      (fuel : ℕ) (tally : Tally) (s : Bytes)
      → length s < fuel
      → Settles (length s) (tally_loop x atoi fuel tally s)
  unfolding tally_loop
  tally_loop-Settles zero tally s h = absurd (omega (arith, h))
  tally_loop-Settles (suc fuel) tally s h =
      then_else-Settles (length s) (length s) (parse_compound_rule x (length s + 1) s) _ _
        (parse_compound_rule-Settles x (length s + 1) s (omega arith))
        (λ r rest k.
          then_else-Settles (length rest) (length s) (integer atoi rest) _ _
            (integer-Settles atoi rest)
            (λ n rest' l. weaken (length rest') (length s) _ (omega (arith, k, l)) (
              comma-Settles (insert r n tally) (tally_loop x atoi fuel (insert r n tally)) rest'
                (λ t short.
                  tally_loop-Settles fuel (insert r n tally) t (omega (arith, h, k, l, short)))))
            (λ rest. tt))
        (λ rest. tt)

  -- parseTally ends on every text: it leaves no more text than there was, or it fails.
  pub parse_tally-Settles : (input : Bytes) → Settles (length input) (parse_tally x atoi input)
  unfolding parse_tally
  parse_tally-Settles input = tally_loop-Settles (length input + 1) [] input (omega arith)
