-- ===== src/Scoring.antt =====
-- categories.go, the scores: what compound rules add to the tally of matched rules, and the score
-- of each category. A compoundRule is the triple of its fields.
--   add_compound             addRule, as far as it changes cf.CompoundRules
--   collect_compound         collectRules, likewise
--   apply_compound_rules     applyCompoundRules
--   score                    the method `score`, with the map `ruleScores` where the caller gives one
--   category_scores          categoryScores, with the tally that it leaves behind
mod Partial
mod Compound
mod Total
mod Tests
use redwood_filter.Common.{
  Bool, not, ◌&&◌, ◌||◌, Option, none, some, List, [], ◌∷◌, ◌++◌, foldl, if◌then◌else◌, ◌==◌,
  nat_eq, Bytes, codes, bytes_eq,
}
use redwood_filter.Common.GoMap.{GoMap, lookup_or, insert, keys}
use redwood_filter.Common.Int.{ℤ, pos, ◌+ℤ◌, ◌*ℤ◌, ltb_ℤ, int_eq}
use redwood_filter.Rule.{Rule, simple, compound, rule_eq, rule_string, Weight, no_weight, Category}

abbrev pub CompoundRule : Type 0
CompoundRule = Rule × (Bytes × Rule)

abbrev pub Tally : Type 0
Tally = GoMap Rule ℤ

-- tally[r]
abbrev pub count_of : Tally → Rule → ℤ
count_of tally r = lookup_or r (pos 0) tally

-- The rules that a compound rule joins are added before it.
unfoldable pub add_compound : List CompoundRule → Rule → List CompoundRule
add_compound rules (simple r) = rules
add_compound rules (compound left op right) =
    add_compound (add_compound rules left) right ++ (left, (op, right)) ∷ []

-- the loops over the categories and the keys of their weights
unfoldable pub collect_compound : GoMap Bytes Category → List CompoundRule → List CompoundRule
collect_compound [] rules = rules
collect_compound ((k, c) ∷ categories) rules =
    collect_compound categories (foldl add_compound rules (keys c.weights))

-- the switch on the operator
unfoldable pub combine : Bytes → ℤ → ℤ → ℤ
combine op left right =
    if op == codes "&"
    then (if ltb_ℤ right left then right else left)
    else if op == codes "|"
    then (if ltb_ℤ left right then right else left)
    else if op == codes "&!"
    then (if not (right == pos 0) then pos 0 else left)
    else left

-- one round of the loop of `applyCompoundRules`
pub apply_compound : Tally → CompoundRule → Tally
apply_compound tally (left, (op, right)) =
    let combined = combine op (count_of tally left) (count_of tally right) in
    if not (combined == pos 0) then insert (compound left op right) combined tally else tally

unfoldable pub apply_compound_rules : List CompoundRule → Tally → Tally
unfolding apply_compound combine
apply_compound_rules rules tally = foldl apply_compound tally rules

pub record RuleScore : Type 0 where
  pub count : ℤ
  pub score : ℤ

-- what one matched rule adds to the score, from its weight
unfoldable pub rule_points : Bool → Weight → ℤ → ℤ
rule_points count_once w count =
    let p = if count_once then w.points else w.points *ℤ count in
    if not (w.max_points == pos 0)
      && (ltb_ℤ (pos 0) p && ltb_ℤ w.max_points p || ltb_ℤ p (pos 0) && ltb_ℤ p w.max_points)
    then w.max_points
    else p

abbrev put_rule_score :
    Rule → RuleScore → Option (GoMap Bytes RuleScore) → Option (GoMap Bytes RuleScore)
put_rule_score r s none = none
put_rule_score r s (some m) = some (insert (rule_string r) s m)

abbrev pub Scored : Type 0
Scored = ℤ × Option (GoMap Bytes RuleScore)

-- one round of the loop of `score`
add_score : Bool → GoMap Rule Weight → Scored → Rule × ℤ → Scored
add_score count_once weights (total, rule_scores) (r, n) =
    let w = lookup_or r no_weight weights in
    let p = rule_points count_once w n in
    if w.points == pos 0
    then (total, rule_scores)
    else (total +ℤ p, put_rule_score r (record { count = n; score = p }) rule_scores)

unfoldable pub score : Bool → Category → Tally → Option (GoMap Bytes RuleScore) → Scored
unfolding add_score rule_points
score count_once c tally rule_scores =
    foldl (add_score count_once c.weights) (pos 0, rule_scores) tally

-- the loop of `categoryScores`
score_categories : Bool → Tally → GoMap Bytes ℤ → GoMap Bytes Category → GoMap Bytes ℤ
score_categories count_once tally scores [] = scores
score_categories count_once tally scores ((k, c) ∷ categories) =
    let s = (score count_once c tally none).0 in
    score_categories count_once tally (if not (s == pos 0) then insert c.name s scores else scores)
      categories

-- A nil map reads like an empty one.
unfoldable pub category_scores :
    Bool → GoMap Bytes Category → List CompoundRule → Tally → GoMap Bytes ℤ × Tally
unfolding score_categories
category_scores count_once categories rules [] = ([], [])
category_scores count_once categories rules (e ∷ tally) =
    let tally' = apply_compound_rules rules (e ∷ tally) in
    (score_categories count_once tally' [] categories, tally')
