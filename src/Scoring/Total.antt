-- ===== src/Scoring/Total.antt =====
-- The total score of a category, and the map of the scores.
use redwood_filter.Common.{
  ◌≡◌, inl, inr, refl, sym, ap, ap₂, ◌∙◌, Bool, true, not, ◌&&◌, Option, none, some, List, [], ◌∷◌,
  foldl, arith, if◌then◌else◌, ◌==◌, nat_eq, Bool-cases, Option-cases, contains, Bytes,
  bytes_beq_iff, bytes_eq,
}
use mathlib.Core.List.{Perm, Permᴰ}
use mathlib.Core.List.Permᴰ
use mathlib.Core.Logic.{∥∥₁_elim}
use redwood_filter.Common.GoMap.{
  GoMap, IsMap, lookup, lookup_or, insert, keys, lookup-insert, lookup-absent,
}
use redwood_filter.Common.Int.{ℤ, pos, ◌+ℤ◌, int_eq, +ℤ_comm, +ℤ_parts, eq_of_parts}
use redwood_filter.Rule.{Rule, rule_eq, Weight, no_weight, Category}
use redwood_filter.Scoring.{
  CompoundRule, Tally, RuleScore, Scored, rule_points, add_score, score, score_categories,
  category_scores, apply_compound_rules,
}

ℤ_set : IsSet ℤ
ℤ_set = hlevel

+ℤ_assoc : (a b c : ℤ) → a +ℤ b +ℤ c ≡ a +ℤ (b +ℤ c)
+ℤ_assoc a b c = ground (
  arith,
  +ℤ_parts a b,
  +ℤ_parts (a +ℤ b) c,
  +ℤ_parts b c,
  +ℤ_parts a (b +ℤ c),
  eq_of_parts (a +ℤ b +ℤ c) (a +ℤ (b +ℤ c)),
)

+ℤ_zero : (a : ℤ) → a +ℤ pos 0 ≡ a
+ℤ_zero a = ground (arith, +ℤ_parts a (pos 0), eq_of_parts (a +ℤ pos 0) a)

+ℤ_swap : (a b c : ℤ) → a +ℤ (b +ℤ c) ≡ b +ℤ (a +ℤ c)
+ℤ_swap a b c = sym (+ℤ_assoc a b c) ∙ ap (λ x. x +ℤ c) (+ℤ_comm a b) ∙ +ℤ_assoc b a c

zero_+ℤ : (a : ℤ) → pos 0 +ℤ a ≡ a
zero_+ℤ a = +ℤ_comm (pos 0) a ∙ +ℤ_zero a

-- What an entry of the tally adds to the score.
unfoldable pub contribution : Bool → GoMap Rule Weight → Rule × ℤ → ℤ
contribution count_once weights (r, n) =
    let w = lookup_or r no_weight weights in
    if w.points == pos 0 then pos 0 else rule_points count_once w n

-- The sum over the entries.
unfoldable pub total : Bool → GoMap Rule Weight → Tally → ℤ
total count_once weights [] = pos 0
total count_once weights (e ∷ tally) =
    contribution count_once weights e +ℤ total count_once weights tally

add_score-contribution :
    (count_once : Bool) (weights : GoMap Rule Weight) (s : Scored) (e : Rule × ℤ)
    → (add_score count_once weights s e).0 ≡ s.0 +ℤ contribution count_once weights e
unfolding add_score contribution
add_score-contribution count_once weights (a, m) (r, n) =
    elim (Bool-cases ((lookup_or r no_weight weights).points == pos 0)) [
      | inl e ↦ rw e (sym (+ℤ_zero a))
      | inr e ↦ rw e refl
    ]

foldl-add_score :
    (count_once : Bool) (weights : GoMap Rule Weight) (tally : Tally) (s : Scored)
    → (foldl (add_score count_once weights) s tally).0 ≡ s.0 +ℤ total count_once weights tally
unfolding total
foldl-add_score count_once weights [] s = sym (+ℤ_zero s.0)
foldl-add_score count_once weights (e ∷ tally) s =
    rw
      (
        foldl-add_score count_once weights tally (add_score count_once weights s e),
        add_score-contribution count_once weights s e,
      )
      (+ℤ_assoc s.0 (contribution count_once weights e) (total count_once weights tally))

total-Permᴰ :
    (count_once : Bool) (weights : GoMap Rule Weight) {l m : Tally}
    → Permᴰ l m
    → total count_once weights l ≡ total count_once weights m
unfolding total
total-Permᴰ once ws Permᴰ.nil = refl
total-Permᴰ once ws (Permᴰ.cons e p) =
    ap₂ (λ x y. contribution once ws x +ℤ y) e (total-Permᴰ once ws p)
total-Permᴰ once ws (Permᴰ.swap {a} {b} {l = l} e f) =
    +ℤ_swap (contribution once ws a) (contribution once ws b) (total once ws l)
    ∙ ap₂ (λ x y. contribution once ws x +ℤ (contribution once ws y +ℤ total once ws l)) f e
total-Permᴰ once ws (Permᴰ.trans p q) = total-Permᴰ once ws p ∙ total-Permᴰ once ws q

-- A category's score is the sum of what the entries of the tally add, so it does not depend on the
-- order in which Go ranges over the tally, nor on whether the scores of the rules are asked for.
pub score_unordered :
    (count_once : Bool) (c : Category) (tally tally' : Tally)
    (rule_scores rule_scores' : Option (GoMap Bytes RuleScore))
    → Perm tally tally'
    → ((score count_once c tally rule_scores).0 ≡ total count_once c.weights tally)
      × ((score count_once c tally' rule_scores').0 ≡ total count_once c.weights tally)
unfolding score
score_unordered once c tally tally' m m' p =
    let q : total once c.weights tally ≡ total once c.weights tally' =
      ∥∥₁_elim p (ℤ_set _ _) (total-Permᴰ once c.weights) in
    (
      foldl-add_score once c.weights tally (pos 0, m) ∙ zero_+ℤ (total once c.weights tally),
      foldl-add_score once c.weights tally' (pos 0, m')
          ∙ zero_+ℤ (total once c.weights tally')
          ∙ sym q,
    )

-- The map's keys are the names of its categories, as loadCategories stores them.
unfoldable pub IsNamed : GoMap Bytes Category → Type 0
IsNamed [] = Unit
IsNamed ((k, c) ∷ categories) = (k ≡ c.name) × IsNamed categories

-- a score that is worth an entry
abbrev pub unless_zero : ℤ → Option ℤ
unless_zero s = if s == pos 0 then none else some s

-- The entry that a name has, by the category of that name.
abbrev pub scored : Bool → Tally → Option Category → Option ℤ
scored count_once tally none = none
scored count_once tally (some c) = unless_zero (total count_once c.weights tally)

lookup_added :
    (name j : Bytes) (s : ℤ) (scores : GoMap Bytes ℤ)
    → lookup j (if not (s == pos 0) then insert name s scores else scores)
      ≡ (if name == j && not (s == pos 0) then some s else lookup j scores)
lookup_added name j s scores = elim (Bool-cases (s == pos 0)) [
  | inl e ↦ rw e (ground arith)
  | inr e ↦ rw (e, lookup-insert name j s scores) (ground arith)
]

score_categories-lookup :
    (once : Bool) (tally : Tally) (scores : GoMap Bytes ℤ) (categories : GoMap Bytes Category)
    (name : Bytes)
    → IsMap categories
    → IsNamed categories
    → ((k : Bytes) → contains (keys categories) k ≡ true → lookup k scores ≡ none)
    → lookup name (score_categories once tally scores categories) ≡ (
        if contains (keys categories) name
        then scored once tally (lookup name categories)
        else lookup name scores)
unfolding score_categories IsNamed
score_categories-lookup once tally scores [] name m n fresh = refl
score_categories-lookup once tally scores ((k, c) ∷ categories) name m n fresh =
    let s = total once c.weights tally in
    let e : (score once c tally none).0 ≡ s =
      (score_unordered once c tally tally none none ∣ Permᴰ.refl tally ∣₁).0 in
    let scores' = if not (s == pos 0) then insert c.name s scores else scores in
    let fresh' : (j : Bytes) → contains (keys categories) j ≡ true → lookup j scores' ≡ none =
      λ j h.
        rw (lookup_added c.name j s scores)
          (ground (arith, n.0, h, m.0, bytes_beq_iff c.name j, fresh j)) in
    rw
      (
        e,
        score_categories-lookup once tally scores' categories name m.1 n.1 fresh',
        lookup_added c.name name s scores,
      )
      (ground (arith, n.0, m.0, bytes_beq_iff k name, bytes_beq_iff c.name name, fresh name))

-- When each category is stored under its name, the map of scores has for each category's name the
-- sum over the tally as the compound rules left it, unless that is zero, and nothing else.
pub category_scores-lookup :
    (once : Bool) (categories : GoMap Bytes Category) (rules : List CompoundRule) (tally : Tally)
    (name : Bytes)
    → IsMap categories
    → IsNamed categories
    → lookup name (category_scores once categories rules tally).0
      ≡ scored once (category_scores once categories rules tally).1 (lookup name categories)
unfolding category_scores total
category_scores-lookup once categories rules [] name m n =
    elim (Option-cases (lookup name categories)) [ inl e ↦ rw e refl | inr (c, e) ↦ rw e refl ]
category_scores-lookup once categories rules (e ∷ tally) name m n =
    let tally' = apply_compound_rules rules (e ∷ tally) in
    rw (score_categories-lookup once tally' [] categories name m n (λ k h. refl))
      (elim (Bool-cases (contains (keys categories) name)) [
        | inl c ↦ rw c refl
        | inr c ↦ rw (c, lookup-absent name categories c) refl
      ])
