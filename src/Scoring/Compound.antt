-- ===== src/Scoring/Compound.antt =====
-- The rounds of applyCompoundRules, on the rules that addRule collects.
use redwood_filter.Common.{
  ◌≡◌, inl, inr, refl, Bool, true, false, ◌||◌, List, [], ◌∷◌, foldl, arith, ◌==◌, nat_eq, ==→eq,
  Bool-cases, contains, Bytes, bytes_eq,
}
use redwood_filter.Common.{foldl-append}
use redwood_filter.Common.GoMap.{GoMap, keys}
use redwood_filter.Common.Int.{pos, int_eq}
use redwood_filter.Rule.{Rule, simple, compound, rule_eq, Category}
use redwood_filter.Scoring.{
  CompoundRule, Tally, count_of, add_compound, collect_compound, apply_compound,
  apply_compound_rules,
}
use redwood_filter.Scoring.Partial.{meaning, Knows, IsPartial, Extends, apply_compound_lem}

-- All rounds that one rule adds: those of its parts, then its own.
apply_rule : Tally → Rule → Tally
apply_rule tally (simple r) = tally
apply_rule tally (compound left op right) =
    apply_compound (apply_rule (apply_rule tally left) right) (left, (op, right))

apply_compound_rules-add_compound :
    (rules : List CompoundRule) (r : Rule) (tally : Tally)
    → apply_compound_rules (add_compound rules r) tally
      ≡ apply_rule (apply_compound_rules rules tally) r
unfolding add_compound apply_compound_rules apply_rule
apply_compound_rules-add_compound rules (simple r) tally = refl
apply_compound_rules-add_compound rules (compound left op right) tally =
    rw
      (
        foldl-append apply_compound tally (add_compound (add_compound rules left) right)
            ((left, (op, right)) ∷ []),
        apply_compound_rules-add_compound (add_compound rules left) right tally,
        apply_compound_rules-add_compound rules left tally,
      )
      refl

apply_rule_lem :
    (start tally : Tally) (r : Rule)
    → IsPartial start tally
    → Extends start tally (apply_rule tally r) × Knows start (apply_rule tally r) r
unfolding apply_rule
apply_rule_lem start tally (simple r) p =
    (record { later = p; keeps = λ x k. k }, p.simple_counts r)
apply_rule_lem start tally (compound left op right) p =
    let (el, kl) = apply_rule_lem start tally left p in
    let (er, kr) = apply_rule_lem start (apply_rule tally left) right el.later in
    let (e, k) =
      apply_compound_lem start (apply_rule (apply_rule tally left) right) left op right er.later
        (er.keeps left kl) kr in
    (record { later = e.later; keeps = λ x known. e.keeps x (er.keeps x (el.keeps x known)) }, k)

apply_rules_lem :
    (start tally : Tally) (rules : List Rule)
    → IsPartial start tally
    → Extends start tally (foldl apply_rule tally rules)
      × ((r : Rule) → contains rules r ≡ true → Knows start (foldl apply_rule tally rules) r)
apply_rules_lem start tally [] p = (record { later = p; keeps = λ x k. k }, λ r h. cc h)
apply_rules_lem start tally (s ∷ rules) p =
    let (e, k) = apply_rule_lem start tally s p in
    let (e', ks) = apply_rules_lem start (apply_rule tally s) rules e.later in
    (
      record { later = e'.later; keeps = λ x known. e'.keeps x (e.keeps x known) },
      λ r h. elim (Bool-cases (s == r)) [
        | inl q ↦ e'.keeps r (rw (← ==→eq s r q) k)
        | inr q ↦ ks r (ground (arith, h, q))
      ],
    )

apply_categories : Tally → GoMap Bytes Category → Tally
apply_categories tally [] = tally
apply_categories tally ((k, c) ∷ categories) =
    apply_categories (foldl apply_rule tally (keys c.weights)) categories

apply_compound_rules-foldl :
    (rules : List CompoundRule) (rs : List Rule) (tally : Tally)
    → apply_compound_rules (foldl add_compound rules rs) tally
      ≡ foldl apply_rule (apply_compound_rules rules tally) rs
apply_compound_rules-foldl rules [] tally = refl
apply_compound_rules-foldl rules (r ∷ rs) tally =
    rw
      (
        apply_compound_rules-foldl (add_compound rules r) rs tally,
        apply_compound_rules-add_compound rules r tally,
      )
      refl

apply_compound_rules-collect_compound :
    (rules : List CompoundRule) (categories : GoMap Bytes Category) (tally : Tally)
    → apply_compound_rules (collect_compound categories rules) tally
      ≡ apply_categories (apply_compound_rules rules tally) categories
unfolding collect_compound apply_categories
apply_compound_rules-collect_compound rules [] tally = refl
apply_compound_rules-collect_compound rules ((k, c) ∷ categories) tally =
    rw
      (
        apply_compound_rules-collect_compound (foldl add_compound rules (keys c.weights)) categories
            tally,
        apply_compound_rules-foldl rules (keys c.weights) tally,
      )
      refl

-- Whether a category gives the rule a weight.
unfoldable pub is_weighted : GoMap Bytes Category → Rule → Bool
is_weighted [] r = false
is_weighted ((k, c) ∷ categories) r = contains (keys c.weights) r || is_weighted categories r

apply_categories_lem :
    (start tally : Tally) (categories : GoMap Bytes Category)
    → IsPartial start tally
    → Extends start tally (apply_categories tally categories)
      × ((r : Rule)
          → is_weighted categories r ≡ true
          → Knows start (apply_categories tally categories) r)
unfolding apply_categories is_weighted
apply_categories_lem start tally [] p = (record { later = p; keeps = λ x k. k }, λ r h. cc h)
apply_categories_lem start tally ((k, c) ∷ categories) p =
    let (e, known) = apply_rules_lem start tally (keys c.weights) p in
    let (e', known') =
      apply_categories_lem start (foldl apply_rule tally (keys c.weights)) categories e.later in
    (
      record { later = e'.later; keeps = λ x q. e'.keeps x (e.keeps x q) },
      λ r h. elim (Bool-cases (contains (keys c.weights) r)) [
        | inl q ↦ e'.keeps r (known r q)
        | inr q ↦ known' r (ground (arith, h, q))
      ],
    )

-- When the compound rules were collected from the categories, in whatever order their maps are
-- ranged over, and no compound rule whose operators make zero of the counts has a count in the
-- tally from before, one pass of applyCompoundRules gives each rule of a category, however deep its
-- compounds are nested, the count that its operators make of the counts of its simple rules. A
-- tally of simple rules only is such a tally, and so is one that has the compound rules' counts of
-- the same simple counts.
pub apply_compound_rules-meaning :
    (categories : GoMap Bytes Category) (tally : Tally) (r : Rule)
    → ((left : Rule) (op : Bytes) (right : Rule)
        → meaning tally (compound left op right) ≡ pos 0
        → count_of tally (compound left op right) ≡ pos 0)
    → is_weighted categories r ≡ true
    → count_of (apply_compound_rules (collect_compound categories []) tally) r ≡ meaning tally r
unfolding Knows apply_compound_rules meaning
apply_compound_rules-meaning categories tally r no_stale weighted =
    let p : IsPartial tally tally = record { simple_counts = λ s. refl; no_stale = no_stale } in
    rw (apply_compound_rules-collect_compound [] categories tally)
      ((apply_categories_lem tally tally categories p).1 r weighted)
