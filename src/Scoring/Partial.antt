-- ===== src/Scoring/Partial.antt =====
-- What a compound rule means: its operators, applied to the counts of the simple rules; and the
-- tallies between the rounds of applyCompoundRules.
use redwood_filter.Common.{
  ◌≡◌, ◌⊎◌, inl, inr, refl, sym, ◌∙◌, ◌==◌, nat_eq, ==-refl, ==→eq, Bool-cases, Bytes, bytes_eq,
}
use redwood_filter.Common.GoMap.{insert, lookup_or-insert}
use redwood_filter.Common.Int.{ℤ, pos, int_eq}
use redwood_filter.Rule.{SimpleRule, Rule, simple, compound, rule_eq}
use redwood_filter.Scoring.{Tally, count_of, combine, apply_compound}

-- The count of a rule, from the counts of the simple rules in it.
unfoldable pub meaning : Tally → Rule → ℤ
meaning tally (simple r) = count_of tally (simple r)
meaning tally (compound left op right) = combine op (meaning tally left) (meaning tally right)

-- The tally knows the rule's count.
unfoldable pub Knows : Tally → Tally → Rule → Type 0
Knows start tally r = count_of tally r ≡ meaning start r

-- A tally on the way: simple rules have their counts, and a compound rule that is to have no count
-- has none.
pub record IsPartial (start tally : Tally) : Type 0 where
  pub simple_counts : (r : SimpleRule) → Knows start tally (simple r)
  pub no_stale :
      (left : Rule) (op : Bytes) (right : Rule)
      → meaning start (compound left op right) ≡ pos 0
      → count_of tally (compound left op right) ≡ pos 0

-- A later tally on the way knows at least as much.
pub record Extends (start tally tally' : Tally) : Type 0 where
  pub later : IsPartial start tally'
  pub keeps : (r : Rule) → Knows start tally r → Knows start tally' r

-- Storing a right count leaves every other count, and makes the rule known.
insert_cases :
    (start tally : Tally) (r s : Rule)
    → (count_of (insert r (meaning start r) tally) s ≡ count_of tally s)
      ⊎ Knows start (insert r (meaning start r) tally) s
unfolding Knows
insert_cases start tally r s = elim (Bool-cases (r == s)) [
  | inl e ↦ inr (rw (lookup_or-insert r s (meaning start r) (pos 0) tally, e, ==→eq r s e) refl)
  | inr e ↦ inl (rw (lookup_or-insert r s (meaning start r) (pos 0) tally, e) refl)
]

insert-Extends :
    (start tally : Tally) (r : Rule)
    → IsPartial start tally
    → Extends start tally (insert r (meaning start r) tally)
unfolding Knows
insert-Extends start tally r p =
    let known : (s : Rule)
        → Knows start tally s
        → Knows start (insert r (meaning start r) tally) s =
      λ s k. elim (insert_cases start tally r s) [ inl e ↦ e ∙ k | inr k' ↦ k' ] in
    record {
      later = record {
        simple_counts = λ s. known (simple s) (p.simple_counts s);
        no_stale = λ left op right z.
            let s = compound left op right in
            elim (insert_cases start tally r s) [
              | inl e ↦ e ∙ p.no_stale left op right z
              | inr k ↦ k ∙ z
            ];
      };
      keeps = known;
    }

-- One round of the loop, on a rule whose two parts are known.
pub apply_compound_lem :
    (start tally : Tally) (left : Rule) (op : Bytes) (right : Rule)
    → IsPartial start tally
    → Knows start tally left
    → Knows start tally right
    → Extends start tally (apply_compound tally (left, (op, right)))
      × Knows start (apply_compound tally (left, (op, right))) (compound left op right)
unfolding apply_compound Knows meaning
apply_compound_lem start tally left op right p l r =
    let s = compound left op right in
    let m = combine op (meaning start left) (meaning start right) in
    elim (Bool-cases (m == pos 0)) [
      | inl e ↦
          let z : m ≡ pos 0 = ==→eq m (pos 0) e in
          rw (l, r, e) (record { later = p; keeps = λ x k. k }, p.no_stale left op right z ∙ sym z)
      | inr e ↦
          rw (l, r, e)
            (
              insert-Extends start tally s p,
              rw (lookup_or-insert s s m (pos 0) tally, ==-refl s) refl,
            )
    ]
