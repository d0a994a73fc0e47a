-- ===== src/Scoring/Tests.antt =====
-- Runs of the scores, and the witnesses of their properties.
use redwood_filter.Common.{
  ◌≡◌, ap, ◌∙◌, inl, inr, ◌==◌, ==→eq, Bool-cases, refl, false, none, some, [], ◌∷◌, nat_eq, Bytes,
  codes, bytes_eq,
}
use mathlib.Core.List.{Permᴰ}
use redwood_filter.Common.GoMap.{GoMap, lookup}
use redwood_filter.Common.Int.{pos, negsuc, ◌+ℤ◌, ◌*ℤ◌, int_eq}
use redwood_filter.Rule.{
  content_phrase, Rule, simple, compound, rule_eq, rule_string, Category, block,
}
use redwood_filter.Scoring.{
  Tally, count_of, collect_compound, add_compound, combine, apply_compound_rules, rule_points,
  score, category_scores,
}
use redwood_filter.Scoring.Compound.{is_weighted, apply_compound_rules-meaning}
use redwood_filter.Scoring.Partial.{meaning}
use redwood_filter.Scoring.Total.{
  total, contribution, IsNamed, score_unordered, category_scores-lookup,
}

abbrev phrase : Bytes → Rule
phrase s = simple (record { t = content_phrase; content = s })

abbrev poker_or_bet : Rule
poker_or_bet = compound (phrase (codes "poker")) (codes "|") (phrase (codes "bet"))

abbrev poker_not_news : Rule
poker_not_news = compound poker_or_bet (codes "&!") (phrase (codes "news"))

abbrev gambling : Category
gambling = record {
  name = codes "gambling";
  description = codes "gambling";
  action = block;
  weights =
      (poker_not_news, record { points = pos 30; max_points = pos 50 })
      ∷ (phrase (codes "bet"), record { points = negsuc 4; max_points = pos 0 })
      ∷ [];
  url_lists = [];
  invisible = false;
}

abbrev categories : GoMap Bytes Category
categories = (codes "gambling", gambling) ∷ []

abbrev page : Tally
page = (phrase (codes "poker"), pos 2) ∷ (phrase (codes "bet"), pos 3) ∷ []

abbrev reversed : Tally
reversed = (phrase (codes "bet"), pos 3) ∷ (phrase (codes "poker"), pos 2) ∷ []

rule_string_runs : rule_string poker_not_news ≡ codes "(<poker> | <bet>) &! <news>"
unfolding rule_string
rule_string_runs = refl

category_scores_runs :
    (category_scores false categories (collect_compound categories []) page).0
    ≡ (codes "gambling", pos 35) ∷ []
unfolding category_scores collect_compound apply_compound_rules score add_compound ◌+ℤ◌ ◌*ℤ◌
category_scores_runs = refl

-- The page again, after more of it was scanned: an inner compound rule has its count from before.
abbrev rescanned : Tally
rescanned = (poker_or_bet, pos 2) ∷ page

rescanned_no_stale :
    (left : Rule) (op : Bytes) (right : Rule)
    → meaning rescanned (compound left op right) ≡ pos 0
    → count_of rescanned (compound left op right) ≡ pos 0
unfolding meaning combine
rescanned_no_stale left op right z = elim (Bool-cases (poker_or_bet == compound left op right)) [
  | inl e ↦
      let h : meaning rescanned poker_or_bet ≡ pos 0 =
        ap (meaning rescanned) (==→eq poker_or_bet (compound left op right) e) ∙ z in
      cc h
  | inr e ↦ rw e refl
]

-- The count of a rule that is to have none now stays from before.
stale_count_stays :
    (count_of
        (apply_compound_rules
          (collect_compound categories [])
          ((poker_not_news, pos 3) ∷ (phrase (codes "news"), pos 1) ∷ page))
        poker_not_news
      ≡ pos 3)
    × (meaning ((poker_not_news, pos 3) ∷ (phrase (codes "news"), pos 1) ∷ page) poker_not_news
        ≡ pos 0)
unfolding apply_compound_rules collect_compound add_compound meaning combine
stale_count_stays = (refl, refl)

apply_compound_rules-meaning_example :
    count_of (apply_compound_rules (collect_compound categories []) rescanned) poker_not_news
    ≡ pos 3
unfolding meaning combine is_weighted
apply_compound_rules-meaning_example =
    apply_compound_rules-meaning categories rescanned poker_not_news rescanned_no_stale refl

score_unordered_example :
    ((score false gambling page none).0 ≡ total false gambling.weights page)
    × ((score false gambling reversed (some [])).0 ≡ total false gambling.weights page)
score_unordered_example =
    score_unordered false gambling page reversed none (some []) ∣ Permᴰ.swap refl refl ∣₁

category_scores-lookup_example :
    lookup
      (codes "gambling")
      (category_scores false categories (collect_compound categories []) page).0
    ≡ some (pos 35)
unfolding category_scores collect_compound apply_compound_rules total contribution IsNamed
    add_compound ◌+ℤ◌ rule_points ◌*ℤ◌
category_scores-lookup_example =
    category_scores-lookup false categories (collect_compound categories []) page (codes "gambling")
      (refl, tt) (refl, tt)
