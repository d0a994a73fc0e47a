-- ===== src/Acl/Tests.antt =====
-- Runs of the choice of an action, and the witnesses of its properties.
use redwood_filter.Common.{
  All, ◌≡◌, ◌⊎◌, refl, true, false, ◌&&◌, none, List, [], ◌∷◌, ◌++◌, nat_eq, contains, Bytes, codes,
  bytes_eq,
}
use redwood_filter.Common.GoMap.{GoMap, lookup}
use redwood_filter.Common.Int.{ℤ, pos}
use redwood_filter.Mapsort.{sorted_keys}
use redwood_filter.Rule.{Category, block, acl}
use redwood_filter.Acl.{
  AclActionRule, blank_rule, AclSet, has, bloom_of, choose_acl_action, copy_acl_set,
}
use redwood_filter.Acl.Choose.{first_rule, applies, choose_acl_action-first_rule}
use redwood_filter.Acl.Category.{is_acl_category, split_scores, choose_acl_category_action}
use redwood_filter.Acl.Category.Choice.{choice_spec, choose_acl_category_action-choice_spec}
use redwood_filter.Acl.Category.Outcome.{
  IsPassedOver, IsDecided, choose_acl_category_action-outcome,
}
use redwood_filter.Acl.Category.Scores.{split_scores_lem}

abbrev new_rule : Bytes → List Bytes → List Bytes → AclActionRule
new_rule action needed disallowed = record {
  action = action;
  needed = needed;
  disallowed = disallowed;
  description = [];
  bloom = bloom_of needed;
}

abbrev rules : List AclActionRule
rules =
    new_rule (codes "ignore-category") (codes "office" ∷ codes "games" ∷ []) []
    ∷ new_rule (codes "allow") (codes "staff" ∷ []) (codes "games" ∷ [])
    ∷ new_rule (codes "block") (codes "news" ∷ []) []
    ∷ []

abbrev staff : AclSet
staff = (codes "staff", true) ∷ (codes "office", true) ∷ []

abbrev actions : List Bytes
actions = codes "allow" ∷ codes "block" ∷ []

choose_acl_action-first_rule_example :
    choose_acl_action rules staff actions
    ≡ first_rule (λ r. contains actions r.action && applies staff r) rules
choose_acl_action-first_rule_example =
    choose_acl_action-first_rule rules staff actions (refl, (refl, (refl, tt)))

choose_acl_action_runs : (choose_acl_action rules staff actions).action ≡ codes "allow"
choose_acl_action_runs = rw choose_acl_action-first_rule_example refl

abbrev category : Bytes → Category
category name = record {
  name = name;
  description = name;
  action = block;
  weights = [];
  url_lists = [];
  invisible = false;
}

abbrev categories : GoMap Bytes Category
categories =
    (codes "games", category (codes "games"))
    ∷ (codes "school", record (category (codes "school")) { action = acl })
    ∷ []

abbrev page_scores : GoMap Bytes ℤ
page_scores = (codes "games", pos 400) ∷ (codes "school", pos 20) ∷ (codes "news", pos 300) ∷ []

split_scores_lem_example :
    let s = split_scores categories (pos 275) page_scores (copy_acl_set staff, []) in
    (has s.0 (codes "school") ≡ true) × (lookup (codes "school") s.1 ≡ none)
unfolding is_acl_category
split_scores_lem_example =
    split_scores_lem categories (pos 275) staff page_scores (codes "school") (refl, (refl, tt))
      (refl, (refl, (refl, tt)))

choose_acl_category_action-choice_spec_example :
    choose_acl_category_action categories rules staff page_scores (pos 275) actions ≡ (
      let s = split_scores categories (pos 275) page_scores (copy_acl_set staff, []) in
      choice_spec categories rules s.0 actions [] (sorted_keys s.1))
choose_acl_category_action-choice_spec_example =
    choose_acl_category_action-choice_spec categories rules staff page_scores (pos 275) actions
      (refl, (refl, (refl, tt)))

choose_acl_category_action-outcome_example :
    let (r, ignored) =
      choose_acl_category_action categories rules staff page_scores (pos 275) actions in
    let s = split_scores categories (pos 275) page_scores (copy_acl_set staff, []) in
    (left : List Bytes) × (sorted_keys s.1 ≡ ignored ++ left)
    × ((contains actions r.action ≡ true) ⊎ (r ≡ blank_rule))
    × All (IsPassedOver categories rules s.0 actions) ignored
    × IsDecided categories rules s.0 actions left r
choose_acl_category_action-outcome_example =
    choose_acl_category_action-outcome categories rules staff page_scores (pos 275) actions
