-- ===== src/Acl/Category/Outcome.antt =====
-- What `ChooseACLCategoryAction` returns: an action that the caller can take, or the blank rule;
-- the ignored categories as a first part of the sorted ones, and what decides behind them.
use redwood_filter.Common.{
  ◌≡◌, ◌⊎◌, inl, inr, refl, sym, ◌∙◌, true, false, some, List, [], ◌∷◌, ◌++◌, append_assoc,
  append-nil, All, ap, arith, nat_eq, Bool-cases, Option-cases, contains, Bytes, codes, bytes_eq,
}
use redwood_filter.Common.GoMap.{GoMap, keys}
use redwood_filter.Common.Int.{ℤ}
use redwood_filter.Bloom.{BloomFilter, add}
use redwood_filter.Mapsort.{sorted_keys}
use redwood_filter.Rule.{Category}
use redwood_filter.Acl.{
  AclActionRule, blank_rule, AclSet, choices_of, bloom_of, choose_acl_action, copy_acl_set,
}
use redwood_filter.Acl.Choose.{has-choices_of, choose_acl_action-action}
use redwood_filter.Acl.Category.{
  split_scores, find_rule, default_action, default_rule, rule_or, is_ignored, category_loop,
  choose_acl_category_action,
}

-- The caller can take the rule's action.
abbrev pub IsChoice : List Bytes → AclActionRule → Type 0
IsChoice actions r = contains actions r.action ≡ true

module _ (categories : GoMap Bytes Category) (actions : List Bytes) (cat : Bytes) where
  default_rule-IsChoice :
      is_ignored (default_rule categories (choices_of actions) cat) ≡ false
      → IsChoice actions (default_rule categories (choices_of actions) cat)
  unfolding default_rule default_action
  default_rule-IsChoice h = ground (
    arith,
    has-choices_of actions (codes "block-invisible"),
    has-choices_of actions (codes "block"),
    has-choices_of actions (codes "allow"),
  )

  find_rule-IsChoice :
      (bloom : BloomFilter) (acls : AclSet) (rules : List AclActionRule) (r : AclActionRule)
      → find_rule bloom acls (choices_of actions) cat rules ≡ some r
      → is_ignored r ≡ false
      → IsChoice actions r
  unfolding find_rule
  find_rule-IsChoice bloom acls [] r e h = cc
  find_rule-IsChoice bloom acls (s ∷ rules) r e h =
      ground (arith, has-choices_of actions s.action, find_rule-IsChoice bloom acls rules r)

  chosen-IsChoice :
      (bloom : BloomFilter) (acls : AclSet) (rules : List AclActionRule)
      → let r =
          rule_or
            (default_rule categories (choices_of actions) cat)
            (find_rule bloom acls (choices_of actions) cat rules) in
        is_ignored r ≡ false → IsChoice actions r
  chosen-IsChoice bloom acls rules h =
      elim (Option-cases (find_rule bloom acls (choices_of actions) cat rules)) [
        | inl e ↦ rw e (default_rule-IsChoice (rw e at h))
        | inr (r, e) ↦ rw e (find_rule-IsChoice bloom acls rules r e (rw e at h))
      ]

-- The rule for a category beside the ACLs: the first configured one that the loop over the rules
-- finds, else the one made from the category's own action.
abbrev pub category_rule :
    GoMap Bytes Category → List AclActionRule → AclSet → List Bytes → Bytes → AclActionRule
category_rule categories rules acls actions cat =
    rule_or (default_rule categories (choices_of actions) cat)
      (find_rule (add (bloom_of (keys acls)) cat) acls (choices_of actions) cat rules)

module _ (categories : GoMap Bytes Category) (rules : List AclActionRule) (acls : AclSet)
    (actions : List Bytes) where
  -- The category's rule is an ignore-category rule or one without an action.
  abbrev pub IsPassedOver : Bytes → Type 0
  IsPassedOver cat = is_ignored (category_rule categories rules acls actions cat) ≡ true

  -- The category's rule is none of these, and it is the one that is returned.
  abbrev pub Decides : AclActionRule → Bytes → Type 0
  Decides r cat = (is_ignored r ≡ false) × (r ≡ category_rule categories rules acls actions cat)

  -- The first of the categories that are left decides, or none is left and the ACLs decide.
  abbrev pub IsDecided : List Bytes → AclActionRule → Type 0
  IsDecided left r =
      ((cat : Bytes) × (rest : List Bytes) × (left ≡ cat ∷ rest) × Decides r cat)
      ⊎ ((left ≡ []) × (r ≡ choose_acl_action rules acls actions))

  -- What the loop returns when it started with `ignored` and the categories `cats` to go.
  record Ends (ignored cats : List Bytes) (result : AclActionRule × List Bytes) : Type 0 where
    passed : List Bytes
    left : List Bytes
    parts : cats ≡ passed ++ left
    gathered : result.1 ≡ ignored ++ passed
    passed_over : All IsPassedOver passed
    choice : (IsChoice actions result.0) ⊎ (result.0 ≡ blank_rule)
    decided : IsDecided left result.0

  category_loop-Ends :
      (ignored cats : List Bytes)
      → Ends ignored cats
          (category_loop categories rules (bloom_of (keys acls)) acls actions ignored cats)
  unfolding category_loop
  category_loop-Ends ignored [] = record {
    passed = [];
    left = [];
    parts = refl;
    gathered = sym (append-nil ignored);
    passed_over = tt;
    choice = choose_acl_action-action rules acls actions;
    decided = inr (refl, refl);
  }
  category_loop-Ends ignored (cat ∷ cats) =
      elim (Bool-cases (is_ignored (category_rule categories rules acls actions cat))) [
        | inl e ↦
            let ih = category_loop-Ends (ignored ++ cat ∷ []) cats in
            rw e (record {
              passed = cat ∷ ih.passed;
              left = ih.left;
              parts = ap (λ l. cat ∷ l) ih.parts;
              gathered = ih.gathered ∙ append_assoc ignored (cat ∷ []) ih.passed;
              passed_over = (e, ih.passed_over);
              choice = ih.choice;
              decided = ih.decided;
            })
        | inr e ↦ rw e (record {
          passed = [];
          left = cat ∷ cats;
          parts = refl;
          gathered = sym (append-nil ignored);
          passed_over = tt;
          choice = inl (
              chosen-IsChoice categories actions cat (add (bloom_of (keys acls)) cat) acls rules e);
          decided = inl (cat, cats, refl, (e, refl));
        })
      ]

-- ChooseACLCategoryAction returns the blank rule, or a rule whose action the caller can take. The
-- ignored categories are a first part of those that reach the threshold, sorted by score, and the
-- rule for each of them, beside the ACLs, is an ignore-category rule or has no action. Either the
-- category behind them decides: its rule has another action and is the one returned; or none is
-- left, and what ChooseACLAction returns for the ACLs alone is returned.
pub choose_acl_category_action-outcome :
    (categories : GoMap Bytes Category) (rules : List AclActionRule) (acls : AclSet)
    (scores : GoMap Bytes ℤ) (threshold : ℤ) (actions : List Bytes)
    → let (r, ignored) =
        choose_acl_category_action categories rules acls scores threshold actions in
      let s = split_scores categories threshold scores (copy_acl_set acls, []) in
      (left : List Bytes) × (sorted_keys s.1 ≡ ignored ++ left)
      × ((contains actions r.action ≡ true) ⊎ (r ≡ blank_rule))
      × All (IsPassedOver categories rules s.0 actions) ignored
      × IsDecided categories rules s.0 actions left r
unfolding choose_acl_category_action
choose_acl_category_action-outcome categories rules acls scores threshold actions =
    let s = split_scores categories threshold scores (copy_acl_set acls, []) in
    let e = category_loop-Ends categories rules s.0 actions [] (sorted_keys s.1) in
    (e.left, rw e.gathered e.parts, e.choice, rw e.gathered e.passed_over, e.decided)
