-- ===== src/Acl/Category/Choice.antt =====
-- `ChooseACLCategoryAction` against a definition with plain sets, and what it returns.
use redwood_filter.Common.{
  ◌≡◌, refl, Bool, true, false, ◌&&◌, ◌||◌, Option, none, some, List, [], ◌∷◌, ◌++◌, arith,
  if◌then◌else◌, ◌==◌, nat_eq, All, any, all, contains, contains-append, Bytes, bytes_beq_iff,
  bytes_eq,
}
use mathlib.Core.List.{foldl-append}
use redwood_filter.Common.GoMap.{GoMap, insert, keys, lookup_or-insert}
use redwood_filter.Common.Int.{ℤ}
use redwood_filter.Bloom.{add, superset}
use redwood_filter.Bloom.Superset.{superset-add_all}
use redwood_filter.Mapsort.{sorted_keys}
use redwood_filter.Rule.{Category}
use redwood_filter.Acl.{AclActionRule, AclSet, has, choices_of, bloom_of, copy_acl_set}
use redwood_filter.Acl.Choose.{
  HasBloom, applies, first_rule, has-choices_of, contains-keys, choose_acl_action-first_rule,
}
use redwood_filter.Acl.Category.{
  ignore_category, split_scores, needed_loop, find_rule, default_rule, rule_or, is_ignored,
  category_loop, choose_acl_category_action,
}

-- The set of ACLs while `cat` is considered.
abbrev pub with_category : AclSet → Bytes → AclSet
with_category acls cat = insert cat true acls

-- The rule applies to the set with the category, and either its action is among the given ones, or
-- it is an ignore-category rule of which the category is a condition.
abbrev pub fits : List Bytes → AclSet → Bytes → AclActionRule → Bool
fits actions acls cat r =
    applies (with_category acls cat) r
    && (contains actions r.action || (contains r.needed cat && r.action == ignore_category))

abbrev pub first_fit : (AclActionRule → Bool) → List AclActionRule → Option AclActionRule
first_fit p [] = none
first_fit p (r ∷ rules) = if p r then some r else first_fit p rules

-- The loop over the categories, with plain sets.
pub choice_spec :
    GoMap Bytes Category
    → List AclActionRule
    → AclSet
    → List Bytes
    → List Bytes
    → List Bytes
    → AclActionRule × List Bytes
choice_spec categories rules acls actions ignored [] =
    (first_rule (λ r. contains actions r.action && applies acls r) rules, ignored)
choice_spec categories rules acls actions ignored (cat ∷ cats) =
    let r =
      rule_or (default_rule categories (choices_of actions) cat)
        (first_fit (fits actions acls cat) rules) in
    let rest = choice_spec categories rules acls actions (ignored ++ cat ∷ []) cats in
    if is_ignored r then rest else (r, ignored)

module _ (acls : AclSet) (cat : Bytes) where
  has-with_category : (a : Bytes) → has (with_category acls cat) a ≡ (cat == a || has acls a)
  has-with_category a = ground (arith, lookup_or-insert cat a true false acls)

  needed_loop_lem :
      (ok : Bool) (needed : List Bytes)
      → needed_loop acls cat ok needed ≡ (
          if all (has (with_category acls cat)) needed
          then some (ok || contains needed cat)
          else none)
  unfolding needed_loop
  needed_loop_lem ok [] = ground arith
  needed_loop_lem ok (a ∷ needed) = ground (
    arith,
    has-with_category a,
    bytes_beq_iff a cat,
    bytes_beq_iff cat a,
    needed_loop_lem (if a == cat then true else ok) needed,
  )

  any-disallowed :
      (disallowed : List Bytes)
      → any (λ a. has acls a || a == cat) disallowed ≡ any (has (with_category acls cat)) disallowed
  any-disallowed [] = refl
  any-disallowed (a ∷ l) =
      ground
        (arith, has-with_category a, bytes_beq_iff a cat, bytes_beq_iff cat a, any-disallowed l)

  All-keys_snoc :
      (xs : List Bytes)
      → all (has (with_category acls cat)) xs ≡ true
      → All (λ a. contains (keys acls ++ cat ∷ []) a ≡ true) xs
  All-keys_snoc [] h = tt
  All-keys_snoc (x ∷ xs) h = (
    ground (
      arith,
      has-with_category x,
      contains-keys acls x,
      contains-append (keys acls) (cat ∷ []) x,
    ),
    All-keys_snoc xs (ground arith),
  )

  superset-with_category :
      (r : AclActionRule)
      → HasBloom r
      → all (has (with_category acls cat)) r.needed ≡ true
      → superset (add (bloom_of (keys acls)) cat) r.bloom ≡ true
  unfolding bloom_of
  superset-with_category r b h = rw b (
      rw foldl-append at
        (superset-add_all (keys acls ++ cat ∷ []) r.needed (All-keys_snoc r.needed h)))

  find_rule-first_fit :
      (actions : List Bytes) (rules : List AclActionRule)
      → All HasBloom rules
      → find_rule (add (bloom_of (keys acls)) cat) acls (choices_of actions) cat rules
        ≡ first_fit (fits actions acls cat) rules
  unfolding find_rule
  find_rule-first_fit actions [] h = refl
  find_rule-first_fit actions (r ∷ rules) h = ground (
    arith,
    superset-with_category r h.0,
    needed_loop_lem false r.needed,
    any-disallowed r.disallowed,
    has-choices_of actions r.action,
    find_rule-first_fit actions rules h.1,
  )

category_loop-choice_spec :
    (categories : GoMap Bytes Category) (rules : List AclActionRule) (acls : AclSet)
    (actions ignored cats : List Bytes)
    → All HasBloom rules
    → category_loop categories rules (bloom_of (keys acls)) acls actions ignored cats
      ≡ choice_spec categories rules acls actions ignored cats
unfolding category_loop choice_spec
category_loop-choice_spec categories rules acls actions ignored [] h =
    rw (choose_acl_action-first_rule rules acls actions h)
category_loop-choice_spec categories rules acls actions ignored (cat ∷ cats) h =
    rw
      (
        find_rule-first_fit acls cat actions rules h,
        category_loop-choice_spec categories rules acls actions (ignored ++ cat ∷ []) cats h,
      )
      refl

-- Where every rule has the filter of its needed ACLs, ChooseACLCategoryAction considers the
-- categories that reach the threshold from the highest score down, and for each takes the first
-- configured rule that fits the set of ACLs with the category, else the category's own action; it
-- returns the first such rule that is neither blank nor an ignore-category rule, and at the end
-- the first rule that applies to the ACLs alone. The Bloom filters change nothing.
pub choose_acl_category_action-choice_spec :
    (categories : GoMap Bytes Category) (rules : List AclActionRule) (acls : AclSet)
    (scores : GoMap Bytes ℤ) (threshold : ℤ) (actions : List Bytes)
    → All HasBloom rules
    → choose_acl_category_action categories rules acls scores threshold actions ≡ (
        let s = split_scores categories threshold scores (copy_acl_set acls, []) in
        choice_spec categories rules s.0 actions [] (sorted_keys s.1))
unfolding choose_acl_category_action
choose_acl_category_action-choice_spec categories rules acls scores threshold actions h =
    category_loop-choice_spec categories rules _ actions [] _ h
