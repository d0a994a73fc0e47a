-- ===== src/Acl/Category.antt =====
-- acl.go, ChooseACLCategoryAction: the action for a page with category scores. The receiver's two
-- fields that it reads, `c.Categories` and `c.ACLs.Actions`, are the arguments.
--   split_scores              the first loop: ACL categories join the set, the rest are kept if
--                             their score reaches the threshold
--   needed_loop, find_rule    the loop over the rules for one category
--   default_rule              the rule made for a category that no configured rule is about
--   category_loop             the loop over the categories, which gathers the ignored ones
pub mod Choice
pub mod Outcome
pub mod Scores
use redwood_filter.Common.{
  Bool, true, false, not, ◌&&◌, ◌||◌, Option, none, some, List, [], ◌∷◌, ◌++◌, if◌then◌else◌, ◌==◌,
  nat_eq, any, Bytes, codes, bytes_eq,
}
use redwood_filter.Common.GoMap.{GoMap, lookup, insert, keys}
use redwood_filter.Common.Int.{ℤ, pos, ltb_ℤ, leb_ℤ}
use redwood_filter.Bloom.{BloomFilter, add, superset}
use redwood_filter.Mapsort.{sorted_keys}
use redwood_filter.Rule.{Category, block, ignore, allow, acl}
use redwood_filter.Acl.{
  AclActionRule, blank_rule, AclSet, has, choices_of, bloom_of, choose_acl_action, copy_acl_set,
}

abbrev pub ignore_category : Bytes
ignore_category = codes "ignore-category"

-- c.Categories[k] != nil && c.Categories[k].action == ACL
unfoldable pub is_acl_category : GoMap Bytes Category → Bytes → Bool
is_acl_category categories k = elim (lookup k categories) [
  | none ↦ false
  | some c ↦ elim c.action [ acl ↦ true | _ ↦ false ]
]

-- one round of the first loop
pub score_entry :
    GoMap Bytes Category → ℤ → Bytes × ℤ → AclSet × GoMap Bytes ℤ → AclSet × GoMap Bytes ℤ
score_entry categories threshold (k, v) (acls, significant) =
    if ltb_ℤ (pos 0) v && is_acl_category categories k
    then (insert k true acls, significant)
    else if leb_ℤ threshold v
    then (acls, insert k v significant)
    else (acls, significant)

unfoldable pub split_scores :
    GoMap Bytes Category → ℤ → GoMap Bytes ℤ → AclSet × GoMap Bytes ℤ → AclSet × GoMap Bytes ℤ
unfolding score_entry
split_scores categories threshold [] r = r
split_scores categories threshold (e ∷ scores) r =
    split_scores categories threshold scores (score_entry categories threshold e r)

-- The loop over `r.Needed`: `none` goes on to the next rule, `some` has `okToIgnore`.
pub needed_loop : AclSet → Bytes → Bool → List Bytes → Option Bool
needed_loop acls cat ok [] = some ok
needed_loop acls cat ok (a ∷ needed) =
    let rest = needed_loop acls cat (if a == cat then true else ok) needed in
    if not (has acls a) && not (a == cat) then none else rest

-- the loop `ruleLoop` for one category
pub find_rule : BloomFilter → AclSet → AclSet → Bytes → List AclActionRule → Option AclActionRule
find_rule bloom acls choices cat [] = none
find_rule bloom acls choices cat (r ∷ rules) =
    let rest = find_rule bloom acls choices cat rules in
    if not (superset bloom r.bloom) then rest else elim (needed_loop acls cat false r.needed) [
      | none ↦ rest
      | some ok_to_ignore ↦
          if any (λ a. has acls a || a == cat) r.disallowed
          then rest
          else if has choices r.action || (ok_to_ignore && r.action == ignore_category)
          then some r
          else rest
    ]

-- the part `if !found`
pub default_action : AclSet → Category → Bytes
default_action choices c = elim c.action [
  | block ↦
      if c.invisible && has choices (codes "block-invisible")
      then codes "block-invisible"
      else if has choices (codes "block")
      then codes "block"
      else []
  | ignore ↦ ignore_category
  | allow ↦ if has choices (codes "allow") then codes "allow" else []
  | acl ↦ []
]

pub default_rule : GoMap Bytes Category → AclSet → Bytes → AclActionRule
default_rule categories choices cat =
    let r : AclActionRule = record blank_rule { needed = cat ∷ [] } in
    elim (lookup cat categories) [
      | none ↦ r
      | some c ↦ record r { action = default_action choices c }
    ]

abbrev pub rule_or : AclActionRule → Option AclActionRule → AclActionRule
rule_or d none = d
rule_or d (some r) = r

abbrev pub is_ignored : AclActionRule → Bool
is_ignored r = r.action == ignore_category || r.action == []

-- the loop over the categories, with the ignored ones so far
pub category_loop :
    GoMap Bytes Category
    → List AclActionRule
    → BloomFilter
    → AclSet
    → List Bytes
    → List Bytes
    → List Bytes
    → AclActionRule × List Bytes
category_loop categories rules bloom acls actions ignored [] =
    (choose_acl_action rules acls actions, ignored)
category_loop categories rules bloom acls actions ignored (cat ∷ cats) =
    let choices = choices_of actions in
    let r =
      rule_or (default_rule categories choices cat)
        (find_rule (add bloom cat) acls choices cat rules) in
    let rest = category_loop categories rules bloom acls actions (ignored ++ cat ∷ []) cats in
    if is_ignored r then rest else (r, ignored)

unfoldable pub choose_acl_category_action :
    GoMap Bytes Category
    → List AclActionRule
    → AclSet
    → GoMap Bytes ℤ
    → ℤ
    → List Bytes
    → AclActionRule × List Bytes
unfolding category_loop find_rule needed_loop default_rule default_action
choose_acl_category_action categories rules acls scores threshold actions =
    let (acls', significant) = split_scores categories threshold scores (copy_acl_set acls, []) in
    category_loop categories rules (bloom_of (keys acls')) acls' actions []
      (sorted_keys significant)
