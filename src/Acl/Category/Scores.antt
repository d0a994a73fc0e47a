-- ===== src/Acl/Category/Scores.antt =====
-- The first loop of `ChooseACLCategoryAction`: where each category goes.
use redwood_filter.Common.{
  ◌≡◌, refl, ap, ◌∙◌, Bool, true, false, ◌&&◌, ◌||◌, Option, none, some, [], ◌∷◌, arith,
  if◌then◌else◌, nat_eq, Bytes, bytes_beq_iff, bytes_eq,
}
use redwood_filter.Common.GoMap.{
  GoMap, lookup, IsMap, lookup-insert, lookup-absent, lookup_or-insert,
}
use redwood_filter.Common.Int.{ℤ, pos, ltb_ℤ, leb_ℤ}
use redwood_filter.Rule.{Category}
use redwood_filter.Acl.{AclSet, has, copy_acl_set}
use redwood_filter.Acl.Choose.{has-copy_acl_set}
use redwood_filter.Acl.Category.{is_acl_category, score_entry, split_scores}

module _ (categories : GoMap Bytes Category) (threshold : ℤ) where
  -- A positive score of an ACL category puts its name into the set.
  abbrev pub joins : Bytes → Option ℤ → Bool
  joins k none = false
  joins k (some v) = ltb_ℤ (pos 0) v && is_acl_category categories k

  -- Any other score counts if it reaches the threshold.
  abbrev pub significant : Bytes → Option ℤ → Option ℤ
  significant k none = none
  significant k (some v) =
      if joins k (some v) then none else if leb_ℤ threshold v then some v else none

  abbrev or_else : Option ℤ → Option ℤ → Option ℤ
  or_else none d = d
  or_else (some v) d = some v

  has-split_scores :
      (scores : GoMap Bytes ℤ) (r : AclSet × GoMap Bytes ℤ) (x : Bytes)
      → IsMap scores
      → has (split_scores categories threshold scores r).0 x
        ≡ (joins x (lookup x scores) || has r.0 x)
  unfolding split_scores
  has-split_scores [] r x h = refl
  has-split_scores ((k, v) ∷ scores) (acls, kept) x h = ground (
    arith,
    has-split_scores scores (score_entry categories threshold (k, v) (acls, kept)) x h.1,
    lookup_or-insert k x true false acls,
    lookup-absent k scores h.0,
    bytes_beq_iff k x,
  )

  lookup-split_scores :
      (scores : GoMap Bytes ℤ) (r : AclSet × GoMap Bytes ℤ) (x : Bytes)
      → IsMap scores
      → lookup x (split_scores categories threshold scores r).1
        ≡ or_else (significant x (lookup x scores)) (lookup x r.1)
  unfolding split_scores
  lookup-split_scores [] r x h = refl
  lookup-split_scores ((k, v) ∷ scores) (acls, kept) x h = ground (
    arith,
    lookup-split_scores scores (score_entry categories threshold (k, v) (acls, kept)) x h.1,
    lookup-insert k x v kept,
    lookup-absent k scores h.0,
    bytes_beq_iff k x,
  )

  -- Of each category with a score exactly one of these holds: it is an ACL category with a positive
  -- score and joins the set of ACLs, or its score reaches the threshold and it is kept with that
  -- score, or it is dropped. An ACL is in the set afterwards exactly when it was before or joined.
  pub split_scores_lem :
      (acls : AclSet) (scores : GoMap Bytes ℤ) (x : Bytes)
      → IsMap acls
      → IsMap scores
      → let s = split_scores categories threshold scores (copy_acl_set acls, []) in
        (has s.0 x ≡ (joins x (lookup x scores) || has acls x))
        × (lookup x s.1 ≡ significant x (lookup x scores))
  split_scores_lem acls scores x ha hs = (
    has-split_scores scores (copy_acl_set acls, []) x hs
        ∙ ap (λ b. joins x (lookup x scores) || b) (has-copy_acl_set acls x ha),
    ground (arith, lookup-split_scores scores (copy_acl_set acls, []) x hs),
  )
