-- ===== src/Acl/Choose.antt =====
-- `ChooseACLAction` against the plain definition without the Bloom filters, and the ACL sets.
use redwood_filter.Common.{
  ◌≡◌, ◌⊎◌, inr, refl, Bool, true, false, not, ◌&&◌, ◌||◌, List, [], ◌∷◌, foldl, arith,
  if◌then◌else◌, nat_eq, All, any, all, contains, Bytes, bytes_beq_iff, bytes_eq,
}
use redwood_filter.Common.GoMap.{insert, lookup_or-insert, keys, IsMap, lookup_or-absent}
use redwood_filter.Bloom.{superset}
use redwood_filter.Bloom.Superset.{superset-add_all}
use redwood_filter.Acl.{
  AclActionRule, blank_rule, AclSet, has, choices_of, bloom_of, choose_loop, choose_acl_action,
  add_true, copy_acl_set, union_acl_sets,
}

-- The rule's filter is that of its needed ACLs, as `load` builds it.
abbrev pub HasBloom : AclActionRule → Type 0
HasBloom r = r.bloom ≡ bloom_of r.needed

-- What the rule asks of the set of ACLs, with no filter.
abbrev pub applies : AclSet → AclActionRule → Bool
applies acls r = all (has acls) r.needed && not (any (has acls) r.disallowed)

abbrev pub first_rule : (AclActionRule → Bool) → List AclActionRule → AclActionRule
first_rule p [] = blank_rule
first_rule p (r ∷ rules) = if p r then r else first_rule p rules

has-foldl-insert :
    (m : AclSet) (xs : List Bytes) (a : Bytes)
    → has (foldl (λ n x. insert x true n) m xs) a ≡ (contains xs a || has m a)
has-foldl-insert m [] a = refl
has-foldl-insert m (x ∷ xs) a =
    ground (arith, has-foldl-insert (insert x true m) xs a, lookup_or-insert x a true false m)

pub has-choices_of :
    (actions : List Bytes) (a : Bytes) → has (choices_of actions) a ≡ contains actions a
has-choices_of actions a = ground (arith, has-foldl-insert [] actions a)

pub contains-keys : (acls : AclSet) (a : Bytes) → has acls a ≡ true → contains (keys acls) a ≡ true
contains-keys [] a h = cc
contains-keys ((k, v) ∷ acls) a h = ground (arith, contains-keys acls a)

All-keys :
    (acls : AclSet) (xs : List Bytes)
    → all (has acls) xs ≡ true
    → All (λ a. contains (keys acls) a ≡ true) xs
All-keys acls [] h = tt
All-keys acls (x ∷ xs) h = (contains-keys acls x (ground arith), All-keys acls xs (ground arith))

-- The filter never hides a rule whose needed ACLs are all there.
pub superset-needed :
    (acls : AclSet) (r : AclActionRule)
    → HasBloom r
    → all (has acls) r.needed ≡ true
    → superset (bloom_of (keys acls)) r.bloom ≡ true
unfolding bloom_of
superset-needed acls r b h = rw b (superset-add_all (keys acls) r.needed (All-keys acls r.needed h))

-- Where every rule has the filter of its needed ACLs, ChooseACLAction returns the first rule of
-- the configuration whose action is among the given ones, whose needed ACLs are all in the set and
-- whose disallowed ACLs are not, and the blank rule if there is none: the filters change nothing.
pub choose_acl_action-first_rule :
    (rules : List AclActionRule) (acls : AclSet) (actions : List Bytes)
    → All HasBloom rules
    → choose_acl_action rules acls actions
      ≡ first_rule (λ r. contains actions r.action && applies acls r) rules
unfolding choose_acl_action
choose_acl_action-first_rule rules acls actions h = loop rules h
  where
    loop :
        (rs : List AclActionRule)
        → All HasBloom rs
        → choose_loop (bloom_of (keys acls)) acls (choices_of actions) rs
          ≡ first_rule (λ r. contains actions r.action && applies acls r) rs
    loop [] h = refl
    loop (r ∷ rs) h =
        ground (arith, has-choices_of actions r.action, superset-needed acls r h.0, loop rs h.1)

-- ChooseACLAction returns the blank rule, or a rule whose action the caller can take.
pub choose_acl_action-action :
    (rules : List AclActionRule) (acls : AclSet) (actions : List Bytes)
    → (contains actions (choose_acl_action rules acls actions).action ≡ true)
      ⊎ (choose_acl_action rules acls actions ≡ blank_rule)
unfolding choose_acl_action
choose_acl_action-action rules acls actions = loop rules
  where
    loop :
        (rs : List AclActionRule)
        → let r = choose_loop (bloom_of (keys acls)) acls (choices_of actions) rs in
          (contains actions r.action ≡ true) ⊎ (r ≡ blank_rule)
    loop [] = inr refl
    loop (r ∷ rs) = ground (arith, has-choices_of actions r.action, loop rs)

has-add_true : (b a : AclSet) (x : Bytes) → IsMap a → has (add_true b a) x ≡ (has a x || has b x)
unfolding add_true
has-add_true b [] x h = refl
has-add_true b ((k, v) ∷ a) x h = ground (
  arith,
  has-add_true (if v then insert k true b else b) a x h.1,
  lookup_or-insert k x true false b,
  lookup_or-absent k false a h.0,
  bytes_beq_iff k x,
)

-- A copy has the same ACLs.
pub has-copy_acl_set : (a : AclSet) (x : Bytes) → IsMap a → has (copy_acl_set a) x ≡ has a x
unfolding copy_acl_set
has-copy_acl_set a x h = ground (arith, has-add_true [] a x h)

has-foldl-add_true :
    (b : AclSet) (sets : List AclSet) (x : Bytes)
    → All IsMap sets
    → has (foldl add_true b sets) x ≡ (has b x || any (λ a. has a x) sets)
has-foldl-add_true b [] x h = ground arith
has-foldl-add_true b (a ∷ sets) x h =
    ground (arith, has-foldl-add_true (add_true b a) sets x h.1, has-add_true b a x h.0)

-- An ACL is in the union exactly when it is in one of the sets.
has-union_acl_sets :
    (sets : List AclSet) (x : Bytes)
    → All IsMap sets
    → has (union_acl_sets sets) x ≡ any (λ a. has a x) sets
unfolding union_acl_sets
has-union_acl_sets sets x h = has-foldl-add_true [] sets x h
