-- ===== src/Acl.antt =====
-- acl.go, the action rules: which rule of the configuration applies to a set of ACLs.
--   AclActionRule             the struct ACLActionRule, with the Bloom filter of its needed ACLs
--   AclSet                    map[string]bool
--   choose_acl_action         ChooseACLAction, with the filter as a quick test before the sets
--   copy_acl_set, union_acl_sets
-- The proofs are in the modules below.
pub mod Choose
mod Tests
pub mod Category
pub mod Load
pub mod Response
pub mod Request
use redwood_filter.Common.{
  Bool, true, false, not, List, [], ◌∷◌, foldl, if◌then◌else◌, nat_eq, any, all, Bytes, bytes_eq,
}
use redwood_filter.Common.GoMap.{GoMap, lookup_or, insert, keys}
use redwood_filter.Bloom.{BloomFilter, no_bits, add, superset}

pub record AclActionRule : Type 0 where
  pub action : Bytes
  pub needed : List Bytes
  pub disallowed : List Bytes
  pub description : Bytes
  pub bloom : BloomFilter

abbrev pub blank_rule : AclActionRule
blank_rule = record { action = []; needed = []; disallowed = []; description = []; bloom = no_bits }

abbrev pub AclSet : Type 0
AclSet = GoMap Bytes Bool

-- acls[a]
abbrev pub has : AclSet → Bytes → Bool
has acls a = lookup_or a false acls

-- choices[a] = true, for the actions that the caller can take
abbrev pub choices_of : List Bytes → AclSet
choices_of = foldl (λ m a. insert a true m) []

unfoldable pub bloom_of : List Bytes → BloomFilter
bloom_of = foldl add no_bits

-- the loop `ruleLoop`
choose_loop : BloomFilter → AclSet → AclSet → List AclActionRule → AclActionRule
choose_loop bloom acls choices [] = blank_rule
choose_loop bloom acls choices (r ∷ rules) =
    let rest = choose_loop bloom acls choices rules in
    if not (superset bloom r.bloom)
    then rest
    else if not (has choices r.action)
    then rest
    else if not (all (has acls) r.needed)
    then rest
    else if any (has acls) r.disallowed
    then rest
    else r

unfoldable pub choose_acl_action : List AclActionRule → AclSet → List Bytes → AclActionRule
unfolding choose_loop bloom_of
choose_acl_action rules acls actions =
    choose_loop (bloom_of (keys acls)) acls (choices_of actions) rules

-- `if v { b[k] = true }` for each entry
add_true : AclSet → AclSet → AclSet
add_true b [] = b
add_true b ((k, v) ∷ a) = add_true (if v then insert k true b else b) a

unfoldable pub copy_acl_set : AclSet → AclSet
unfolding add_true
copy_acl_set a = add_true [] a

unfoldable pub union_acl_sets : List AclSet → AclSet
unfolding add_true
union_acl_sets = foldl add_true []
