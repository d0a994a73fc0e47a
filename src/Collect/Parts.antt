-- ===== src/Collect/Parts.antt =====
-- Each rule of a category arrives where it belongs.
use redwood_filter.Common.{
  ◌≡◌, Bool, true, false, not, ◌||◌, List, [], ◌∷◌, ◌++◌, foldl, if◌then◌else◌, Option, Bytes,
  bytes_eq,
}
use redwood_filter.Common.GoMap.{GoMap, keys}
use redwood_filter.Common.Int.{ℤ}
use redwood_filter.Cuckoo.{CuckooFilter}
use redwood_filter.Rule.{
  Rule, simple, compound, SimpleRule, Category, RuleType, content_phrase, image_hash,
}
use redwood_filter.Scoring.{collect_compound}
use redwood_filter.Phrase.{add_phrases, new_phrase_list, find_fallback_nodes}
use redwood_filter.Url
use redwood_filter.Url.{Externals, UrlMatcher, new_url_matcher}
use redwood_filter.Url.Hits.{built}
use redwood_filter.Url.Lists.{with_lists}
use redwood_filter.Collect.{Config, add_lists, add_image_hash, add_rule}

-- The simple rules in a rule, from left to right, in rules and in categories.
abbrev pub parts : Rule → List SimpleRule
parts (simple r) = r ∷ []
parts (compound left op right) = parts left ++ parts right

abbrev pub all_parts : List Rule → List SimpleRule
all_parts [] = []
all_parts (r ∷ rs) = parts r ++ all_parts rs

abbrev pub category_parts : GoMap Bytes Category → List SimpleRule
category_parts [] = []
category_parts ((k, c) ∷ categories) = all_parts (keys c.weights) ++ category_parts categories

abbrev pub all_lists : GoMap Bytes CuckooFilter → GoMap Bytes Category → GoMap Bytes CuckooFilter
all_lists lists [] = lists
all_lists lists ((k, c) ∷ categories) = all_lists (add_lists lists c.url_lists) categories

abbrev pub is_phrase : RuleType → Bool
is_phrase t = elim t [ content_phrase ↦ true | _ ↦ false ]

abbrev pub is_image : RuleType → Bool
is_image t = elim t [ image_hash ↦ true | _ ↦ false ]

abbrev pub is_for_url : RuleType → Bool
is_for_url t = not (is_phrase t || is_image t)

abbrev pub select : (RuleType → Bool) → List SimpleRule → List SimpleRule
select p [] = []
select p (r ∷ rs) = if p r.t then r ∷ select p rs else select p rs

abbrev pub contents : List SimpleRule → List Bytes
contents [] = []
contents (r ∷ rs) = r.content ∷ contents rs

module _ (Hash : Type 0) (x : Externals) (parse_hash : Bytes → Option Hash)
    (atoi : Bytes → Option ℤ) where
  -- What a configuration becomes by some simple rules, a loop's compound rules apart.
  record HasTaken (rs : List SimpleRule) (cf after : Config Hash) : Type 0 where
    phrases :
        after.content_phrase_list
        ≡ add_phrases cf.content_phrase_list (contents (select is_phrase rs))
    images :
        after.image_hashes
        ≡ foldl (add_image_hash Hash x parse_hash atoi) cf.image_hashes (select is_image rs)
    urls : after.url_rules ≡ foldl (Url.add_rule x) cf.url_rules (select is_for_url rs)

  abbrev added : Config Hash → Rule → Config Hash
  added = add_rule Hash x parse_hash atoi

  -- The loop over the categories, from a matcher m with some URL lists.
  record HasCollected (categories : GoMap Bytes Category) (lists : GoMap Bytes CuckooFilter)
      (m : UrlMatcher) (cf after : Config Hash) : Type 0 where
    phrases :
        after.content_phrase_list
        ≡ add_phrases cf.content_phrase_list
            (contents (select is_phrase (category_parts categories)))
    images :
        after.image_hashes
        ≡ foldl
            (add_image_hash Hash x parse_hash atoi)
            cf.image_hashes
            (select is_image (category_parts categories))
    urls :
        after.url_rules
        ≡ with_lists
            (all_lists lists categories)
            (foldl (Url.add_rule x) m (select is_for_url (category_parts categories)))
    compounds : after.compound_rules ≡ collect_compound categories cf.compound_rules

-- A configuration before its rules are collected.
abbrev pub new_config : (Hash : Type 0) → GoMap Bytes Category → List Bytes → Config Hash
new_config Hash categories suffixes = record {
  categories = categories;
  content_phrase_list = new_phrase_list;
  image_hashes = [];
  url_rules = record new_url_matcher { public_suffixes = suffixes };
  compound_rules = [];
}

-- Every part of the rules of the categories is where it belongs.
pub record IsDelivered (Hash : Type 0) (x : Externals) (parse_hash : Bytes → Option Hash)
    (atoi : Bytes → Option ℤ) (categories : GoMap Bytes Category) (suffixes : List Bytes)
    (cf : Config Hash) : Type 0 where
  pub phrases :
      cf.content_phrase_list
      ≡ find_fallback_nodes
          (add_phrases new_phrase_list (contents (select is_phrase (category_parts categories))))
  pub urls :
      cf.url_rules
      ≡ built x suffixes (all_lists [] categories) (select is_for_url (category_parts categories))
  pub images :
      cf.image_hashes
      ≡ foldl
          (add_image_hash Hash x parse_hash atoi)
          []
          (select is_image (category_parts categories))
  pub compounds : cf.compound_rules ≡ collect_compound categories []
