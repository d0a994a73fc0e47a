-- ===== src/Collect.antt =====
-- categories.go: addRule and collectRules, which hand the rules of the categories to the phrase
-- list, the URL matcher, the image hashes and the compound rules. dhash.Parse and strconv.Atoi are
-- parameters. A rule with a bad image hash is logged and left out.
mod Parts
mod Tests
use redwood_filter.Common.{Option, none, some, List, [], ◌∷◌, ◌++◌, foldl, Bytes, bytes_eq}
use redwood_filter.Common.Text.{cut}
use redwood_filter.Common.GoMap.{GoMap, insert, keys}
use redwood_filter.Common.Int.{ℤ, negsuc}
use redwood_filter.Cuckoo.{CuckooFilter}
use redwood_filter.Rule.{Rule, simple, compound, SimpleRule, content_phrase, image_hash, Category}
use redwood_filter.Scoring.{CompoundRule}
use redwood_filter.Phrase.{PhraseList, add_phrase, find_fallback_nodes}
use redwood_filter.Url
use redwood_filter.Url.{Externals, UrlMatcher}

-- The fields of config that take part. An image hash stands with its threshold.
pub record Config (Hash : Type 0) : Type 0 where
  pub categories : GoMap Bytes Category
  pub content_phrase_list : PhraseList
  pub image_hashes : List (Hash × ℤ)
  pub url_rules : UrlMatcher
  pub compound_rules : List CompoundRule

-- The loop over c.urlLists.
abbrev pub add_lists :
    GoMap Bytes CuckooFilter → GoMap Bytes CuckooFilter → GoMap Bytes CuckooFilter
add_lists lists [] = lists
add_lists lists ((filename, filter) ∷ more) = add_lists (insert filename filter lists) more

-- The categories, their URL lists given up.
abbrev pub without_lists : GoMap Bytes Category → GoMap Bytes Category
without_lists [] = []
without_lists ((k, c) ∷ categories) = (k, record c { url_lists = [] }) ∷ without_lists categories

module _ (Hash : Type 0) (x : Externals) (parse_hash : Bytes → Option Hash)
    (atoi : Bytes → Option ℤ) where
  abbrev with_hash : List (Hash × ℤ) → ℤ → Option Hash → List (Hash × ℤ)
  with_hash hashes threshold none = hashes
  with_hash hashes threshold (some h) = hashes ++ (h, threshold) ∷ []

  -- Behind the first dash of the content is the threshold, and without one it is -1.
  unfoldable pub add_image_hash : List (Hash × ℤ) → SimpleRule → List (Hash × ℤ)
  add_image_hash hashes r = elim (cut b'-' r.content) [
    | none ↦ with_hash hashes (negsuc 0) (parse_hash r.content)
    | some (content, t) ↦ elim (atoi t) [
      | none ↦ hashes
      | some threshold ↦ with_hash hashes threshold (parse_hash content)
    ]
  ]

  unfoldable pub add_rule : Config Hash → Rule → Config Hash
  add_rule cf (simple r) = elim r.t [
    | content_phrase ↦ record cf {
      content_phrase_list = add_phrase cf.content_phrase_list r.content;
    }
    | image_hash ↦ record cf { image_hashes = add_image_hash cf.image_hashes r }
    | _ ↦ record cf { url_rules = Url.add_rule x cf.url_rules r }
  ]
  add_rule cf (compound left op right) =
      let added = add_rule (add_rule cf left) right in
      record added { compound_rules = added.compound_rules ++ (left, (op, right)) ∷ [] }

  -- The body of the loop over the categories.
  unfoldable pub collect_category : Config Hash → Category → Config Hash
  collect_category cf c =
      let added = foldl add_rule cf (keys c.weights) in
      let lists = add_lists added.url_rules.url_lists c.url_lists in
      record added { url_rules = record added.url_rules { url_lists = lists } }

  unfoldable pub collect_loop : Config Hash → GoMap Bytes Category → Config Hash
  collect_loop cf [] = cf
  collect_loop cf ((k, c) ∷ categories) = collect_loop (collect_category cf c) categories

  unfoldable pub collect_rules : Config Hash → Config Hash
  collect_rules cf =
      let collected = collect_loop cf cf.categories in
      record collected {
        categories = without_lists cf.categories;
        content_phrase_list = find_fallback_nodes collected.content_phrase_list;
        url_rules = Url.finalize collected.url_rules;
      }
