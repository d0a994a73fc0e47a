-- ===== src/Collect/Tests.antt =====
-- The witness of the collection of rules: a category with a compound rule, an image hash and a URL
-- list.
use redwood_filter.Common.{[], ◌∷◌, false, none, Option, Bytes, codes}
use redwood_filter.Common.GoMap.{GoMap}
use redwood_filter.Common.Int.{ℤ, pos}
use redwood_filter.Cuckoo.{CuckooFilter}
use redwood_filter.Rule.{Category, Weight, simple, image_hash, block}
use redwood_filter.Rule.Parse.{of_content}
use redwood_filter.Rule.Tests.{shop_not_ads}

abbrev ten : Weight
ten = record { points = pos 10; max_points = pos 0 }

abbrev one_bucket : CuckooFilter
one_bucket = record { buckets = (0 ∷ 0 ∷ 0 ∷ 0 ∷ []) ∷ []; mask = 0; bucket_bits = 0 }

abbrev shopping : Category
shopping = record {
  name = codes "shopping";
  description = codes "shopping";
  action = block;
  weights = (shop_not_ads, ten) ∷ (simple (of_content image_hash (codes "1f-9")), ten) ∷ [];
  url_lists = (codes "shops.urllist", one_bucket) ∷ [];
  invisible = false;
}

abbrev only_shopping : GoMap Bytes Category
only_shopping = (codes "shopping", shopping) ∷ []

abbrev no_number : Bytes → Option ℤ
no_number s = none
