-- ===== src/Mapsort/Tests.antt =====
-- Runs of the sort, and the witness of its property.
use redwood_filter.Common.{◌≡◌, refl, [], ◌∷◌, arith, nat_eq, Bytes, codes, bytes_beq_iff, bytes_eq}
use mathlib.Core.List.{Perm}
use mathlib.Core.List.Perm
use redwood_filter.Common.GoMap.{GoMap, keys, lookup_or}
use redwood_filter.Common.Int.{ℤ, pos, negsuc}
use redwood_filter.Mapsort.{sorted_keys}
use redwood_filter.Mapsort.Sorted.{IsSorted, sorted_keys-IsSorted, sorted_keys_unordered}

abbrev scores : GoMap Bytes ℤ
scores = (codes "news", pos 10) ∷ (codes "games", pos 90) ∷ []

abbrev scores_again : GoMap Bytes ℤ
scores_again = (codes "games", pos 90) ∷ (codes "news", pos 10) ∷ []

abbrev tied : GoMap Bytes ℤ
tied = (codes "b", negsuc 4) ∷ (codes "a", negsuc 4) ∷ (codes "c", pos 1) ∷ []

sorted_keys_runs : sorted_keys tied ≡ codes "c" ∷ codes "a" ∷ codes "b" ∷ []
unfolding sorted_keys
sorted_keys_runs = refl

sorted_keys-IsSorted_example :
    IsSorted (λ k. lookup_or k (pos 0) tied) (sorted_keys tied)
    × Perm (sorted_keys tied) (keys tied)
sorted_keys-IsSorted_example = sorted_keys-IsSorted tied

sorted_keys_unordered_example : sorted_keys scores ≡ sorted_keys scores_again
sorted_keys_unordered_example =
    sorted_keys_unordered scores scores_again (Perm.swap (codes "games") (codes "news") []) same
  where
    same : (k : Bytes) → lookup_or k (pos 0) scores ≡ lookup_or k (pos 0) scores_again
    same k = ground (arith, bytes_beq_iff (codes "news") k, bytes_beq_iff (codes "games") k)
