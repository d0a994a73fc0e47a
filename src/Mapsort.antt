-- ===== src/Mapsort.antt =====
-- mapsort.go: a map's keys in descending order of their values, and keys of one value in
-- ascending order. `sort.Sort` is the standard library's; an insertion sort by the source's
-- `Less` gives the one order that it can give.
mod Order
mod Sorted
mod Tests
use redwood_filter.Common.{
  Bool, true, false, ◌&&◌, ◌||◌, List, [], ◌∷◌, ltb, nat_beq, if◌then◌else◌, ◌==◌, nat_eq, Bytes,
  bytes_eq,
}
use redwood_filter.Common.Int.{ℤ, pos, ltb_ℤ, int_eq}
use redwood_filter.Common.GoMap.{GoMap, lookup_or, keys}

-- Go's `<` on strings
unfoldable pub bytes_ltb : Bytes → Bytes → Bool
bytes_ltb s [] = false
bytes_ltb [] (d ∷ t) = true
bytes_ltb (c ∷ s) (d ∷ t) = ltb c d || (nat_beq c d && bytes_ltb s t)

-- `Less`, on the keys that stand at its two indices
unfoldable pub less : (Bytes → ℤ) → Bytes → Bytes → Bool
unfolding bytes_ltb
less value a b =
    if ltb_ℤ (value b) (value a) then true else if value a == value b then bytes_ltb a b else false

module _ {A : Type 0} (before : A → A → Bool) where
  unfoldable pub insert_by : A → List A → List A
  insert_by a [] = a ∷ []
  insert_by a (b ∷ l) = if before a b then a ∷ b ∷ l else b ∷ insert_by a l

  unfoldable pub sort_by : List A → List A
  unfolding insert_by
  sort_by [] = []
  sort_by (a ∷ l) = insert_by a (sort_by l)

unfoldable pub sorted_keys : GoMap Bytes ℤ → List Bytes
unfolding less sort_by
sorted_keys m = sort_by (less (λ k. lookup_or k (pos 0) m)) (keys m)
