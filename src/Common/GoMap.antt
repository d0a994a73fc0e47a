-- ===== src/Common/GoMap.antt =====
-- Go's `map`: an association list. The order of the list is the order in which a `range` loop
-- meets the entries, which Go leaves open; theorems hold for every list, so for every order.
use mathlib.Core.Path.{◌≡◌, refl}
use mathlib.Core.Option.{Option, none, some}
use mathlib.Core.List.{List, [], ◌∷◌}
use native.Mathlib.Omega.{arith}
use mathlib.Core.Bool.{true, false}
use redwood_filter.Common.Tests.{KeyTest, ◌==◌, if◌then◌else◌}
use redwood_filter.Common.Lists.{contains}

abbrev pub GoMap {ℓ κ} : Type ℓ → Type κ → Type (ℓ ⊔ κ)
GoMap K V = List (K × V)

-- The keys that a `range` loop over the map meets.
abbrev pub keys {ℓ κ} : {K : Type ℓ} {V : Type κ} → GoMap K V → List K
keys [] = []
keys ((k, v) ∷ m) = k ∷ keys m

-- No key stands twice: what makes the list a map.
abbrev pub IsMap {ℓ κ} : {K : Type ℓ} {V : Type κ} ⦃e : KeyTest K⦄ → GoMap K V → Type 0
IsMap [] = Unit
IsMap ((k, v) ∷ m) = (contains (keys m) k ≡ false) × IsMap m

module _ {ℓ κ} {K : Type ℓ} {V : Type κ} ⦃e : KeyTest K⦄ where
  -- m[k], with `none` for a missing key
  abbrev pub lookup : K → GoMap K V → Option V
  lookup k [] = none
  lookup k ((j, v) ∷ m) = if j == k then some v else lookup k m

  -- m[k], with the zero value for a missing key
  abbrev pub lookup_or : K → V → GoMap K V → V
  lookup_or k d [] = d
  lookup_or k d ((j, v) ∷ m) = if j == k then v else lookup_or k d m

  -- m[k] = v
  abbrev pub insert : K → V → GoMap K V → GoMap K V
  insert k v [] = (k, v) ∷ []
  insert k v ((j, w) ∷ m) = if j == k then (k, v) ∷ m else (j, w) ∷ insert k v m

  pub lookup_or-insert :
      (k j : K) (v d : V) (m : GoMap K V)
      → lookup_or j d (insert k v m) ≡ (if k == j then v else lookup_or j d m)
  lookup_or-insert k j v d [] = refl
  lookup_or-insert k j v d ((i, w) ∷ m) =
      ground (arith, e.agree_iff k j, e.agree_iff i k, e.agree_iff i j, lookup_or-insert k j v d m)

  pub contains-keys-insert :
      (k j : K) (v : V) (m : GoMap K V)
      → contains (keys (insert k v m)) j ≡ (if k == j then true else contains (keys m) j)
  contains-keys-insert k j v [] = ground arith
  contains-keys-insert k j v ((i, w) ∷ m) =
      ground
        (arith, e.agree_iff k j, e.agree_iff i k, e.agree_iff i j, contains-keys-insert k j v m)

  pub insert-IsMap : (k : K) (v : V) (m : GoMap K V) → IsMap m → IsMap (insert k v m)
  insert-IsMap k v [] h = (refl, tt)
  insert-IsMap k v ((j, w) ∷ m) h = ground (
    arith,
    e.agree_iff j k,
    e.agree_iff k j,
    contains-keys-insert k j v m,
    insert-IsMap k v m h.1,
  )

  pub lookup_or-absent :
      (k : K) (d : V) (m : GoMap K V) → contains (keys m) k ≡ false → lookup_or k d m ≡ d
  lookup_or-absent k d [] h = refl
  lookup_or-absent k d ((j, v) ∷ m) h = ground (arith, lookup_or-absent k d m)

  pub lookup-insert :
      (k j : K) (v : V) (m : GoMap K V)
      → lookup j (insert k v m) ≡ (if k == j then some v else lookup j m)
  lookup-insert k j v [] = refl
  lookup-insert k j v ((i, w) ∷ m) =
      ground (arith, e.agree_iff k j, e.agree_iff i k, e.agree_iff i j, lookup-insert k j v m)

  pub lookup-absent : (k : K) (m : GoMap K V) → contains (keys m) k ≡ false → lookup k m ≡ none
  lookup-absent k [] h = refl
  lookup-absent k ((j, v) ∷ m) h = ground (arith, lookup-absent k m)
