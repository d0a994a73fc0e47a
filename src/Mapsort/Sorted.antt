-- ===== src/Mapsort/Sorted.antt =====
-- The sorted keys: the order that they are in, described apart from `Less`, and that the order in
-- which a `range` loop meets the map does not show in them.
use redwood_filter.Common.{
  ◌≡◌, ◌⊎◌, ℕ, ◌<◌, ◌++◌, ◌==◌, nat_beq, sym, ==→eq, inl, inr, refl, ap₂, ◌∙◌, true, false, List,
  [], ◌∷◌, arith, nat_eq, Bool-cases, All, Bytes, bytes_eq,
}
use mathlib.Core.List.{Perm, Permᴰ}
use mathlib.Core.List.Permᴰ
use mathlib.Core.Logic.{∥∥₁_elim}
use mathlib.Core.Path.{fun_ext}
use redwood_filter.Common.GoMap.{GoMap, lookup_or, keys}
use redwood_filter.Common.Int.{ℤ, pos, int_eq, ◌<ℤ◌}
use redwood_filter.Mapsort.{less, bytes_ltb, insert_by, sort_by, sorted_keys}
use redwood_filter.Mapsort.Order.{less_trans, less_total, less_asym}

-- In the order of dictionaries, by the numbers of the bytes, the first text is not after the second:
-- it is a first part of it, or has the smaller byte at the first difference.
pub data IsUpTo : Bytes → Bytes → Type 0 where
  first_part : (s rest : Bytes) → IsUpTo s (s ++ rest)
  smaller :
      (common : Bytes) (c d : ℕ) (s t : Bytes) → c < d → IsUpTo (common ++ c ∷ s) (common ++ d ∷ t)

IsUpTo-cons : (c : ℕ) {s t : Bytes} → IsUpTo s t → IsUpTo (c ∷ s) (c ∷ t)
IsUpTo-cons c (first_part s rest) = first_part (c ∷ s) rest
IsUpTo-cons c (smaller common a b s t h) = smaller (c ∷ common) a b s t h

bytes_ltb-IsUpTo : (s t : Bytes) → bytes_ltb t s ≡ false → IsUpTo s t
unfolding bytes_ltb
bytes_ltb-IsUpTo [] t h = first_part [] t
bytes_ltb-IsUpTo (c ∷ s) [] h = cc h
bytes_ltb-IsUpTo (c ∷ s) (d ∷ t) h = elim (Bool-cases (nat_beq d c)) [
  | inl e ↦
      let same : d ≡ c = ground (arith, e) in
      rw same (IsUpTo-cons c (bytes_ltb-IsUpTo s t (ground (arith, e, h))))
  | inr e ↦ smaller [] c d s t (ground (arith, e, h))
]

-- The first key has the higher value, or the same value and a name that is not after the other's.
abbrev pub IsFirst : (Bytes → ℤ) → Bytes → Bytes → Type 0
IsFirst value a b = (value b <ℤ value a) ⊎ ((value a ≡ value b) × IsUpTo a b)

-- Each key stands before the others in this order.
abbrev pub IsSorted : (Bytes → ℤ) → List Bytes → Type 0
IsSorted value [] = Unit
IsSorted value (a ∷ l) = All (IsFirst value a) l × IsSorted value l

less-IsFirst : (value : Bytes → ℤ) (a b : Bytes) → less value b a ≡ false → IsFirst value a b
unfolding less
less-IsFirst value a b h = elim (Bool-cases (value b == value a)) [
  | inl e ↦ inr (sym (==→eq _ _ e), bytes_ltb-IsUpTo a b (ground (arith, e, h)))
  | inr e ↦ inl (ground (arith, e, h))
]

keys_set : IsSet (List Bytes)
keys_set = hlevel

module _ (value : Bytes → ℤ) where
  insert_by_comm :
      (a b : Bytes) (l : List Bytes)
      → insert_by (less value) a (insert_by (less value) b l)
        ≡ insert_by (less value) b (insert_by (less value) a l)
  unfolding insert_by
  insert_by_comm a b [] =
      ground (arith, less_asym value a b, less_asym value b a, less_total value a b)
  insert_by_comm a b (c ∷ l) = ground (
    arith,
    insert_by_comm a b l,
    less_asym value a b,
    less_asym value b a,
    less_total value a b,
    less_trans value a b c,
    less_trans value b a c,
    less_asym value a c,
    less_asym value b c,
    less_total value a c,
    less_total value b c,
  )

  sort_by-Permᴰ : {l m : List Bytes} → Permᴰ l m → sort_by (less value) l ≡ sort_by (less value) m
  unfolding sort_by
  sort_by-Permᴰ Permᴰ.nil = refl
  sort_by-Permᴰ (Permᴰ.cons e p) = ap₂ (insert_by (less value)) e (sort_by-Permᴰ p)
  sort_by-Permᴰ (Permᴰ.swap {a} {b} {l = l} e f) =
      insert_by_comm a b (sort_by (less value) l)
      ∙ ap₂ (λ x y. insert_by (less value) x (insert_by (less value) y (sort_by (less value) l))) f
          e
  sort_by-Permᴰ (Permᴰ.trans p q) = sort_by-Permᴰ p ∙ sort_by-Permᴰ q

  sort_by-perm : {l m : List Bytes} → Perm l m → sort_by (less value) l ≡ sort_by (less value) m
  sort_by-perm p = ∥∥₁_elim p (keys_set _ _) sort_by-Permᴰ

  -- No key stands behind one that `Less` puts after it.
  abbrev IsOrdered : List Bytes → Type 0
  IsOrdered [] = Unit
  IsOrdered (a ∷ l) = All (λ b. less value b a ≡ false) l × IsOrdered l

  insert_by-All :
      (P : Bytes → Type 0) (a : Bytes) (l : List Bytes)
      → P a
      → All P l
      → All P (insert_by (less value) a l)
  unfolding insert_by
  insert_by-All P a [] h k = (h, tt)
  insert_by-All P a (b ∷ l) h k = elim (Bool-cases (less value a b)) [
    | inl e ↦ rw e (h, k)
    | inr e ↦ rw e (k.0, insert_by-All P a l h k.1)
  ]

  All-before :
      (a b : Bytes) (l : List Bytes)
      → less value a b ≡ true
      → All (λ c. less value c b ≡ false) l
      → All (λ c. less value c a ≡ false) l
  All-before a b [] h k = tt
  All-before a b (c ∷ l) h (k, ks) = (
    elim (Bool-cases (less value c a)) [ inl e ↦ cc (less_trans value c a b e h, k) | inr e ↦ e ],
    All-before a b l h ks,
  )

  insert_by-IsOrdered :
      (a : Bytes) (l : List Bytes) → IsOrdered l → IsOrdered (insert_by (less value) a l)
  unfolding insert_by
  insert_by-IsOrdered a [] h = (tt, tt)
  insert_by-IsOrdered a (b ∷ l) h = elim (Bool-cases (less value a b)) [
    | inl e ↦ rw e ((less_asym value a b e, All-before a b l e h.0), h)
    | inr e ↦
        rw e (insert_by-All (λ c. less value c b ≡ false) a l e h.0, insert_by-IsOrdered a l h.1)
  ]

  sort_by-IsOrdered : (l : List Bytes) → IsOrdered (sort_by (less value) l)
  unfolding sort_by
  sort_by-IsOrdered [] = tt
  sort_by-IsOrdered (a ∷ l) = insert_by-IsOrdered a (sort_by (less value) l) (sort_by-IsOrdered l)

  IsOrdered-All :
      (a : Bytes) (l : List Bytes) → All (λ b. less value b a ≡ false) l → All (IsFirst value a) l
  IsOrdered-All a [] h = tt
  IsOrdered-All a (b ∷ l) h = (less-IsFirst value a b h.0, IsOrdered-All a l h.1)

  IsOrdered-IsSorted : (l : List Bytes) → IsOrdered l → IsSorted value l
  IsOrdered-IsSorted [] h = tt
  IsOrdered-IsSorted (a ∷ l) h = (IsOrdered-All a l h.0, IsOrdered-IsSorted l h.1)

  insert_by-perm : (a : Bytes) (l : List Bytes) → Permᴰ (insert_by (less value) a l) (a ∷ l)
  unfolding insert_by
  insert_by-perm a [] = Permᴰ.refl _
  insert_by-perm a (b ∷ l) = elim (Bool-cases (less value a b)) [
    | inl e ↦ rw e (Permᴰ.refl _)
    | inr e ↦ rw e (Permᴰ.trans (Permᴰ.cons refl (insert_by-perm a l)) (Permᴰ.swap refl refl))
  ]

  sort_by-Permᴰ_self : (l : List Bytes) → Permᴰ (sort_by (less value) l) l
  unfolding sort_by
  sort_by-Permᴰ_self [] = Permᴰ.nil
  sort_by-Permᴰ_self (a ∷ l) =
      Permᴰ.trans (insert_by-perm a (sort_by (less value) l))
        (Permᴰ.cons refl (sort_by-Permᴰ_self l))

-- sortedKeys returns the keys of the map, each as often as the map has it; before any other stands
-- only a key with a higher value, or with the same value and a name that is a first part of the
-- other's or has the smaller byte at the first difference.
pub sorted_keys-IsSorted :
    (m : GoMap Bytes ℤ)
    → IsSorted (λ k. lookup_or k (pos 0) m) (sorted_keys m) × Perm (sorted_keys m) (keys m)
unfolding sorted_keys
sorted_keys-IsSorted m =
    let value : Bytes → ℤ = λ k. lookup_or k (pos 0) m in
    (
      IsOrdered-IsSorted value (sort_by (less value) (keys m)) (sort_by-IsOrdered value (keys m)),
      ∣ sort_by-Permᴰ_self value (keys m) ∣₁,
    )

-- The order in which Go ranges over the map does not show: two lists of the same entries, in any
-- order, give the same sorted keys.
pub sorted_keys_unordered :
    (m n : GoMap Bytes ℤ)
    → Perm (keys m) (keys n)
    → ((k : Bytes) → lookup_or k (pos 0) m ≡ lookup_or k (pos 0) n)
    → sorted_keys m ≡ sorted_keys n
unfolding sorted_keys
sorted_keys_unordered m n p same = rw (fun_ext same) (sort_by-perm (λ k. lookup_or k (pos 0) n) p)
