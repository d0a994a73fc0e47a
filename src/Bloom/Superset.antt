-- ===== src/Bloom/Superset.antt =====
-- A filter to which a text was added passes for a superset of every filter built from such texts.
use Prim.Native.Nat.{bit_and, bit_or}
use redwood_filter.Common.{
  ℕ, zero, suc, ◌/◌, ◌%◌, ◌^◌, ◌<◌, ◌≡◌, refl, true, List, [], ◌∷◌, foldl, arith, ◌==◌, nat_eq,
  nat_beq_iff, get_or, get_or-set, length, length-set, Bytes, contains, bytes_eq, if◌then◌else◌,
  Bool-cases, inl, inr, All, ==→eq, ==-refl, ◌∙◌,
}
use redwood_filter.Common.Bits.{
  BitsIn, BitsIn-bit_or, BitsIn-bit_or_self, BitsIn-bit_or_join, BitsIn-refl, BitsIn-trans,
}
use redwood_filter.Bloom.{
  BloomFilter, set_bit, mix, add_hashes, add, superset, bloom_filter_bits, bloom_filter_size,
  fnv32_offset, no_bits,
}

-- Every bit of `b2` is set in `b`.
abbrev pub Includes : BloomFilter → BloomFilter → Type 0
Includes b b2 = (w : ℕ) → BitsIn (get_or b2 w 0) (get_or b w 0)

abbrev pub IsFilter : BloomFilter → Type 0
IsFilter b = length b ≡ bloom_filter_size

pub Includes-refl : (b : BloomFilter) → Includes b b
Includes-refl b w = BitsIn-refl _

pub Includes-trans : (b c d : BloomFilter) → Includes b c → Includes c d → Includes b d
Includes-trans b c d p q w = BitsIn-trans _ _ _ (q w) (p w)

Includes→superset : (b b2 : BloomFilter) → Includes b b2 → superset b b2 ≡ true
unfolding superset
Includes→superset [] b2 h = refl
Includes→superset (x ∷ b) [] h = refl
Includes→superset (x ∷ b) (y ∷ b2) h =
    ground (arith, nat_beq_iff (bit_and x y) y, h 0, Includes→superset b b2 (λ w. h (suc w)))

module _ (b : BloomFilter) (i : ℕ) (len : IsFilter b) (small : i < bloom_filter_bits) where
  get_or-set_bit :
      (w : ℕ)
      → get_or (set_bit b i) w 0
        ≡ (if i / 64 == w then bit_or (get_or b (i / 64) 0) (2 ^ (i % 64)) else get_or b w 0)
  unfolding set_bit
  get_or-set_bit w = get_or-set b (i / 64) w _ 0 (omega arith)

  set_bit-grows : Includes (set_bit b i) b
  set_bit-grows w = elim (Bool-cases (i / 64 == w)) [
    | inl e ↦ rw (get_or-set_bit w, e, ← ==→eq (i / 64) w e) (BitsIn-bit_or _ _ _ (BitsIn-refl _))
    | inr e ↦ rw (get_or-set_bit w, e) (BitsIn-refl _)
  ]

  set_bit-sets : BitsIn (2 ^ (i % 64)) (get_or (set_bit b i) (i / 64) 0)
  set_bit-sets = rw (get_or-set_bit (i / 64), ==-refl (i / 64)) (BitsIn-bit_or_self _ _)

  -- A filter that has the bit, and all that `b` has, has all that `set_bit` gives.
  set_bit-bound :
      (c : BloomFilter)
      → Includes c b
      → BitsIn (2 ^ (i % 64)) (get_or c (i / 64) 0)
      → Includes c (set_bit b i)
  set_bit-bound c p q w = elim (Bool-cases (i / 64 == w)) [
    | inl e ↦
        rw (get_or-set_bit w, e, ← ==→eq (i / 64) w e) (BitsIn-bit_or_join _ _ _ (p (i / 64)) q)
    | inr e ↦ rw (get_or-set_bit w, e) (p w)
  ]

set_bit-IsFilter : (b : BloomFilter) (i : ℕ) → IsFilter b → IsFilter (set_bit b i)
unfolding set_bit
set_bit-IsFilter b i h = length-set b (i / 64) _ ∙ h

probe_small : (h : ℕ) → h % bloom_filter_bits < bloom_filter_bits
probe_small h = omega arith

add_hashes-IsFilter : (n h : ℕ) (b : BloomFilter) → IsFilter b → IsFilter (add_hashes n h b)
unfolding add_hashes
add_hashes-IsFilter zero h b k = k
add_hashes-IsFilter (suc n) h b k =
    add_hashes-IsFilter n (mix h fnv32_offset) _ (set_bit-IsFilter b _ k)

add_hashes-grows : (n h : ℕ) (b : BloomFilter) → IsFilter b → Includes (add_hashes n h b) b
unfolding add_hashes
add_hashes-grows zero h b k = Includes-refl b
add_hashes-grows (suc n) h b k =
    let h' = mix h fnv32_offset in
    let b' = set_bit b (h' % bloom_filter_bits) in
    Includes-trans _ b' b (add_hashes-grows n h' b' (set_bit-IsFilter b _ k))
      (set_bit-grows b _ k (probe_small h'))

-- What includes the probes set in one filter, includes them set in any filter that it includes.
probe_moves :
    (b c d : BloomFilter) (i : ℕ)
    → IsFilter b
    → IsFilter c
    → i < bloom_filter_bits
    → Includes d (set_bit b i)
    → Includes d c
    → Includes d (set_bit c i)
probe_moves b c d i kb kc small p q =
    set_bit-bound c i kc small d q (BitsIn-trans _ _ _ (set_bit-sets b i kb small) (p (i / 64)))

add_hashes_moves :
    (n h : ℕ) (b c d : BloomFilter)
    → IsFilter b
    → IsFilter c
    → Includes d (add_hashes n h b)
    → Includes d c
    → Includes d (add_hashes n h c)
unfolding add_hashes
add_hashes_moves zero h b c d kb kc p q = q
add_hashes_moves (suc n) h b c d kb kc p q =
    let h' = mix h fnv32_offset in
    let i = h' % bloom_filter_bits in
    let b' = set_bit b i in
    let kb' = set_bit-IsFilter b i kb in
    add_hashes_moves n h' b' (set_bit c i) d kb' (set_bit-IsFilter c i kc) p (
      probe_moves b c d i kb kc (probe_small h')
        (Includes-trans d _ b' p (add_hashes-grows n h' b' kb')) q)

pub add-IsFilter : (b : BloomFilter) (s : Bytes) → IsFilter b → IsFilter (add b s)
unfolding add
add-IsFilter b s k = add_hashes-IsFilter 6 _ _ (set_bit-IsFilter b _ k)

pub add-grows : (b : BloomFilter) (s : Bytes) → IsFilter b → Includes (add b s) b
unfolding add
add-grows b s k =
    let i = foldl mix fnv32_offset s % bloom_filter_bits in
    Includes-trans _ (set_bit b i) b (add_hashes-grows 6 _ _ (set_bit-IsFilter b i k))
      (set_bit-grows b i k (probe_small _))

pub add_moves :
    (b c d : BloomFilter) (s : Bytes)
    → IsFilter b
    → IsFilter c
    → Includes d (add b s)
    → Includes d c
    → Includes d (add c s)
unfolding add
add_moves b c d s kb kc p q =
    let h = foldl mix fnv32_offset s in
    let i = h % bloom_filter_bits in
    let b' = set_bit b i in
    let kb' = set_bit-IsFilter b i kb in
    add_hashes_moves 6 h b' (set_bit c i) d kb' (set_bit-IsFilter c i kc) p (
      probe_moves b c d i kb kc (probe_small h)
        (Includes-trans d _ b' p (add_hashes-grows 6 h b' kb')) q)

-- The filter after a loop of `Add` calls.
abbrev pub add_all : BloomFilter → List Bytes → BloomFilter
add_all = foldl add

pub add_all-IsFilter : (b : BloomFilter) (xs : List Bytes) → IsFilter b → IsFilter (add_all b xs)
add_all-IsFilter b [] k = k
add_all-IsFilter b (x ∷ xs) k = add_all-IsFilter (add b x) xs (add-IsFilter b x k)

add_all-grows : (b : BloomFilter) (xs : List Bytes) → IsFilter b → Includes (add_all b xs) b
add_all-grows b [] k = Includes-refl b
add_all-grows b (x ∷ xs) k =
    Includes-trans _ (add b x) b (add_all-grows (add b x) xs (add-IsFilter b x k)) (add-grows b x k)

-- Some filter `b` with `a` added is included.
add_all-member :
    (b c : BloomFilter) (xs : List Bytes) (a : Bytes)
    → IsFilter b
    → IsFilter c
    → contains xs a ≡ true
    → Includes (add_all b xs) c
    → Includes (add_all b xs) (add c a)
add_all-member b c [] a kb kc m h = cc
add_all-member b c (x ∷ xs) a kb kc m h = elim (Bool-cases (x == a)) [
  | inl e ↦
      rw (← ==→eq x a e)
        (add_moves b c _ x kb kc (add_all-grows (add b x) xs (add-IsFilter b x kb)) h)
  | inr e ↦ add_all-member (add b x) c xs a (add-IsFilter b x kb) kc (ground arith) h
]

add_all-bound :
    (b c : BloomFilter) (xs ys : List Bytes)
    → IsFilter b
    → IsFilter c
    → All (λ y. contains xs y ≡ true) ys
    → Includes (add_all b xs) c
    → Includes (add_all b xs) (add_all c ys)
add_all-bound b c xs [] kb kc m h = h
add_all-bound b c xs (y ∷ ys) kb kc m h =
    add_all-bound b (add c y) xs ys kb (add-IsFilter c y kc) m.1
      (add_all-member b c xs y kb kc m.0 h)

-- No false negatives: if every text of `ys` is among `xs`, then the filter of `xs` passes for a
-- superset of the filter of `ys`.
pub superset-add_all :
    (xs ys : List Bytes)
    → All (λ y. contains xs y ≡ true) ys
    → superset (add_all no_bits xs) (add_all no_bits ys) ≡ true
superset-add_all xs ys m =
    Includes→superset _ _
      (add_all-bound no_bits no_bits xs ys refl refl m (add_all-grows no_bits xs refl))
