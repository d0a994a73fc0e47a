-- ===== src/Cuckoo/Filter.antt =====
-- What makes a cuckoo filter well formed, and that `insert` and the rounds of `Insert` keep it so
-- and lose no fingerprint.
use redwood_filter.Common.{
  ℕ, zero, suc, ◌+◌, ◌-◌, ◌*◌, ◌/◌, ◌%◌, ◌^◌, ◌≤◌, ◌<◌, ◌≡◌, inl, inr, refl, ap, ◌∙◌, true, false,
  some, [], ◌∷◌, arith, ◌==◌, nat_eq, Bool-cases, Option-cases, length, get_or, set, length-set,
  get_or-set, bytes_eq,
}
use mathlib.Core.Option.{some-injective}
use native.Mathlib.Nat.{div-lt_iff_lt-mul}
use redwood_filter.Common.Xor.{xor_lt}
use redwood_filter.Cuckoo.{
  Bucket, empty_bucket, CuckooFilter, alt_index, put, bucket_at, insert, exchange, kick_loop,
}
use redwood_filter.Cuckoo.Places.{alt_index_cancel, is_in, is_kept, put-is_kept, exchange-is_kept}

pub record IsFilter (f : CuckooFilter) : Type 0 where
  pub size : length f.buckets ≡ 2 ^ f.bucket_bits
  pub mask_size : f.mask + 1 ≡ 2 ^ f.bucket_bits
  pub few_bits : f.bucket_bits ≤ 32
  pub four_slots : (i : ℕ) → length (bucket_at f i) ≡ 4

pub pow_split : (a b : ℕ) → 2 ^ (a + b) ≡ 2 ^ a * 2 ^ b
pow_split zero b = let e : zero + b ≡ b = omega arith in rw e (omega arith)
pow_split (suc a) b =
    let e : suc a + b ≡ suc (a + b) = omega arith in rw e (grind (arith, pow_split a b))

pub pow_positive : (n : ℕ) → 0 < 2 ^ n
pow_positive zero = omega arith
pow_positive (suc n) = omega (arith, pow_positive n)

-- The top bits of a 32-bit product.
top_bits : (n x : ℕ) → n ≤ 32 → x % 2 ^ 32 / 2 ^ (32 - n) < 2 ^ n
top_bits n x h =
    let split : 32 ≡ n + (32 - n) = omega (arith, h) in
    let e : 2 ^ 32 ≡ 2 ^ n * 2 ^ (32 - n) = ap (λ x. 2 ^ x) split ∙ pow_split n (32 - n) in
    let low : x % 2 ^ 32 < 2 ^ 32 = omega arith in
    (div-lt_iff_lt-mul (pow_positive (32 - n))).1 (rw (← e) low)

pub alt_index-lt :
    (f : CuckooFilter) (fp i : ℕ)
    → IsFilter f
    → i < length f.buckets
    → alt_index f fp i < length f.buckets
unfolding alt_index
alt_index-lt f fp i v h = rw v.size (
    xor_lt f.bucket_bits (fp * 0x1e35a7bd % 2 ^ 32 / 2 ^ (32 - f.bucket_bits)) i
      (top_bits f.bucket_bits (fp * 0x1e35a7bd) v.few_bits) (rw (← v.size) h))

length-put : (fp : ℕ) (b b' : Bucket) → put fp b ≡ some b' → length b' ≡ length b
unfolding put
length-put fp [] b' h = cc h
length-put fp (x ∷ b) b' h = elim (Bool-cases (x == 0)) [
  | inl e ↦ let q : fp ∷ b ≡ b' = some-injective _ _ (rw (put, e) at h) in rw (← q) refl
  | inr e ↦ elim (Option-cases (put fp b)) [
    | inl q ↦ cc (rw (put, e, q) at h)
    | inr (b'', q) ↦
        let q' : x ∷ b'' ≡ b' = some-injective _ _ (rw (put, e, q) at h) in
        rw (← q') (ap suc (length-put fp b b'' q))
  ]
]

set_bucket-IsFilter :
    (f : CuckooFilter) (i : ℕ) (b : Bucket)
    → IsFilter f
    → i < length f.buckets
    → length b ≡ 4
    → IsFilter (record f { buckets = set f.buckets i b })
set_bucket-IsFilter f i b v lt four = record {
  size = length-set f.buckets i b ∙ v.size;
  mask_size = v.mask_size;
  few_bits = v.few_bits;
  four_slots = λ m. elim (Bool-cases (i == m)) [
    | inl e ↦ rw (get_or-set f.buckets i m b empty_bucket lt, e) four
    | inr e ↦ rw (get_or-set f.buckets i m b empty_bucket lt, e) (v.four_slots m)
  ];
}

-- A later filter of the same size, with every fingerprint of the earlier one and the one that was
-- in hand. An empty slot is no fingerprint.
pub record Keeps (f f' : CuckooFilter) (fp i : ℕ) : Type 0 where
  pub same_mask : f'.mask ≡ f.mask
  pub same_bits : f'.bucket_bits ≡ f.bucket_bits
  pub later : IsFilter f'
  pub kept :
      (gp k : ℕ)
      → (gp == 0) ≡ false
      → is_kept (alt_index f) (alt_index_cancel f) f.buckets fp i gp k ≡ true
      → is_in (alt_index f) (alt_index_cancel f) f'.buckets gp k ≡ true

pub insert-Keeps :
    (f f' : CuckooFilter) (fp i : ℕ)
    → IsFilter f
    → i < length f.buckets
    → insert f fp i ≡ (f', true)
    → Keeps f f' fp i
unfolding insert
insert-Keeps f f' fp i v lt h = elim (Option-cases (put fp (bucket_at f i))) [
  | inl e ↦ let z : false ≡ true = ap (λ r. r.1) (rw (insert, e) at h) in cc z
  | inr (b, e) ↦
      let q : record f { buckets = set f.buckets i b } ≡ f' = ap (λ r. r.0) (rw (insert, e) at h) in
      rw (← q) (record {
        same_mask = refl;
        same_bits = refl;
        later = set_bucket-IsFilter f i b v lt (length-put fp (bucket_at f i) b e ∙ v.four_slots i);
        kept = λ gp k n s.
            put-is_kept (alt_index f) (alt_index_cancel f) f.buckets fp i gp k b lt n e s;
      })
]

-- A round that puts the fingerprint in hand into its bucket, then one that is done with the
-- fingerprint that was there.
exchange-Keeps :
    (f f' : CuckooFilter) (fp i j : ℕ)
    → IsFilter f
    → i < length f.buckets
    → j < 4
    → (IsFilter (exchange f fp i j).0
        → alt_index f (get_or (bucket_at f i) j 0) i < length (exchange f fp i j).0.buckets
        → Keeps
            (exchange f fp i j).0
            f'
            (get_or (bucket_at f i) j 0)
            (alt_index f (get_or (bucket_at f i) j 0) i))
    → Keeps f f' fp i
unfolding exchange alt_index
exchange-Keeps f f' fp i j v lt small rest =
    let b = bucket_at f i in
    let fp1 = get_or b j 0 in
    let slot : j < length b = rw (v.four_slots i) small in
    let K =
      rest (set_bucket-IsFilter f i (set b j fp) v lt (length-set b j fp ∙ v.four_slots i))
        (rw (length-set f.buckets i (set b j fp)) (alt_index-lt f fp1 i v lt)) in
    record {
      same_mask = K.same_mask;
      same_bits = K.same_bits;
      later = K.later;
      kept = λ gp k n s.
          K.kept gp k n
            (exchange-is_kept (alt_index f) (alt_index_cancel f) f.buckets fp i j gp k lt slot s);
    }

-- The loop succeeds only with all fingerprints in place.
pub kick_loop-Keeps :
    (rounds : ℕ) (slots : ℕ → ℕ) (f f' : CuckooFilter) (fp i : ℕ)
    → ((r : ℕ) → slots r < 4)
    → IsFilter f
    → i < length f.buckets
    → kick_loop rounds slots f fp i ≡ (f', true)
    → Keeps f f' fp i
unfolding kick_loop exchange alt_index
kick_loop-Keeps zero slots f f' fp i small v lt h = let z : false ≡ true = ap (λ r. r.1) h in cc z
kick_loop-Keeps (suc rounds) slots f f' fp i small v lt h =
    let f1 = (exchange f fp i (slots rounds)).0 in
    let fp1 = (exchange f fp i (slots rounds)).1 in
    let i1 = alt_index f fp1 i in
    exchange-Keeps f f' fp i (slots rounds) v lt (small rounds) (λ v1 lt1.
      elim (Bool-cases (insert f1 fp1 i1).1) [
        | inl d ↦
            let e : (insert f1 fp1 i1).0 ≡ f' = ap (λ r. r.0) (rw (kick_loop, d) at h) in
            insert-Keeps f1 f' fp1 i1 v1 lt1 (λ t. (e t, d t))
        | inr d ↦ kick_loop-Keeps rounds slots f1 f' fp1 i1 small v1 lt1 (rw (kick_loop, d) at h)
      ])
