-- ===== src/Cuckoo/Lookup.antt =====
-- What a cuckoo filter answers after `Insert`.
use redwood_filter.Common.{
  ℕ, ◌/◌, ◌%◌, ◌^◌, ◌<◌, ◌≡◌, ◌≢◌, inl, inr, refl, ap, Bool, true, false, ◌||◌, arith,
  if◌then◌else◌, ◌==◌, nat_eq, ==-refl, ==→eq, Bool-cases, length, Bytes, bytes_eq,
}
use Prim.Native.Nat.{bit_and}
use redwood_filter.Common.{◌≢◌, ◌||◌, ◌∷◌, [], Option-cases, none}
use redwood_filter.Common.Xor.{and_le}
use redwood_filter.Cuckoo.{
  Bucket, put, bucket_at, in_bucket, CuckooFilter, alt_index, insert, index_and_fingerprint,
  insert_text, contains_text,
}
use redwood_filter.Cuckoo.Places.{holds, alt_index_cancel, is_in}
use redwood_filter.Cuckoo.Filter.{IsFilter, Keeps, alt_index-lt, insert-Keeps, kick_loop-Keeps}

module _ (hash : Bytes → ℕ) where
  abbrev pub index : CuckooFilter → Bytes → ℕ
  index f s = bit_and (hash s) f.mask

  abbrev pub fingerprint : Bytes → ℕ
  fingerprint s = let x = hash s / 2 ^ 48 % 2 ^ 16 in if x == 0 then 1 else x

  pub fingerprint_nonzero : (s : Bytes) → (fingerprint s == 0) ≡ false
  fingerprint_nonzero s = ground arith

  index-lt : (f : CuckooFilter) (s : Bytes) → IsFilter f → index f s < length f.buckets
  index-lt f s v = omega (arith, and_le (hash s) f.mask, v.mask_size, v.size)

  pub contains_text-is_in :
      (f f' : CuckooFilter) (t : Bytes)
      → f'.mask ≡ f.mask
      → f'.bucket_bits ≡ f.bucket_bits
      → contains_text hash f' t
        ≡ is_in (alt_index f) (alt_index_cancel f) f'.buckets (fingerprint t) (index f t)
  unfolding contains_text index_and_fingerprint alt_index
  contains_text-is_in f f' t m b = rw (m, b) (ground arith)

  -- The text that is inserted is in hand, for one of its two buckets.
  insert_text-Keeps :
      (coin : Bool) (slots : ℕ → ℕ) (f f' : CuckooFilter) (s : Bytes)
      → ((r : ℕ) → slots r < 4)
      → IsFilter f
      → insert_text hash coin slots f s ≡ (f', true)
      → (p : ℕ) × ((p == index f s || p == alt_index f (fingerprint s) (index f s)) ≡ true)
        × Keeps f f' (fingerprint s) p
  unfolding insert_text index_and_fingerprint
  insert_text-Keeps coin slots f f' s small v h =
      let fp = fingerprint s in
      let i = index f s in
      let j = alt_index f fp i in
      let lt : i < length f.buckets = index-lt f s v in
      let lt' : j < length f.buckets = alt_index-lt f fp i v lt in
      elim (Bool-cases (insert f fp i).1) [
        | inl d ↦
            let e : (insert f fp i).0 ≡ f' = ap (λ r. r.0) (rw (insert_text, d) at h) in
            (i, ground (arith, ==-refl i), insert-Keeps f f' fp i v lt (λ t. (e t, d t)))
        | inr d ↦ elim (Bool-cases (insert f fp j).1) [
          | inl d' ↦
              let e : (insert f fp j).0 ≡ f' = ap (λ r. r.0) (rw (insert_text, d, d') at h) in
              (j, ground (arith, ==-refl j), insert-Keeps f f' fp j v lt' (λ t. (e t, d' t)))
          | inr d' ↦ elim (Bool-cases coin) [
            | inl c ↦ (
              j,
              ground (arith, ==-refl j),
              kick_loop-Keeps 500 slots f f' fp j small v lt' (rw (insert_text, d, d', c) at h),
            )
            | inr c ↦ (
              i,
              ground (arith, ==-refl i),
              kick_loop-Keeps 500 slots f f' fp i small v lt (rw (insert_text, d, d', c) at h),
            )
          ]
        ]
      ]

  -- When Insert succeeds on a well-formed filter, whatever slots below four it draws at random, the
  -- filter contains the inserted text afterwards, and every text that it contained before.
  pub insert_text-contains_text :
      (coin : Bool) (slots : ℕ → ℕ) (f f' : CuckooFilter) (s t : Bytes)
      → ((r : ℕ) → slots r < 4)
      → IsFilter f
      → insert_text hash coin slots f s ≡ (f', true)
      → (s == t || contains_text hash f t) ≡ true
      → contains_text hash f' t ≡ true
  insert_text-contains_text coin slots f f' s t small v h q =
      let (p, place, K) = insert_text-Keeps coin slots f f' s small v h in
      let old : contains_text hash f t
          ≡ is_in (alt_index f) (alt_index_cancel f) f.buckets (fingerprint t) (index f t) =
        contains_text-is_in f f t refl refl in
      rw (contains_text-is_in f f' t K.same_mask K.same_bits) (
        K.kept (fingerprint t) (index f t) (fingerprint_nonzero t) (elim (Bool-cases (s == t)) [
          | inr e ↦ ground (arith, q, e, old)
          | inl e ↦ rw (← ==→eq s t e) (ground (arith, place, ==-refl (fingerprint s)))
        ]))

put-holds : (fp : ℕ) (b : Bucket) → holds 0 b ≡ true → put fp b ≢ none
unfolding put
put-holds fp [] h e = cc h
put-holds fp (x ∷ b) h e = elim (Bool-cases (x == 0)) [
  | inl z ↦ cc (rw (put, z) at e)
  | inr z ↦ elim (Option-cases (put fp b)) [
    | inl q ↦ put-holds fp b (ground (arith, h, z)) q
    | inr (b', q) ↦ cc (rw (put, z, q) at e)
  ]
]

insert_succeeds : (f : CuckooFilter) (fp i : ℕ) → in_bucket f 0 i ≡ true → (insert f fp i).1 ≡ true
unfolding insert
insert_succeeds f fp i h = elim (Option-cases (put fp (bucket_at f i))) [
  | inl e ↦ absurd (put-holds fp (bucket_at f i) h e)
  | inr (b, e) ↦ rw (insert, e) refl
]

-- Insert succeeds where one of the two buckets of the text has an empty slot.
pub insert_text_succeeds :
    (hash : Bytes → ℕ) (coin : Bool) (slots : ℕ → ℕ) (f : CuckooFilter) (s : Bytes)
    → (in_bucket f 0 (index_and_fingerprint hash f s).0
        || in_bucket f 0
            (alt_index f (index_and_fingerprint hash f s).1 (index_and_fingerprint hash f s).0))
      ≡ true
    → (insert_text hash coin slots f s).1 ≡ true
unfolding insert_text
insert_text_succeeds hash coin slots f s h =
    let i = (index_and_fingerprint hash f s).0 in
    let fp = (index_and_fingerprint hash f s).1 in
    elim (Bool-cases (insert f fp i).1) [
      | inl d ↦ rw (insert_text, d) refl
      | inr d ↦ elim (Bool-cases (in_bucket f 0 i)) [
        | inl e ↦ cc (d, insert_succeeds f fp i e)
        | inr e ↦
            rw (insert_text, d, insert_succeeds f fp (alt_index f fp i) (ground (arith, h, e))) refl
      ]
    ]
