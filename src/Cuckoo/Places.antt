-- ===== src/Cuckoo/Places.antt =====
-- The two places of a fingerprint, and what the exchanges of `Insert` leave where.
use redwood_filter.Common.{
  ℕ, zero, suc, ◌-◌, ◌*◌, ◌/◌, ◌%◌, ◌^◌, ◌<◌, ◌≡◌, inl, inr, refl, Bool, true, false, ◌&&◌, ◌||◌,
  some, List, [], ◌∷◌, arith, nat_beq_iff, if◌then◌else◌, ◌==◌, nat_eq, ==-refl, ==→eq, Bool-cases,
  Option-cases, length, get_or, set, any, get_or-set, bytes_eq,
}
use mathlib.Core.Option.{some-injective}
use redwood_filter.Common.Xor.{xor_cancel}
use redwood_filter.Cuckoo.{Bucket, empty_bucket, CuckooFilter, alt_index, put}

pub alt_index_cancel : (f : CuckooFilter) (fp i : ℕ) → alt_index f fp (alt_index f fp i) ≡ i
unfolding alt_index
alt_index_cancel f fp i = xor_cancel ((fp * 0x1e35a7bd % 2 ^ 32) / 2 ^ (32 - f.bucket_bits)) i

-- A bucket with the fingerprint, as a test of its slots.
abbrev pub holds : ℕ → Bucket → Bool
holds fp b = any (λ x. x == fp) b

holds-put :
    (fp gp : ℕ) (b b' : Bucket)
    → (gp == 0) ≡ false
    → put fp b ≡ some b'
    → holds gp b' ≡ (fp == gp || holds gp b)
unfolding put
holds-put fp gp [] b' n h = cc h
holds-put fp gp (x ∷ b) b' n h = elim (Bool-cases (x == 0)) [
  | inl e ↦
      let q : fp ∷ b ≡ b' = some-injective _ _ (rw (put, e) at h) in
      rw (← q) (ground (arith, n, e, nat_beq_iff gp 0, nat_beq_iff x 0, nat_beq_iff x gp))
  | inr e ↦ elim (Option-cases (put fp b)) [
    | inl q ↦ cc (rw (put, e, q) at h)
    | inr (b'', q) ↦
        let q' : x ∷ b'' ≡ b' = some-injective _ _ (rw (put, e, q) at h) in
        rw (← q') (ground (arith, holds-put fp gp b b'' n q))
  ]
]

holds-set_new : (gp j : ℕ) (b : Bucket) → j < length b → holds gp (set b j gp) ≡ true
holds-set_new gp zero (x ∷ b) h = ground (arith, ==-refl gp)
holds-set_new gp (suc j) (x ∷ b) h = ground (arith, holds-set_new gp j b (omega arith))
holds-set_new gp j [] h = absurd (omega arith)

holds-set_old :
    (fp gp j : ℕ) (b : Bucket)
    → holds gp b ≡ true
    → (holds gp (set b j fp) || get_or b j 0 == gp) ≡ true
holds-set_old fp gp j [] h = cc h
holds-set_old fp gp zero (x ∷ b) h = ground (arith, h)
holds-set_old fp gp (suc j) (x ∷ b) h = ground (arith, h, holds-set_old fp gp j b)

holds-set_bucket :
    (buckets : List Bucket) (i m gp : ℕ) (b : Bucket)
    → i < length buckets
    → holds gp (get_or (set buckets i b) m empty_bucket)
      ≡ (if i == m then holds gp b else holds gp (get_or buckets m empty_bucket))
holds-set_bucket buckets i m gp b lt = elim (Bool-cases (i == m)) [
  | inl e ↦ rw (get_or-set buckets i m b empty_bucket lt, e) refl
  | inr e ↦ rw (get_or-set buckets i m b empty_bucket lt, e) refl
]

module _ (alt : ℕ → ℕ → ℕ) (cancel : (fp i : ℕ) → alt fp (alt fp i) ≡ i) where
  -- Whether a fingerprint is in one of its two buckets, of which `k` is one.
  abbrev pub is_in : List Bucket → ℕ → ℕ → Bool
  is_in buckets gp k =
      holds gp (get_or buckets k empty_bucket) || holds gp (get_or buckets (alt gp k) empty_bucket)

  -- The same, or it is the one in hand, on its way into bucket `i`.
  abbrev pub is_kept : List Bucket → ℕ → ℕ → ℕ → ℕ → Bool
  is_kept buckets fp i gp k = is_in buckets gp k || fp == gp && (i == k || i == alt gp k)

  pub put-is_kept :
      (buckets : List Bucket) (fp i gp k : ℕ) (b : Bucket)
      → i < length buckets
      → (gp == 0) ≡ false
      → put fp (get_or buckets i empty_bucket) ≡ some b
      → is_kept buckets fp i gp k ≡ true
      → is_in (set buckets i b) gp k ≡ true
  put-is_kept buckets fp i gp k b lt n h s =
      rw
        (
          holds-set_bucket buckets i k gp b lt,
          holds-set_bucket buckets i (alt gp k) gp b lt,
          holds-put fp gp (get_or buckets i empty_bucket) b n h,
        )
        (ground (arith, s, nat_beq_iff i k, nat_beq_iff i (alt gp k)))

  pub exchange-is_kept :
      (buckets : List Bucket) (fp i j gp k : ℕ)
      → i < length buckets
      → j < length (get_or buckets i empty_bucket)
      → is_kept buckets fp i gp k ≡ true
      → (let b = get_or buckets i empty_bucket in
          is_kept (set buckets i (set b j fp)) (get_or b j 0) (alt (get_or b j 0) i) gp k)
        ≡ true
  exchange-is_kept buckets fp i j gp k lt slot s =
      let b = get_or buckets i empty_bucket in
      let g = get_or b j 0 in
      let there : (i == k) ≡ true → (g == gp) ≡ true → (alt g i == alt gp k) ≡ true =
        λ p q. rw (==→eq g gp q, ==→eq i k p) (==-refl (alt gp k)) in
      let back : (i == alt gp k) ≡ true → (g == gp) ≡ true → (alt g i == k) ≡ true =
        λ p q. rw (==→eq g gp q, ==→eq i (alt gp k) p, cancel gp k) (==-refl k) in
      let new : (fp == gp) ≡ true → holds gp (set b j fp) ≡ true =
        λ p. rw (==→eq fp gp p) (holds-set_new gp j b slot) in
      let here : (i == k) ≡ true → holds gp (get_or buckets k empty_bucket) ≡ holds gp b =
        λ p. rw (==→eq i k p) refl in
      let other : (i == alt gp k) ≡ true
          → holds gp (get_or buckets (alt gp k) empty_bucket) ≡ holds gp b =
        λ p. rw (==→eq i (alt gp k) p) refl in
      rw
        (
          holds-set_bucket buckets i k gp (set b j fp) lt,
          holds-set_bucket buckets i (alt gp k) gp (set b j fp) lt,
        )
        (ground (arith, s, there, back, new, here, other, holds-set_old fp gp j b))
