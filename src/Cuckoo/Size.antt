-- ===== src/Cuckoo/Size.antt =====
-- The filter that NewCuckooFilter makes.
use redwood_filter.Common.{
  ℕ, zero, suc, ◌+◌, ◌*◌, ◌^◌, ◌≤◌, ◌<◌, ◌≡◌, ◌≢◌, inl, inr, refl, ap, ◌∙◌, false, arith, ltb,
  nat_beq_iff, ltb→lt, nat_eq, Bool-cases, length, get_or, length-replicate, get_or-replicate,
  Bytes, bytes_eq,
}
use redwood_filter.Common.{◌≢◌}
use redwood_filter.Cuckoo.{
  CuckooFilter, empty_bucket, alt_index, contains_text, size_loop, new_cuckoo_filter,
}
use redwood_filter.Cuckoo.Filter.{IsFilter, pow_positive, pow_split}
use redwood_filter.Cuckoo.Lookup.{index, fingerprint, fingerprint_nonzero, contains_text-is_in}

-- What the loop finds: a power of two that is large enough, and its exponent.
record IsSize (min_size : ℕ) (r : ℕ × ℕ) : Type 0 where
  power : r.0 ≡ 2 ^ r.1
  few : r.1 ≤ 32
  large : min_size ≤ r.0

size_loop-IsSize :
    (fuel min_size size bits : ℕ)
    → min_size ≤ 2 ^ 32
    → size ≡ 2 ^ bits
    → bits ≤ 32
    → min_size ≤ size + fuel
    → IsSize min_size (size_loop fuel min_size size bits)
unfolding size_loop
size_loop-IsSize zero min_size size bits max p few large = record {
  power = p;
  few = few;
  large = omega (arith, large);
}
size_loop-IsSize (suc fuel) min_size size bits max p few large =
    elim (Bool-cases (ltb size min_size)) [
      | inr e ↦ rw e (record { power = p; few = few; large = ground (arith, e) })
      | inl e ↦
          let less : size < min_size = ltb→lt size min_size e in
          let positive : 0 < 2 ^ bits = pow_positive bits in
          let next : size * 2 ≡ 2 ^ (bits + 1) = omega (arith, p, pow_split bits 1) in
          let below : bits ≢ 32 = λ q.
            let top : 2 ^ bits ≡ 2 ^ 32 = ap (λ x. 2 ^ x) q in omega (arith, p, less, max, top) in
          rw e (
            size_loop-IsSize fuel min_size (size * 2) (bits + 1) max next
              (omega (arith, few, below)) (omega (arith, large, positive, p)))
    ]

no_text :
    (hash : Bytes → ℕ) (f : CuckooFilter) (s : Bytes)
    → ((i : ℕ) → get_or f.buckets i empty_bucket ≡ empty_bucket)
    → contains_text hash f s ≡ false
no_text hash f s empty =
    rw
      (
        contains_text-is_in hash f f s refl refl,
        empty (index hash f s),
        empty (alt_index f (fingerprint hash s) (index hash f s)),
      )
      (ground (
        arith,
        fingerprint_nonzero hash s,
        nat_beq_iff (fingerprint hash s) 0,
        nat_beq_iff 0 (fingerprint hash s),
      ))

-- NewCuckooFilter's filter is well formed, has at least the wanted number of buckets, and contains
-- no text, when that number is one that a hash of 32 bits can address.
pub new_cuckoo_filter-IsFilter :
    (hash : Bytes → ℕ) (min_size : ℕ) (s : Bytes)
    → min_size ≤ 2 ^ 32
    → IsFilter (new_cuckoo_filter min_size)
      × (min_size ≤ length (new_cuckoo_filter min_size).buckets)
      × (contains_text hash (new_cuckoo_filter min_size) s ≡ false)
unfolding new_cuckoo_filter
new_cuckoo_filter-IsFilter hash min_size s max =
    let v = size_loop-IsSize min_size min_size 1 0 max refl (omega arith) (omega arith) in
    let size = (size_loop min_size min_size 1 0).0 in
    let bits = (size_loop min_size min_size 1 0).1 in
    (
      record {
        size = length-replicate size empty_bucket ∙ v.power;
        mask_size = omega (arith, v.power, pow_positive bits);
        few_bits = v.few;
        four_slots = λ i. rw (get_or-replicate size i empty_bucket) refl;
      },
      rw (length-replicate size empty_bucket) v.large,
      no_text hash (new_cuckoo_filter min_size) s (λ i. get_or-replicate size i empty_bucket),
    )
