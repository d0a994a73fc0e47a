-- ===== src/Bloom.antt =====
-- bloom.go: a filter of 1024 bits in sixteen 64-bit words, with seven probes derived from an
-- FNV-1a hash. The proofs are in the modules below.
pub mod Superset
mod Tests
use Prim.Native.Nat.{bit_and, bit_or, bit_xor}
use redwood_filter.Common.{
  ℕ, zero, suc, ◌*◌, ◌/◌, ◌%◌, ◌^◌, Bool, true, ◌&&◌, List, ◌∷◌, foldl, ◌==◌, nat_eq, get_or, set,
  replicate, Bytes,
}

abbrev pub bloom_filter_size : ℕ
bloom_filter_size = 16

abbrev pub bloom_filter_bits : ℕ
bloom_filter_bits = 1024

abbrev pub bloom_filter_hashes : ℕ
bloom_filter_hashes = 7

abbrev pub fnv32_prime : ℕ
fnv32_prime = 16777619

abbrev pub fnv32_offset : ℕ
fnv32_offset = 2166136261

abbrev pub BloomFilter : Type 0
BloomFilter = List ℕ

-- the zero value of the array type
abbrev pub no_bits : BloomFilter
no_bits = replicate bloom_filter_size 0

set_bit : BloomFilter → ℕ → BloomFilter
set_bit b i = set b (i / 64) (bit_or (get_or b (i / 64) 0) (2 ^ (i % 64)))

-- h ^= x; h *= fnv32Prime, on uint32
mix : ℕ → ℕ → ℕ
mix h x = (bit_xor h x * fnv32_prime) % 2 ^ 32

-- the second loop of `Add`, with the number of rounds that are left
add_hashes : ℕ → ℕ → BloomFilter → BloomFilter
add_hashes zero h b = b
add_hashes (suc n) h b =
    let h' = mix h fnv32_offset in add_hashes n h' (set_bit b (h' % bloom_filter_bits))

unfoldable pub add : BloomFilter → Bytes → BloomFilter
unfolding set_bit mix add_hashes
add b s = let h = foldl mix fnv32_offset s in add_hashes 6 h (set_bit b (h % bloom_filter_bits))

unfoldable pub superset : BloomFilter → BloomFilter → Bool
superset (x ∷ b) (y ∷ b2) = bit_and x y == y && superset b b2
superset _ _ = true
