-- ===== src/Cuckoo.antt =====
-- cuckoo.go: a cuckoo filter of 16-bit fingerprints, four to a bucket, where 0 is an empty slot.
-- `hash` is xxh3's, a parameter. What `Insert` draws from the random source is an argument: the
-- coin of `Intn(2)`, and for each round the slot of `Intn(4)`. The floating-point product that
-- gives the wanted number of buckets is an argument of `new_cuckoo_filter`.
mod Places
mod Filter
mod Lookup
mod Size
mod Tests
use redwood_filter.Common.{
  ℕ, zero, suc, ◌+◌, ◌-◌, ◌*◌, ◌/◌, ◌%◌, ◌^◌, Bool, true, false, Option, none, some, List, [], ◌∷◌,
  ltb, if◌then◌else◌, ◌==◌, nat_eq, get_or, set, replicate, any, Bytes, bytes_eq, ◌>>=◌,
}
use Prim.Native.Nat.{bit_and, bit_xor}

-- the type `bucket`, [4]uint16
abbrev pub Bucket : Type 0
Bucket = List ℕ

abbrev pub empty_bucket : Bucket
empty_bucket = 0 ∷ 0 ∷ 0 ∷ 0 ∷ []

pub record CuckooFilter : Type 0 where
  pub buckets : List Bucket
  pub mask : ℕ
  pub bucket_bits : ℕ

-- the loop of `NewCuckooFilter`, from `size` and `bits`
pub size_loop : ℕ → ℕ → ℕ → ℕ → ℕ × ℕ
size_loop zero min_size size bits = (size, bits)
size_loop (suc fuel) min_size size bits =
    let rest = size_loop fuel min_size (size * 2) (bits + 1) in
    if ltb size min_size then rest else (size, bits)

unfoldable pub new_cuckoo_filter : ℕ → CuckooFilter
unfolding size_loop
new_cuckoo_filter min_size =
    let (size, bits) = size_loop min_size min_size 1 0 in
    record { buckets = replicate size empty_bucket; mask = size - 1; bucket_bits = bits }

abbrev pub hash_mul32 : ℕ
hash_mul32 = 0x1e35a7bd

unfoldable pub alt_index : CuckooFilter → ℕ → ℕ → ℕ
alt_index f fingerprint i =
    bit_xor ((fingerprint * hash_mul32 % 2 ^ 32) / 2 ^ (32 - f.bucket_bits)) i

-- `if b[j] == 0 { b[j] = fp; return true }` for each slot
pub put : ℕ → Bucket → Option Bucket
put fp [] = none
put fp (x ∷ b) = if x == 0 then some (fp ∷ b) else (do b' ← put fp b; some (x ∷ b'))

abbrev pub bucket_at : CuckooFilter → ℕ → Bucket
bucket_at f i = get_or f.buckets i empty_bucket

-- the method `insert`: the filter and its result
pub insert : CuckooFilter → ℕ → ℕ → CuckooFilter × Bool
insert f fp i = elim (put fp (bucket_at f i)) [
  | none ↦ (f, false)
  | some b ↦ (record f { buckets = set f.buckets i b }, true)
]

-- f.buckets[i][j], fp = fp, f.buckets[i][j]
pub exchange : CuckooFilter → ℕ → ℕ → ℕ → CuckooFilter × ℕ
exchange f fp i j =
    (record f { buckets = set f.buckets i (set (bucket_at f i) j fp) }, get_or (bucket_at f i) j 0)

-- the loop of `Insert`, with the number of rounds that are left
pub kick_loop : ℕ → (ℕ → ℕ) → CuckooFilter → ℕ → ℕ → CuckooFilter × Bool
kick_loop zero slots f fp i = (f, false)
kick_loop (suc k) slots f fp i =
    let (f1, fp1) = exchange f fp i (slots k) in
    let i1 = alt_index f1 fp1 i in
    let (f2, done) = insert f1 fp1 i1 in
    let rest = kick_loop k slots f1 fp1 i1 in if done then (f2, true) else rest

-- the method `contains`
abbrev pub in_bucket : CuckooFilter → ℕ → ℕ → Bool
in_bucket f fp i = any (λ x. x == fp) (bucket_at f i)

module _ (hash : Bytes → ℕ) where
  unfoldable pub index_and_fingerprint : CuckooFilter → Bytes → ℕ × ℕ
  index_and_fingerprint f s =
      let fingerprint = hash s / 2 ^ 48 % 2 ^ 16 in
      (bit_and (hash s) f.mask, if fingerprint == 0 then 1 else fingerprint)

  unfoldable pub insert_text : Bool → (ℕ → ℕ) → CuckooFilter → Bytes → CuckooFilter × Bool
  insert_text coin slots f s =
      let (i, fp) = index_and_fingerprint f s in
      let (f1, done1) = insert f fp i in
      let i2 = alt_index f fp i in
      let (f2, done2) = insert f fp i2 in
      let rest = kick_loop 500 slots f fp (if coin then i2 else i) in
      if done1 then (f1, true) else if done2 then (f2, true) else rest

  unfoldable pub contains_text : CuckooFilter → Bytes → Bool
  contains_text f s =
      let (i, fp) = index_and_fingerprint f s in
      if in_bucket f fp i then true else in_bucket f fp (alt_index f fp i)
