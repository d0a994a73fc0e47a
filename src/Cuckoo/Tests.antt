-- ===== src/Cuckoo/Tests.antt =====
-- Runs of the cuckoo filter, and the witnesses of its properties, with a hash that reads the
-- length of a text.
use redwood_filter.Common.{
  ℕ, ◌+◌, ◌*◌, ◌^◌, ◌≤◌, ◌≡◌, refl, Bool, true, false, arith, nat_eq, length, Bytes, codes,
  bytes_eq,
}
use redwood_filter.Cuckoo.{
  CuckooFilter, alt_index, put, insert, size_loop, index_and_fingerprint, new_cuckoo_filter,
  insert_text, contains_text,
}
use redwood_filter.Cuckoo.Filter.{IsFilter}
use redwood_filter.Cuckoo.Lookup.{insert_text_succeeds, insert_text-contains_text}
use redwood_filter.Cuckoo.Size.{new_cuckoo_filter-IsFilter}

abbrev by_length : Bytes → ℕ
by_length s = length s * (2 ^ 48 + 1)

new_cuckoo_filter-IsFilter_example :
    IsFilter (new_cuckoo_filter 3)
    × (3 ≤ length (new_cuckoo_filter 3).buckets)
    × (contains_text by_length (new_cuckoo_filter 3) (codes "example.com") ≡ false)
new_cuckoo_filter-IsFilter_example =
    new_cuckoo_filter-IsFilter by_length 3 (codes "example.com") (omega arith)

abbrev add : CuckooFilter → Bytes → CuckooFilter × Bool
add = insert_text by_length true (λ r. 0)

abbrev one : CuckooFilter
one = (add (new_cuckoo_filter 3) (codes "example.com")).0

insert_text_runs :
    ((add (new_cuckoo_filter 3) (codes "example.com")).1 ≡ true)
    × (contains_text by_length one (codes "example.com") ≡ true)
    × (contains_text by_length one (codes "example.org/x") ≡ false)
unfolding new_cuckoo_filter size_loop insert_text index_and_fingerprint insert put alt_index
    contains_text
insert_text_runs = (refl, refl, refl)

insert_text-contains_text_example : contains_text by_length one (codes "example.com") ≡ true
unfolding new_cuckoo_filter size_loop insert_text index_and_fingerprint insert put alt_index
insert_text-contains_text_example =
    insert_text-contains_text by_length true (λ r. 0) (new_cuckoo_filter 3) one
      (codes "example.com") (codes "example.com") (λ r. omega arith)
      (new_cuckoo_filter-IsFilter by_length 3 (codes "example.com") (omega arith)).0 refl refl

insert_text_succeeds_example : (add one (codes "example.org/x")).1 ≡ true
unfolding new_cuckoo_filter size_loop insert_text index_and_fingerprint insert put alt_index
insert_text_succeeds_example =
    insert_text_succeeds by_length true (λ r. 0) one (codes "example.org/x") refl
