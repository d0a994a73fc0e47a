-- ===== src/Bloom/Tests.antt =====
-- Runs of the filter, and the witness of its property.
use redwood_filter.Common.{◌≡◌, refl, true, false, List, [], ◌∷◌, nat_eq, Bytes, codes, bytes_eq}
use redwood_filter.Bloom.{no_bits, add, superset}
use redwood_filter.Bloom.Superset.{add_all, superset-add_all}

abbrev acl_names : List Bytes
acl_names = codes "mobile" ∷ codes "office" ∷ codes "lunch" ∷ []

superset-add_all_example :
    superset (add_all no_bits acl_names) (add_all no_bits (codes "lunch" ∷ codes "mobile" ∷ []))
    ≡ true
superset-add_all_example =
    superset-add_all acl_names (codes "lunch" ∷ codes "mobile" ∷ []) (refl, (refl, tt))

other_name_missing : superset (add_all no_bits acl_names) (add no_bits (codes "night")) ≡ false
unfolding superset add
other_name_missing = refl
