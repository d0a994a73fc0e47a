-- ===== src/Mapsort/Order.antt =====
-- `Less` is a strict order, total on different keys.
use redwood_filter.Common.{
  ◌≡◌, inl, inr, refl, true, false, [], ◌∷◌, arith, nat_eq, Bool-cases, Bytes, bytes_eq,
}
use redwood_filter.Common.Int.{ℤ, int_eq}
use redwood_filter.Mapsort.{bytes_ltb, less}

pub bytes_ltb_irrefl : (s : Bytes) → bytes_ltb s s ≡ false
unfolding bytes_ltb
bytes_ltb_irrefl [] = refl
bytes_ltb_irrefl (c ∷ s) = ground (arith, bytes_ltb_irrefl s)

bytes_ltb_trans :
    (s t u : Bytes) → bytes_ltb s t ≡ true → bytes_ltb t u ≡ true → bytes_ltb s u ≡ true
unfolding bytes_ltb
bytes_ltb_trans s t [] h k = cc
bytes_ltb_trans s [] (e ∷ u) h k = cc
bytes_ltb_trans [] (d ∷ t) (e ∷ u) h k = refl
bytes_ltb_trans (c ∷ s) (d ∷ t) (e ∷ u) h k = ground (arith, bytes_ltb_trans s t u)

bytes_ltb_total : (s t : Bytes) → bytes_ltb s t ≡ false → bytes_ltb t s ≡ false → s ≡ t
unfolding bytes_ltb
bytes_ltb_total [] [] h k = refl
bytes_ltb_total [] (d ∷ t) h k = cc
bytes_ltb_total (c ∷ s) [] h k = cc
bytes_ltb_total (c ∷ s) (d ∷ t) h k = ground (arith, bytes_ltb_total s t)

module _ (value : Bytes → ℤ) where
  pub less_irrefl : (a : Bytes) → less value a a ≡ false
  unfolding less
  less_irrefl a = ground (arith, bytes_ltb_irrefl a)

  pub less_trans :
      (a b c : Bytes) → less value a b ≡ true → less value b c ≡ true → less value a c ≡ true
  unfolding less
  less_trans a b c h k = ground (arith, bytes_ltb_trans a b c)

  pub less_total : (a b : Bytes) → less value a b ≡ false → less value b a ≡ false → a ≡ b
  unfolding less
  less_total a b h k = ground (arith, bytes_ltb_total a b)

  pub less_asym : (a b : Bytes) → less value a b ≡ true → less value b a ≡ false
  less_asym a b h = elim (Bool-cases (less value b a)) [
    | inl k ↦ cc (less_trans a b a h k, less_irrefl a)
    | inr k ↦ k
  ]
