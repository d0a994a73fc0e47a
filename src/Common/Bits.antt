-- ===== src/Common/Bits.antt =====
-- Laws of `bit_and`, `bit_or` and `bit_xor` at variables, from the digit recursion that they stand
-- for: each works on the halves and on the lowest bits.
use Prim.Native.Nat.{ℕ, zero, suc, ◌+◌, ◌*◌, ◌/◌, ◌%◌, ◌≤◌, min, max}
use Prim.Native.Nat.{bit_and, bit_or, digits, bit_and-bitwise, bit_or-bitwise}
use mathlib.Core.Path.{◌≡◌, refl, sym, ap, ◌∙◌}
use native.Mathlib.Omega.{arith}

-- Any operation that the digit recursion gives, with `z` for what is left when one word is spent.
module _ (z : ℕ → ℕ) (op : ℕ → ℕ → ℕ) where
  -- More fuel than the word's value changes nothing.
  enough_digits : (k j : ℕ) (y x : ℕ) → x ≤ j → x ≤ k → digits z op j x y ≡ digits z op k x y
  enough_digits zero zero y x low high = refl
  enough_digits (suc k) zero y (suc x) low high = absurd (omega arith)
  enough_digits (suc k) zero y zero low high = refl
  enough_digits zero (suc j) y (suc x) low high = absurd (omega arith)
  enough_digits zero (suc j) y zero low high = refl
  enough_digits (suc k) (suc j) y zero low high = refl
  enough_digits (suc k) (suc j) y (suc x) low high =
      let smaller : suc x / 2 ≤ x = omega arith in
      ap (λ d. d * 2 + op (suc x % 2) (y % 2))
        (enough_digits k j (y / 2) (suc x / 2) (omega arith) (omega arith))

  pub halve_digits :
      (x y : ℕ)
      → digits z op (suc x) (suc x) y
        ≡ digits z op (suc x / 2) (suc x / 2) (y / 2) * 2 + op (suc x % 2) (y % 2)
  halve_digits x y =
      ap (λ d. d * 2 + op (suc x % 2) (y % 2))
        (enough_digits (suc x / 2) x (y / 2) (suc x / 2) (omega arith) (omega arith))

pub nothing_and : (y : ℕ) → bit_and 0 y ≡ 0
nothing_and y = bit_and-bitwise 0 y

pub and_halves : (x y : ℕ) → bit_and x y ≡ bit_and (x / 2) (y / 2) * 2 + min (x % 2) (y % 2)
and_halves (suc x) y =
    bit_and-bitwise (suc x) y
    ∙ (halve_digits (λ b. zero) min x y
        ∙ ap (λ d. d * 2 + min (suc x % 2) (y % 2)) (sym (bit_and-bitwise (suc x / 2) (y / 2))))
and_halves zero y = omega (arith, nothing_and (y / 2), nothing_and y)

nothing_or : (y : ℕ) → bit_or 0 y ≡ y
nothing_or y = bit_or-bitwise 0 y

or_halves : (x y : ℕ) → bit_or x y ≡ bit_or (x / 2) (y / 2) * 2 + max (x % 2) (y % 2)
or_halves (suc x) y =
    bit_or-bitwise (suc x) y
    ∙ (halve_digits (λ b. b) max x y
        ∙ ap (λ d. d * 2 + max (suc x % 2) (y % 2)) (sym (bit_or-bitwise (suc x / 2) (y / 2))))
or_halves zero y = omega (arith, nothing_or (y / 2), nothing_or y)

and_nothing_below : (k x : ℕ) → x ≤ k → bit_and x 0 ≡ 0
and_nothing_below k zero low = nothing_and 0
and_nothing_below zero (suc x) low = absurd (omega arith)
and_nothing_below (suc k) (suc x) low =
    omega (arith, and_nothing_below k (suc x / 2) (omega arith), and_halves (suc x) 0)

and_nothing : (x : ℕ) → bit_and x 0 ≡ 0
and_nothing x = and_nothing_below x x (omega arith)

-- Every bit of `z` is set in `x`.
abbrev pub BitsIn : ℕ → ℕ → Type 0
BitsIn z x = bit_and x z ≡ z

pub BitsIn-half : (z x : ℕ) → BitsIn z x → BitsIn (z / 2) (x / 2)
BitsIn-half z x h = omega (arith, and_halves x z)

pub BitsIn-parity : (z x : ℕ) → BitsIn z x → z % 2 ≤ x % 2
BitsIn-parity z x h = omega (arith, and_halves x z)

pub BitsIn-of_halves : (z x : ℕ) → BitsIn (z / 2) (x / 2) → z % 2 ≤ x % 2 → BitsIn z x
BitsIn-of_halves z x h p = omega (arith, and_halves x z)

pub half_or : (x y : ℕ) → bit_or x y / 2 ≡ bit_or (x / 2) (y / 2)
half_or x y = omega (arith, or_halves x y)

pub parity_or : (x y : ℕ) → bit_or x y % 2 ≡ max (x % 2) (y % 2)
parity_or x y = omega (arith, or_halves x y)

BitsIn-bit_or_fuel : (n x y z : ℕ) → z ≤ n → BitsIn z x → BitsIn z (bit_or x y)
BitsIn-bit_or_fuel n x y zero b h = and_nothing (bit_or x y)
BitsIn-bit_or_fuel zero x y (suc z) b h = absurd (omega arith)
BitsIn-bit_or_fuel (suc n) x y (suc z) b h =
    BitsIn-of_halves (suc z) (bit_or x y)
      (rw half_or
        (BitsIn-bit_or_fuel n (x / 2) (y / 2) (suc z / 2) (omega arith) (BitsIn-half (suc z) x h)))
      (omega (arith, parity_or x y, BitsIn-parity (suc z) x h))

-- Setting more bits keeps the bits that are set.
pub BitsIn-bit_or : (x y z : ℕ) → BitsIn z x → BitsIn z (bit_or x y)
BitsIn-bit_or x y z = BitsIn-bit_or_fuel z x y z (omega arith)

BitsIn-bit_or_self_fuel : (n x y : ℕ) → y ≤ n → BitsIn y (bit_or x y)
BitsIn-bit_or_self_fuel n x zero b = and_nothing (bit_or x 0)
BitsIn-bit_or_self_fuel zero x (suc y) b = absurd (omega arith)
BitsIn-bit_or_self_fuel (suc n) x (suc y) b =
    BitsIn-of_halves (suc y) (bit_or x (suc y))
      (rw half_or (BitsIn-bit_or_self_fuel n (x / 2) (suc y / 2) (omega arith)))
      (omega (arith, parity_or x (suc y)))

-- The bits that are set are set.
pub BitsIn-bit_or_self : (x y : ℕ) → BitsIn y (bit_or x y)
BitsIn-bit_or_self x y = BitsIn-bit_or_self_fuel y x y (omega arith)

bit_or-zeros : (x y : ℕ) → BitsIn x 0 → BitsIn y 0 → BitsIn (bit_or x y) 0
bit_or-zeros x y p q =
    let e : x ≡ 0 = omega (arith, nothing_and x) in
    let f : y ≡ 0 = omega (arith, nothing_and y) in rw (e, f, nothing_or) (nothing_and 0)

bit_or_join_fuel : (n x y z : ℕ) → z ≤ n → BitsIn x z → BitsIn y z → BitsIn (bit_or x y) z
bit_or_join_fuel zero x y zero b p q = bit_or-zeros x y p q
bit_or_join_fuel zero x y (suc z) b p q = absurd (omega arith)
bit_or_join_fuel (suc n) x y zero b p q = bit_or-zeros x y p q
bit_or_join_fuel (suc n) x y (suc z) b p q =
    BitsIn-of_halves (bit_or x y) (suc z)
      (rw half_or (
        bit_or_join_fuel n (x / 2) (y / 2) (suc z / 2) (omega arith) (BitsIn-half x (suc z) p)
          (BitsIn-half y (suc z) q)))
      (omega (arith, parity_or x y, BitsIn-parity x (suc z) p, BitsIn-parity y (suc z) q))

-- A word that holds the bits of both holds the bits of their union.
pub BitsIn-bit_or_join : (x y z : ℕ) → BitsIn x z → BitsIn y z → BitsIn (bit_or x y) z
BitsIn-bit_or_join x y z = bit_or_join_fuel z x y z (omega arith)

pub BitsIn-refl : (x : ℕ) → BitsIn x x
BitsIn-refl x = go x x (omega arith)
  where
    go : (n y : ℕ) → y ≤ n → BitsIn y y
    go n zero b = and_nothing 0
    go zero (suc y) b = absurd (omega arith)
    go (suc n) (suc y) b =
        BitsIn-of_halves (suc y) (suc y) (go n (suc y / 2) (omega arith)) (omega arith)

BitsIn-trans_fuel : (n x y z : ℕ) → x ≤ n → BitsIn x y → BitsIn y z → BitsIn x z
BitsIn-trans_fuel n zero y z b p q = and_nothing z
BitsIn-trans_fuel zero (suc x) y z b p q = absurd (omega arith)
BitsIn-trans_fuel (suc n) (suc x) y z b p q =
    BitsIn-of_halves (suc x) z
      (BitsIn-trans_fuel n (suc x / 2) (y / 2) (z / 2) (omega arith) (BitsIn-half (suc x) y p)
        (BitsIn-half y z q))
      (omega (arith, BitsIn-parity (suc x) y p, BitsIn-parity y z q))

pub BitsIn-trans : (x y z : ℕ) → BitsIn x y → BitsIn y z → BitsIn x z
BitsIn-trans x y z = BitsIn-trans_fuel x x y z (omega arith)
