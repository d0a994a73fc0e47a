-- ===== src/Common/Xor.antt =====
-- Laws of `bit_xor` on words.
use Prim.Native.Nat.{
  ℕ, zero, suc, ◌+◌, ◌*◌, ◌/◌, ◌%◌, ◌^◌, ◌≤◌, ◌<◌, bit_xor, bit_and, differ, bit_xor-bitwise,
}
use mathlib.Core.Path.{◌≡◌, refl, sym, ap, ◌∙◌}
use native.Mathlib.Omega.{arith}
use redwood_filter.Common.Bits.{halve_digits, and_halves, nothing_and}

nothing_xor : (y : ℕ) → bit_xor 0 y ≡ y
nothing_xor y = bit_xor-bitwise 0 y

xor_halves : (x y : ℕ) → bit_xor x y ≡ bit_xor (x / 2) (y / 2) * 2 + differ (x % 2) (y % 2)
xor_halves (suc x) y =
    bit_xor-bitwise (suc x) y
    ∙ (halve_digits (λ b. b) differ x y
        ∙ ap (λ d. d * 2 + differ (suc x % 2) (y % 2)) (sym (bit_xor-bitwise (suc x / 2) (y / 2))))
xor_halves zero y = omega (arith, nothing_xor y, nothing_xor (y / 2))

differ_bits : (a b : ℕ) → a < 2 → b < 2 → differ a b ≡ (a + b) % 2
differ_bits zero b h k = omega arith
differ_bits (suc zero) zero h k = refl
differ_bits (suc zero) (suc zero) h k = refl
differ_bits (suc zero) (suc (suc b)) h k = absurd (omega arith)
differ_bits (suc (suc a)) b h k = absurd (omega arith)

half_xor : (x y : ℕ) → bit_xor x y / 2 ≡ bit_xor (x / 2) (y / 2)
half_xor x y =
    omega (arith, xor_halves x y, differ_bits (x % 2) (y % 2) (omega arith) (omega arith))

parity_xor : (x y : ℕ) → bit_xor x y % 2 ≡ (x + y) % 2
parity_xor x y =
    omega (arith, xor_halves x y, differ_bits (x % 2) (y % 2) (omega arith) (omega arith))

xor_cancel_fuel : (n a i : ℕ) → a ≤ n → bit_xor a (bit_xor a i) ≡ i
xor_cancel_fuel n zero i h = nothing_xor (bit_xor 0 i) ∙ nothing_xor i
xor_cancel_fuel zero (suc a) i h = absurd (omega arith)
xor_cancel_fuel (suc n) (suc a) i h =
    let z = bit_xor (suc a) i in
    let rest : bit_xor (suc a / 2) (z / 2) ≡ i / 2 =
      rw (half_xor (suc a) i) (xor_cancel_fuel n (suc a / 2) (i / 2) (omega arith)) in
    omega (arith, rest, half_xor (suc a) z, parity_xor (suc a) z, parity_xor (suc a) i)

-- Exclusive or undoes itself.
pub xor_cancel : (a i : ℕ) → bit_xor a (bit_xor a i) ≡ i
xor_cancel a i = xor_cancel_fuel a a i (omega arith)

-- It stays in a word.
pub xor_lt : (n x y : ℕ) → x < 2 ^ n → y < 2 ^ n → bit_xor x y < 2 ^ n
xor_lt zero zero y h k = omega (arith, nothing_xor y)
xor_lt zero (suc x) y h k = absurd (omega arith)
xor_lt (suc n) x y h k =
    let smaller : bit_xor (x / 2) (y / 2) < 2 ^ n =
      xor_lt n (x / 2) (y / 2) (omega arith) (omega arith) in
    omega (arith, smaller, half_xor x y)

and_le_fuel : (n x m : ℕ) → x ≤ n → bit_and x m ≤ m
and_le_fuel n zero m h = omega (arith, nothing_and m)
and_le_fuel zero (suc x) m h = absurd (omega arith)
and_le_fuel (suc n) (suc x) m h =
    omega (arith, and_le_fuel n (suc x / 2) (m / 2) (omega arith), and_halves (suc x) m)

-- A mask bounds what it lets through.
pub and_le : (x m : ℕ) → bit_and x m ≤ m
and_le x m = and_le_fuel x x m (omega arith)
