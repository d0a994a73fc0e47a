-- ===== src/Tally/Numbers.antt =====
-- The parser of integers reads back a number's digits.
use redwood_filter.Common.{
  ℕ, ◌-◌, ◌≡◌, refl, sym, ap, ◌∙◌, Bool, true, false, not, ◌&&◌, Option, some, [], ◌∷◌, ◌++◌, arith,
  ◌==◌, nat_eq, length, take, all, length-append, contains, Bytes, codes, bytes_eq,
}
use redwood_filter.Common.Int.{ℤ}
use redwood_filter.Common.Text.{has_prefix}
use redwood_filter.Combinators.{
  ok, is_blank, trim_left, tag, trim_set, consumed, take_any1, opt, recognize2, map_with_error,
  integer,
}

abbrev pub digits : Bytes
digits = codes "0123456789"

abbrev pub no_digit : Bytes → Bool
no_digit [] = true
no_digit (c ∷ s) = not (contains digits c)

abbrev pub all_digits : Bytes → Bool
all_digits s = all (contains digits) s

-- A sign or none, and at least one digit.
pub data IsNumber : Bytes → Type 0 where
  positive : (d : ℕ) (s : Bytes) → all_digits (d ∷ s) ≡ true → IsNumber (d ∷ s)
  negative : (d : ℕ) (s : Bytes) → all_digits (d ∷ s) ≡ true → IsNumber (b'-' ∷ d ∷ s)

not-true : (b : Bool) → not b ≡ true → b ≡ false
not-true true h = sym h
not-true false h = refl

and_true : (a b : Bool) → (a && b) ≡ true → (a ≡ true) × (b ≡ true)
and_true true b h = (refl, h)
and_true false b h = cc h

trim_set-digits :
    (s tail : Bytes)
    → all_digits s ≡ true
    → no_digit tail ≡ true
    → trim_set digits (s ++ tail) ≡ tail
trim_set-digits [] [] h k = refl
trim_set-digits [] (c ∷ tail) h k =
    let e : contains digits c ≡ false = not-true (contains digits c) k in rw e refl
trim_set-digits (d ∷ s) tail h k =
    let e : contains digits d ≡ true = (and_true (contains digits d) (all_digits s) h).0 in
    rw e (trim_set-digits s tail ((and_true (contains digits d) (all_digits s) h).1) k)

take_all : (p t : Bytes) → take (length p) (p ++ t) ≡ p
take_all [] t = refl
take_all (c ∷ p) t = ap (λ s. c ∷ s) (take_all p t)

consumed-append : (p t : Bytes) → consumed (p ++ t) t ≡ p
consumed-append p t =
    let count : length (p ++ t) - length t ≡ length p = omega (arith, length-append p t) in
    ap (λ n. take n (p ++ t)) count ∙ take_all p t

digit_start :
    (d : ℕ)
    → contains digits d ≡ true
    → (is_blank d ≡ false)
      × (((d == b'-') ≡ false) × (((d == b'&') ≡ false) × ((d == b'|') ≡ false)))
digit_start d h = ground (arith, h)

-- A number's text starts with no blank and no operator.
pub number-starts :
    (m tail : Bytes)
    → IsNumber m
    → (trim_left (m ++ tail) ≡ m ++ tail)
      × ((has_prefix (m ++ tail) (codes "&") ≡ false)
          × (has_prefix (m ++ tail) (codes "|") ≡ false))
number-starts m tail (positive d s h) =
    let digit = (and_true (contains digits d) (all_digits s) h).0 in
    let start = digit_start d digit in (rw start.0 refl, (rw start.1.1.0 refl, rw start.1.1.1 refl))
number-starts m tail (negative d s h) = (refl, (refl, refl))

module _ (atoi : Bytes → Option ℤ) where
  unsigned :
      (d : ℕ) (s tail : Bytes)
      → all_digits (d ∷ s) ≡ true
      → no_digit tail ≡ true
      → take_any1 digits (d ∷ s ++ tail) ≡ ok (d ∷ s) tail
  unfolding take_any1
  unsigned d s tail h k =
      let trimmed = trim_set-digits (d ∷ s) tail h k in
      let longer : (length tail == length (d ∷ s ++ tail)) ≡ false =
        ground (arith, length-append (d ∷ s) tail) in
      rw (take_any1, trimmed, longer, consumed-append (d ∷ s) tail) refl

  -- Where the input is a number's text, behind blanks, and a tail that starts with no digit.
  pub integer-number :
      (m : Bytes) (n : ℤ) (input tail : Bytes)
      → IsNumber m
      → atoi m ≡ some n
      → trim_left input ≡ m ++ tail
      → no_digit tail ≡ true
      → integer atoi input ≡ ok n tail
  unfolding integer map_with_error recognize2 opt tag
  integer-number m n input tail (positive d s h) a e k =
      let start = digit_start d (and_true (contains digits d) (all_digits s) h).0 in
      rw (integer, e, start.0, start.1.0, unsigned d s tail h k, consumed-append (d ∷ s) tail, a)
        refl
  integer-number m n input tail (negative d s h) a e k =
      rw (integer, e, unsigned d s tail h k, consumed-append (b'-' ∷ d ∷ s) tail, a) refl
