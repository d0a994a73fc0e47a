-- ===== src/Common/Text.antt =====
-- What the program uses of Go's package strings, on lists of bytes.
use Prim.Native.Nat.{ℕ, ◌+◌}
use mathlib.Core.Path.{◌≡◌, refl, ap}
use mathlib.Core.Logic.{inl, inr}
use mathlib.Core.Bool.{Bool, true, false, ◌&&◌, ◌||◌}
use mathlib.Core.Option.{Option, none, some}
use mathlib.Core.List.{[], ◌∷◌, ◌++◌}
use native.Mathlib.Omega.{arith}
use redwood_filter.Common.Tests.{if◌then◌else◌, ◌==◌, nat_eq, Bool-cases, Option-cases, ◌>>=◌}
use redwood_filter.Common.Lists.{length, contains}
use redwood_filter.Common.Strings.{Bytes, bytes_eq}

-- strings.HasPrefix(s, p)
abbrev pub has_prefix : Bytes → Bytes → Bool
has_prefix s [] = true
has_prefix [] (d ∷ p) = false
has_prefix (c ∷ s) (d ∷ p) = c == d && has_prefix s p

-- strings.Contains(s, p)
abbrev pub has_part : Bytes → Bytes → Bool
has_part [] p = has_prefix [] p
has_part (c ∷ s) p = has_prefix (c ∷ s) p || has_part s p

-- strings.HasSuffix(s, p)
abbrev pub has_suffix : Bytes → Bytes → Bool
has_suffix [] p = p == []
has_suffix (c ∷ s) p = (c ∷ s) == p || has_suffix s p

-- s[:i] and s[i+1:] at the first index i of a byte
abbrev pub cut : ℕ → Bytes → Option (Bytes × Bytes)
cut b [] = none
cut b (c ∷ s) = if c == b then some ([], s) else (do (p, q) ← cut b s; some (c ∷ p, q))

abbrev cons_before : ℕ → ℕ → Bytes → Option (Bytes × Bytes) → Option (Bytes × Bytes)
cons_before b c s none = if c == b then some ([], s) else none
cons_before b c s (some (p, q)) = some (c ∷ p, q)

-- the same at the last index of the byte
abbrev pub cut_last : ℕ → Bytes → Option (Bytes × Bytes)
cut_last b [] = none
cut_last b (c ∷ s) = cons_before b c s (cut_last b s)

-- strings.TrimSuffix(s, p), for a single byte
abbrev pub trim_last : ℕ → Bytes → Bytes
trim_last b [] = []
trim_last b (c ∷ []) = if c == b then [] else c ∷ []
trim_last b (c ∷ d ∷ s) = c ∷ trim_last b (d ∷ s)

pub has_prefix-split : (s p : Bytes) → has_prefix s p ≡ true → (q : Bytes) × (s ≡ p ++ q)
has_prefix-split s [] h = (s, refl)
has_prefix-split [] (d ∷ p) h = cc h
has_prefix-split (c ∷ s) (d ∷ p) h =
    let (q, e) = has_prefix-split s p (ground (arith, h)) in
    let e' : c ≡ d = ground (arith, h) in (q, cc (e, e'))

-- A part is what stands between some text before it and some text behind it.
pub has_part-split :
    (s p : Bytes) → has_part s p ≡ true → (a : Bytes) × (b : Bytes) × (s ≡ a ++ p ++ b)
has_part-split [] p h = let (q, e) = has_prefix-split [] p h in ([], q, e)
has_part-split (c ∷ s) p h = elim (Bool-cases (has_prefix (c ∷ s) p)) [
  | inl e ↦ let (q, f) = has_prefix-split (c ∷ s) p e in ([], q, f)
  | inr e ↦
      let (a, b, f) = has_part-split s p (ground (arith, h, e)) in (c ∷ a, b, ap (λ x. c ∷ x) f)
]

pub cut-shorter :
    (b : ℕ) (s p q : Bytes) → cut b s ≡ some (p, q) → length s ≡ length p + length q + 1
cut-shorter b [] p q h = cc h
cut-shorter b (c ∷ s) p q h = elim (Bool-cases (c == b)) [
  | inl e ↦ ground (arith, h, e)
  | inr e ↦ elim (Option-cases (cut b s)) [
    | inl n ↦ ground (arith, h, e, n)
    | inr ((p', q'), n) ↦ ground (arith, h, e, n, cut-shorter b s p' q' n)
  ]
]

pub cut_last-shorter :
    (b : ℕ) (s p q : Bytes) → cut_last b s ≡ some (p, q) → length s ≡ length p + length q + 1
cut_last-shorter b [] p q h = cc h
cut_last-shorter b (c ∷ s) p q h = elim (Option-cases (cut_last b s)) [
  | inl n ↦ ground (arith, h, n)
  | inr ((p', q'), n) ↦ ground (arith, h, n, cut_last-shorter b s p' q' n)
]

-- A text without a byte, up to where it stands.
pub cut-none : (b : ℕ) (s : Bytes) → contains s b ≡ false → cut b s ≡ none
cut-none b [] h = refl
cut-none b (c ∷ s) h = ground (arith, h, cut-none b s)

pub cut-here : (b : ℕ) (p q : Bytes) → contains p b ≡ false → cut b (p ++ b ∷ q) ≡ some (p, q)
cut-here b [] q h = ground arith
cut-here b (c ∷ p) q h = ground (arith, h, cut-here b p q)

pub cut_last-none : (b : ℕ) (s : Bytes) → contains s b ≡ false → cut_last b s ≡ none
cut_last-none b [] h = refl
cut_last-none b (c ∷ s) h = ground (arith, h, cut_last-none b s)

pub cut_last-here :
    (b : ℕ) (p q : Bytes) → contains q b ≡ false → cut_last b (p ++ b ∷ q) ≡ some (p, q)
cut_last-here b [] q h = ground (arith, cut_last-none b q h)
cut_last-here b (c ∷ p) q h = ground (arith, cut_last-here b p q h)
