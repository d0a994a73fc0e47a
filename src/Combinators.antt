-- ===== src/Combinators.antt =====
-- combinators.go: parsers that leave the rest of their input. `cut_short` is the result of a
-- recursive parser whose fuel is too little.
--   tag, any_tag, alt, delimited, take_any1, opt, recognize2, map_with_error, integer
--                           the functions of these names; `alt` has at least one parser
use redwood_filter.Common.{
  ℕ, ◌-◌, Bool, Option, none, some, List, [], ◌∷◌, ◌==◌, nat_eq, ◌||◌, if◌then◌else◌, Bytes, codes,
  drop, take, length, contains,
}
use redwood_filter.Common.Int.{ℤ}
use redwood_filter.Common.Text.{has_prefix}

pub data Parsed {ℓ} (A : Type ℓ) : Type ℓ where
  ok : A → Bytes → Parsed A
  failed : Bytes → Parsed A
  cut_short : Parsed A

abbrev pub Parser {ℓ} : Type ℓ → Type ℓ
Parser A = Bytes → Parsed A

-- the characters of " \t\r\n\f"
abbrev pub is_blank : ℕ → Bool
is_blank c = c == 32 || (c == 9 || (c == 13 || (c == 10 || c == 12)))

-- strings.TrimLeft(s, " \t\r\n\f")
abbrev pub trim_left : Bytes → Bytes
trim_left [] = []
trim_left (c ∷ s) = if is_blank c then trim_left s else c ∷ s

unfoldable pub tag : Bytes → Parser Bytes
tag t input =
    let s = trim_left input in if has_prefix s t then ok t (drop (length t) s) else failed input

pub first_tag : Bytes → Bytes → List Bytes → Parsed Bytes
first_tag input s [] = failed input
first_tag input s (t ∷ ts) =
    if has_prefix s t then ok t (drop (length t) s) else first_tag input s ts

unfoldable pub any_tag : List Bytes → Parser Bytes
unfolding first_tag
any_tag tags input = first_tag input (trim_left input) tags

-- What follows a parser that may fail.
abbrev pub then_else {ℓ κ} :
    {A : Type ℓ} {B : Type κ} → Parsed A → (A → Bytes → Parsed B) → (Bytes → Parsed B) → Parsed B
then_else (ok v rest) f g = f v rest
then_else (failed rest) f g = g rest
then_else cut_short f g = cut_short

unfoldable pub alt {ℓ} : {A : Type ℓ} → Parser A → List (Parser A) → Parser A
alt p [] input = p input
alt p (q ∷ ps) input = then_else (p input) ok (λ r. alt q ps input)

unfoldable pub delimited {ℓ κ υ} :
    {A : Type ℓ} {B : Type κ} {C : Type υ} → Parser A → Parser B → Parser C → Parser B
delimited left inner right input =
    then_else (left input)
      (λ _ rest.
        then_else (inner rest) (λ v rest. then_else (right rest) (λ _ rest. ok v rest) failed)
          failed)
      failed

abbrev pub trim_set : Bytes → Bytes → Bytes
trim_set set [] = []
trim_set set (c ∷ s) = if contains set c then trim_set set s else c ∷ s

-- What is gone of the input when the rest is left.
abbrev pub consumed : Bytes → Bytes → Bytes
consumed input rest = take (length input - length rest) input

unfoldable pub take_any1 : Bytes → Parser Bytes
take_any1 set input =
    let rest = trim_set set input in
    if length rest == length input then failed input else ok (consumed input rest) rest

unfoldable pub opt {ℓ} : {A : Type ℓ} → Parser A → Parser (Option A)
opt p input = then_else (p input) (λ v rest. ok (some v) rest) (λ r. ok none input)

unfoldable pub recognize2 {ℓ κ} : {A : Type ℓ} {B : Type κ} → Parser A → Parser B → Parser Bytes
recognize2 p1 p2 input =
    then_else (p1 input)
      (λ _ rest. then_else (p2 rest) (λ _ rest. ok (consumed input rest) rest) failed) failed

unfoldable pub map_with_error {ℓ κ} :
    {A : Type ℓ} {B : Type κ} → Parser A → (A → Option B) → Parser B
map_with_error p f input =
    then_else (p input) (λ v rest. elim (f v) [ none ↦ failed rest | some u ↦ ok u rest ])
      (λ r. failed input)

-- The parameter is strconv.Atoi.
unfoldable pub integer : (Bytes → Option ℤ) → Parser ℤ
integer atoi input =
    map_with_error (recognize2 (opt (tag (codes "-"))) (take_any1 (codes "0123456789"))) atoi
      (trim_left input)
