-- ===== src/Word.antt =====
-- word.go: text as words. Parameters are what the code uses of the packages unicode and utf8 and
-- of strings.
pub mod Twice
pub mod Transform
pub mod Bounds
pub mod Streams
pub mod Runs
mod Tests
use redwood_filter.Common.{
  ℕ, ◌+◌, ◌-◌, Bool, ◌&&◌, ◌||◌, not, List, [], ◌∷◌, ◌++◌, leb, ltb, ◌==◌, nat_eq, if◌then◌else◌,
  Bytes,
}

pub record Unicode : Type 0 where
  -- the runes of a range loop over a string, and string(runes)
  pub runes : Bytes → List ℕ
  pub encode : List ℕ → Bytes
  pub first_rune : Bytes → ℕ
  pub is_letter : ℕ → Bool
  pub is_digit : ℕ → Bool
  pub rune_to_lower : ℕ → ℕ
  pub to_lower : Bytes → Bytes

module _ (x : Unicode) where
  unfoldable pub word_rune : ℕ → ℕ
  word_rune c =
      if leb b'a' c && leb c b'z' || (leb b'0' c && leb c b'9')
      then c
      else if leb b'A' c && leb c b'Z'
      then c + (b'a' - b'A')
      else if ltb c 128
      then b' '
      else if x.is_digit c
      then c
      else if x.is_letter c
      then x.rune_to_lower c
      else b' '

  -- The loop, on the rune before and the runes of the result so far.
  unfoldable pub word_runes : ℕ → List ℕ → List ℕ → List ℕ
  word_runes prev result [] = result
  word_runes prev result (c ∷ cs) =
      let w = word_rune c in
      word_runes w (if not (w == b' ') || not (prev == b' ') then result ++ w ∷ [] else result) cs

  unfoldable pub word_string : Bytes → Bytes
  word_string s = x.encode (word_runes 0 [] (x.runes s))
