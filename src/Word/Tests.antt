-- ===== src/Word/Tests.antt =====
-- A run of wordString on ASCII text, and the witness.
use redwood_filter.Common.{
  ℕ, ◌≤◌, ◌++◌, [], ◌∷◌, inl, Bytes, none, some, true, arith, length, drop, ◌≡◌, refl, false,
  nat_eq, codes, bytes_eq,
}
use redwood_filter.Word.{Unicode, word_rune, word_runes, word_string}
use redwood_filter.Word.Transform.{
  Utf8, Transformed, short_dst, transform, transform_loop, transform_round, IsUtf8, words_after,
}
use redwood_filter.Word.Bounds.{transform-bounds}
use redwood_filter.Word.Runs.{Writes, part, last, Writes-word_string}
use redwood_filter.Word.Streams.{transform-words_after}
use redwood_filter.Word.Twice.{Lowers, word_string_twice}

-- Every rune is a byte, and none above 127 is a letter or a digit.
abbrev bytes_only : Unicode
bytes_only = record {
  runes = λ s. s;
  encode = λ s. s;
  first_rune = λ s. 0;
  is_letter = λ c. false;
  is_digit = λ c. false;
  rune_to_lower = λ c. c;
  to_lower = λ s. s;
}

word_string_runs : word_string bytes_only (codes "Red,  WOOD 2") ≡ codes "red wood 2"
unfolding word_string word_rune word_runes
word_string_runs = refl

bytes_only-Lowers : Lowers bytes_only
bytes_only-Lowers c h = cc h

word_string_twice_example :
    word_string bytes_only (word_string bytes_only (codes "Red,  WOOD 2"))
    ≡ word_string bytes_only (codes "Red,  WOOD 2")
unfolding word_string
word_string_twice_example =
    word_string_twice bytes_only (codes "Red,  WOOD 2") bytes_only-Lowers refl

-- Every byte is a rune.
abbrev byte_rune : Bytes → ℕ × ℕ
byte_rune [] = (65533, 0)
byte_rune (c ∷ s) = (c, 1)

abbrev byte_utf8 : Utf8
byte_utf8 = record {
  decode_rune = byte_rune;
  full_rune = λ s. true;
  rune_len = λ c. 1;
  encode_rune = λ c. c ∷ [];
}

byte_utf8-IsUtf8 : IsUtf8 bytes_only byte_utf8
byte_utf8-IsUtf8 = record {
  narrow = λ c s. omega arith;
  stable = λ c s more h. refl;
  no_runes = refl;
  first_rune = λ c s. refl;
  encode_nil = refl;
  encode_cons = λ r rs. refl;
  rune_length = λ s. refl;
}

transform-bounds_example :
    (r : Transformed) × (transform bytes_only byte_utf8 3 (codes "Red,  WOOD") true 0 ≡ some r)
    × (length r.written ≤ 3)
    × (r.n_src ≤ length (codes "Red,  WOOD"))
    × (r.error ≡ none → r.n_src ≡ length (codes "Red,  WOOD"))
transform-bounds_example =
    transform-bounds bytes_only byte_utf8 3 (codes "Red,  WOOD") true 0 byte_utf8-IsUtf8

-- There is room for "red " only.
abbrev red : Transformed
red = record { prev_rune = 32; written = codes "red "; n_src = 6; error = some short_dst }

transform-words_after_example :
    words_after bytes_only 0 (codes "Red,  WOOD" ++ codes " 2")
    ≡ red.written
      ++ words_after bytes_only red.prev_rune (drop red.n_src (codes "Red,  WOOD") ++ codes " 2")
unfolding transform transform_loop transform_round word_rune
transform-words_after_example =
    transform-words_after bytes_only byte_utf8 4 (codes "Red,  WOOD") (codes " 2") false 0 red
      byte_utf8-IsUtf8 (inl refl) refl

abbrev wood : Transformed
wood = record { prev_rune = b'2'; written = codes "wood 2"; n_src = 6; error = none }

-- A first call that runs out of room, and a last one with the rest.
two_calls : Writes bytes_only byte_utf8 0 (codes "Red,  WOOD 2") (codes "red wood 2")
unfolding transform transform_loop transform_round word_rune
two_calls =
    part 4 (codes "Red,  WOOD") (codes " 2") red refl
      (last 10 (codes "WOOD 2") wood refl refl (codes "wood 2") refl) (codes "Red,  WOOD 2") refl
      (codes "red wood 2") refl

Writes-word_string_example : codes "red wood 2" ≡ word_string bytes_only (codes "Red,  WOOD 2")
unfolding word_string
Writes-word_string_example =
    Writes-word_string bytes_only byte_utf8 (codes "Red,  WOOD 2") (codes "red wood 2")
      byte_utf8-IsUtf8 two_calls
