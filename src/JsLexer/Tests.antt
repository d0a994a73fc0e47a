-- ===== src/JsLexer/Tests.antt =====
-- Runs of the lexer, and the witnesses of its properties, on ASCII.
use redwood_filter.Common.{
  ℕ, ◌+◌, ◌-◌, ◌*◌, ◌^◌, ◌≤◌, ◌<◌, ◌≡◌, inl, inr, refl, ◌&&◌, Option, none, some, List, [], ◌∷◌,
  ◌++◌, arith, ltb, leb, if◌then◌else◌, ◌==◌, nat_eq, length, contains, Bytes, codes, bytes_eq,
}
use redwood_filter.JsLexer.State.{
  ok, Returns, GoText, slice_from, slice, byte_at, next, peek, accept, accept_loop, accept_run,
  emit_rest,
}
use redwood_filter.JsLexer.Literal.{emit_string, unescape, unescape_loop, unescape_one, hex_escape}
use redwood_filter.JsLexer.Bounds.{IsGoText}
use redwood_filter.JsLexer.Shorter.{total}
use redwood_filter.JsLexer.Ends.{lex-fits}
use redwood_filter.JsLexer.Scripts.{Item, script, contents}
use redwood_filter.JsLexer.RoundTrip.{lex-script}
use redwood_filter.JsLexer.Tokens.{
  digits, letters, lex_greater, lex_equals, lex_sign, skip_same, lex_number, hex_prefix,
  lex_exponent, lex_fraction, skip, advance, at_byte,
}
use redwood_filter.JsLexer.Steps.{
  lex, run_loop, step, lex_regex, lex_string, string_loop, lex_identifier, identifier_loop,
  in_identifier, lex_line_comment, end_line, lex_block_comment, end_block, lex_after_slash,
  lex_text, lex_read, lex_rune, lex_dot,
}

abbrev hex_value : ℕ → Bytes → Option ℕ
hex_value n [] = some n
hex_value n (c ∷ s) =
    if leb b'0' c && leb c b'9'
    then hex_value (16 * n + (c - b'0')) s
    else if leb b'a' c && leb c b'f'
    then hex_value (16 * n + (c - b'a' + 10)) s
    else none

abbrev below : ℕ → Option ℕ → Option ℕ
below n none = none
below n (some v) = if ltb v n then some v else none

abbrev first : Bytes → ℕ × ℕ
first [] = (65533, 0)
first (c ∷ s) = (c, 1)

abbrev regex_end : Bytes → Bytes
regex_end [] = []
regex_end (c ∷ s) = if c == b'/' then c ∷ [] else c ∷ regex_end s

abbrev pub ascii_text : GoText
ascii_text = record {
  decode_rune = first;
  string_of = λ c. c ∷ [];
  parse_uint = λ s base bits. below (2 ^ bits) (hex_value 0 s);
  is_letter = λ c. contains letters c;
  is_digit = λ c. contains digits c;
  find_regex = regex_end;
}

lex_runs :
    lex ascii_text (codes "x2 = 'a\\'b\\x41' + 0x1f/2.5e+3 /* 'c' */; y >>>= /'d'/ + \"e\\n\"")
    ≡ ok (codes "a'bA" ∷ (codes "e" ++ 10 ∷ []) ∷ [])
unfolding lex run_loop step lex_regex lex_string string_loop lex_identifier identifier_loop
    in_identifier lex_line_comment end_line lex_block_comment end_block lex_after_slash lex_text
    lex_read lex_rune lex_dot lex_greater lex_equals lex_sign skip_same lex_number hex_prefix
    lex_exponent lex_fraction skip advance at_byte emit_string unescape unescape_loop unescape_one
    hex_escape next peek accept accept_loop accept_run slice_from slice byte_at emit_rest
lex_runs = refl

-- A slash behind `this` is taken for a regular expression, which hides the string.
this_runs : lex ascii_text (codes "this/'a'/2") ≡ ok []
unfolding lex run_loop step lex_regex lex_string string_loop lex_identifier identifier_loop
    in_identifier lex_line_comment end_line lex_block_comment end_block lex_after_slash lex_text
    lex_read lex_rune lex_dot lex_greater lex_equals lex_sign skip_same lex_number hex_prefix
    lex_exponent lex_fraction skip advance at_byte emit_string unescape unescape_loop unescape_one
    hex_escape next peek accept accept_loop accept_run slice_from slice byte_at emit_rest
this_runs = refl

-- A literal that the end of the text cuts off behind an escaped quote loses the quote.
cut_off_runs : lex ascii_text (codes "'ab\\'") ≡ ok (codes "ab" ∷ [])
unfolding lex run_loop step lex_regex lex_string string_loop lex_identifier identifier_loop
    in_identifier lex_line_comment end_line lex_block_comment end_block lex_after_slash lex_text
    lex_read lex_rune lex_dot lex_greater lex_equals lex_sign skip_same lex_number hex_prefix
    lex_exponent lex_fraction skip advance at_byte emit_string unescape unescape_loop unescape_one
    hex_escape next peek accept accept_loop accept_run slice_from slice byte_at emit_rest
cut_off_runs = refl

length-regex_end-le : (s : Bytes) → length (regex_end s) ≤ length s
length-regex_end-le [] = omega arith
length-regex_end-le (c ∷ s) = ground (arith, length-regex_end-le s)

below-lt : (n r : ℕ) (o : Option ℕ) → below n o ≡ some r → r < n
below-lt n r none h = cc h
below-lt n r (some v) h = ground (arith, h)

pub ascii_text-IsGoText : IsGoText ascii_text
ascii_text-IsGoText = record {
  narrow = λ c s. omega arith;
  ascii = λ c s h. refl;
  high = λ c s h. (h, (h, _));
  letter = λ c h. h;
  no_letter = λ c h k. k;
  found = length-regex_end-le;
  parsed = λ s bits r k h. below-lt (2 ^ bits) r (hex_value 0 s) h;
  two_bytes = λ r h. omega arith;
  three_bytes = λ r h. omega arith;
}

abbrev an_assignment : Bytes
an_assignment = codes "a = 'b' + \"\\u0041\"; /* c"

lex-fits_example :
    Returns (lex ascii_text an_assignment) (λ items. total items ≤ length an_assignment)
lex-fits_example = lex-fits ascii_text an_assignment ascii_text-IsGoText

abbrev two_items : List Item
two_items =
    record { gap = codes "["; quote = b'\''; content = codes "it's" }
    ∷ record { gap = codes ", "; quote = b'"'; content = codes "a\\b" }
    ∷ []

lex-script_example : lex ascii_text (script (codes "]") two_items) ≡ ok (contents two_items)
lex-script_example =
    lex-script ascii_text (codes "]") two_items ascii_text-IsGoText (refl, _)
      (((refl, _), inl refl), (((refl, (refl, _)), inr refl), _))
