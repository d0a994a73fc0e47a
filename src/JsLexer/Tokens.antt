-- ===== src/JsLexer/Tokens.antt =====
-- jslexer.go: numbers and operators.
use redwood_filter.Common.{
  ℕ, ◌+◌, Bool, true, false, ◌&&◌, ◌||◌, Option, some, ltb, if◌then◌else◌, ◌==◌, nat_eq, length,
  get_or, Bytes, codes, bytes_eq,
}
use redwood_filter.JsLexer.State.{
  Run, ok, ◌>>=◌, GoText, Lexer, State, text, ignore, accept, accept_run,
}

abbrev pub digits : Bytes
digits = codes "0123456789"

abbrev pub hex_digits : Bytes
hex_digits = codes "0123456789abcdefABCDEF"

abbrev pub letters : Bytes
letters = codes "abcdefghijklmnopqrstuvwxyzABCDEFGHIJKLMNOPQRSTUVWXYZ"

-- A state function's result: the next one, or none for nil.
abbrev pub Next : Type 0
Next = Option State × Lexer

abbrev pub go : State → Lexer → Run Next
go s l = ok (some s, l)

abbrev pub with_div : Bool → Lexer → Lexer
with_div b l = record l { div_ok = b }

module _ (x : GoText) (input : Bytes) where
  -- len(l.input) > l.pos && l.input[l.pos] == c
  unfoldable pub at_byte : ℕ → Lexer → Bool
  at_byte c l = ltb l.pos (length input) && get_or input l.pos 0 == c

  unfoldable pub advance : Lexer → Lexer
  advance l = record l { pos = l.pos + 1 }

  unfoldable pub skip : ℕ → Lexer → Lexer
  skip c l = if at_byte c l then advance l else l

  -- Of lexNumber, what follows the whole part: a fraction, and an exponent.
  unfoldable pub lex_fraction : Bytes → Lexer → Run Lexer
  lex_fraction ds l =
      let r = accept x input (codes ".") l in if r.0 then accept_run x input ds r.1 else ok r.1

  unfoldable pub lex_exponent : Lexer → Run Lexer
  lex_exponent l =
      let r = accept x input (codes "eE") l in
      if r.0 then accept_run x input digits (accept x input (codes "+-") r.1).1 else ok r.1

  -- Whether it is hexadecimal.
  unfoldable pub hex_prefix : Lexer → Bool × Lexer
  hex_prefix l =
      let r = accept x input (codes "0") l in
      if r.0 then accept x input (codes "xX") r.1 else (false, r.1)

  unfoldable pub lex_number : Lexer → Run Next
  lex_number l =
      let r = hex_prefix (accept x input (codes "+-") l).1 in
      let ds = if r.0 then hex_digits else digits in
      do
        l2 ← accept_run x input ds r.1
        l3 ← lex_fraction ds l2
        l4 ← lex_exponent l3
        go text (with_div true (ignore l4))

  -- The cases of lexText for operators of one and more characters.
  unfoldable pub skip_same : ℕ → Lexer → Lexer
  skip_same c l = if at_byte c l || at_byte b'=' l then advance l else l

  unfoldable pub lex_sign : ℕ → Lexer → Lexer
  lex_sign c l =
      if at_byte c l
      then with_div true (advance l)
      else if at_byte b'=' l
      then with_div false (advance l)
      else with_div false l

  unfoldable pub lex_equals : Lexer → Lexer
  lex_equals l = with_div false (if at_byte b'=' l then skip b'=' (advance l) else l)

  unfoldable pub lex_greater : Lexer → Lexer
  lex_greater l = with_div false (skip b'=' (if at_byte b'>' l then skip b'>' (advance l) else l))
