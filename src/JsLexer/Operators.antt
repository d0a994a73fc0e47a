-- ===== src/JsLexer/Operators.antt =====
-- The operators of more than one character stay within the input.
use redwood_filter.Common.{ℕ, ◌≤◌, arith, nat_eq, length, Bytes, bytes_eq}
use redwood_filter.JsLexer.State.{GoText, Lexer}
use redwood_filter.JsLexer.Tokens.{
  lex_greater, lex_equals, lex_sign, skip_same, skip, advance, at_byte,
}
use redwood_filter.JsLexer.Bounds.{IsGoText, IsWithin, IsWithin-trans}

pub skip-IsWithin :
    (input : Bytes) (x : GoText) (c : ℕ) (l : Lexer)
    → l.pos ≤ length input
    → IsWithin input l (skip x input c l)
unfolding skip at_byte advance
skip-IsWithin input x c l h = ground arith

module _ (x : GoText) (g : IsGoText x) (input : Bytes) where
  pub twice-IsWithin :
      (c d : ℕ) (l : Lexer)
      → l.pos ≤ length input
      → IsWithin input l (skip x input d (skip x input c l))
  twice-IsWithin c d l h =
      let w = skip-IsWithin input x c l h in
      IsWithin-trans x g input l _ _ w (skip-IsWithin input x d _ w.inside)

  pub skip_same-IsWithin :
      (c : ℕ) (l : Lexer) → l.pos ≤ length input → IsWithin input l (skip_same x input c l)
  unfolding skip_same at_byte advance
  skip_same-IsWithin c l h = ground arith

  pub lex_sign-IsWithin :
      (c : ℕ) (l : Lexer) → l.pos ≤ length input → IsWithin input l (lex_sign x input c l)
  unfolding lex_sign at_byte advance
  lex_sign-IsWithin c l h = ground arith

  pub lex_equals-IsWithin :
      (l : Lexer) → l.pos ≤ length input → IsWithin input l (lex_equals x input l)
  unfolding lex_equals at_byte advance skip
  lex_equals-IsWithin l h = ground arith

  pub lex_greater-IsWithin :
      (l : Lexer) → l.pos ≤ length input → IsWithin input l (lex_greater x input l)
  unfolding lex_greater at_byte advance skip
  lex_greater-IsWithin l h = ground arith
