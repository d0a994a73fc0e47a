-- ===== src/JsLexer/Ends.antt =====
-- The lexer ends on every input, without a panic.
use redwood_filter.Common.{
  ℕ, zero, suc, ◌+◌, ◌*◌, ◌≤◌, refl, Option, none, some, List, arith, nat_eq, length, Bytes,
  bytes_eq,
}
use redwood_filter.JsLexer.State.{
  Returns, Returns-bind, GoText, Lexer, State, text, number, after_slash, block_comment,
  line_comment, identifier, string, regex,
}
use redwood_filter.JsLexer.Bounds.{IsGoText}
use redwood_filter.JsLexer.Shorter.{total}
use redwood_filter.JsLexer.Steps.{step, run_loop, lex}
use redwood_filter.JsLexer.Ready.{rounds, IsReady, Goes, lex_number-Goes}
use redwood_filter.JsLexer.PlainText.{lex_text-Goes}
use redwood_filter.JsLexer.Comments.{
  lex_after_slash-Goes, lex_block_comment-Goes, lex_line_comment-Goes, lex_regex-Goes,
}
use redwood_filter.JsLexer.Loops.{lex_identifier-Goes, lex_string-Goes}

module _ (x : GoText) (g : IsGoText x) (input : Bytes) where
  abbrev n : ℕ
  n = length input

  step-Goes :
      (s : State) (l : Lexer)
      → IsReady x input s l
      → Returns (step x input s l) (Goes x input (rounds n s l))
  unfolding step
  step-Goes text l i = lex_text-Goes x g input l i
  step-Goes number l i = lex_number-Goes x g input l i
  step-Goes after_slash l i = lex_after_slash-Goes x g input l i
  step-Goes block_comment l i = lex_block_comment-Goes x g input l i
  step-Goes line_comment l i = lex_line_comment-Goes x g input l i
  step-Goes identifier l i = lex_identifier-Goes x g input l i
  step-Goes string l i = lex_string-Goes x g input l i
  step-Goes regex l i = lex_regex-Goes x g input l i

  Goes-mono :
      (m f : ℕ) (o : Option State) (r : Lexer)
      → m ≤ f
      → Goes x input m (o, r)
      → Goes x input f (o, r)
  Goes-mono m f none r h k = k
  Goes-mono m f (some s) r h (i, less) = (i, omega (arith, h, less))

  run_loop-fits :
      (f : ℕ) (o : Option State) (l : Lexer)
      → Goes x input f (o, l)
      → Returns (run_loop x input f o l) (λ r. total r.items ≤ n)
  unfolding run_loop
  run_loop-fits f none l h = h
  run_loop-fits zero (some s) l (i, less) = absurd (omega (arith, less))
  run_loop-fits (suc f) (some s) l (i, less) =
      Returns-bind (Goes x input (rounds n s l)) (λ (r : Lexer). total r.items ≤ n) _ _
        (step-Goes s l i)
        (λ (o, r) k. run_loop-fits f o r (Goes-mono _ f o r (omega (arith, less)) k))

-- The lexer ends on every input without an index out of range, and the strings that it emits are
-- together no longer than the input, if the packages unicode, utf8, strconv and regexp do as they
-- are documented.
pub lex-fits :
    (x : GoText) (input : Bytes)
    → IsGoText x
    → Returns (lex x input) (λ items. total items ≤ length input)
unfolding lex
lex-fits x input g =
    Returns-bind (λ (r : Lexer). total r.items ≤ length input)
      (λ (items : List Bytes). total items ≤ length input) _ _
      (run_loop-fits x g input (4 * length input + 2) (some text) _ (
        record { started = omega arith; inside = omega arith; room = omega arith; finds = refl },
        omega arith,
      ))
      (λ r h. h)
