-- ===== src/Tally/RoundTrip.antt =====
-- parseTally reads a list of rules and counts.
use redwood_filter.Common.{
  ℕ, zero, suc, ◌+◌, ◌≤◌, ◌<◌, ◌≡◌, refl, ◌∙◌, true, false, Option, some, List, [], ◌∷◌, ◌++◌,
  foldl, arith, nat_eq, length, All, length-append, Bytes, codes, bytes_eq,
}
use redwood_filter.Common.GoMap.{insert}
use redwood_filter.Common.Text.{has_prefix}
use redwood_filter.Common.Int.{ℤ}
use redwood_filter.Combinators.{ok, trim_left, tag, then_else, integer}
use redwood_filter.Rule.{Rule, rule_eq, rule_string}
use redwood_filter.Rule.RoundTrip.{IsReadable, parse_compound_rule-rule_string}
use redwood_filter.Scoring.{Tally}
use redwood_filter.Tally.{tally_loop, parse_tally}
use redwood_filter.Tally.Numbers.{IsNumber, no_digit, number-starts, integer-number}
use redwood_filter.Word.{Unicode}

-- A rule, and the text and the value of its count.
pub record Entry : Type 0 where
  pub rule : Rule
  pub text : Bytes
  pub count : ℤ

abbrev pub line : Entry → Bytes → Bytes
line e more = rule_string e.rule ++ b' ' ∷ (e.text ++ more)

-- The lines, separated by commas.
abbrev pub text_of : Entry → List Entry → Bytes
text_of e [] = line e []
text_of e (e' ∷ es) = line e (b',' ∷ text_of e' es)

abbrev put : Tally → Entry → Tally
put tally e = insert e.rule e.count tally

module _ (x : Unicode) (atoi : Bytes → Option ℤ) where
  -- The rule can be read back, and the text is a number with this value.
  abbrev pub IsEntry : Entry → Type 0
  IsEntry e = IsReadable x e.rule × (IsNumber e.text × (atoi e.text ≡ some e.count))

  -- One round of the loop.
  loop_round :
      (fuel : ℕ) (tally : Tally) (e : Entry) (more : Bytes)
      → IsEntry e
      → no_digit more ≡ true
      → tally_loop x atoi (suc fuel) tally (line e more)
        ≡ then_else
            (tag (codes ",") more)
            (λ _ rest. tally_loop x atoi fuel (put tally e) rest)
            (ok (put tally e))
  unfolding tally_loop
  loop_round fuel tally e more w h =
      let starts = number-starts e.text more w.1.0 in
      let tail = b' ' ∷ (e.text ++ more) in
      let amp : has_prefix (trim_left tail) (codes "&") ≡ false = rw starts.0 starts.1.0 in
      let pipe : has_prefix (trim_left tail) (codes "|") ≡ false = rw starts.0 starts.1.1 in
      let rule = parse_compound_rule-rule_string x e.rule tail w.0 refl amp pipe in
      let number : integer atoi rule.rest ≡ ok e.count more =
        integer-number atoi e.text e.count rule.rest more w.1.0 w.1.1 (rule.left ∙ starts.0) h in
      rw (rule.reads, number) refl

  tally_loop-text_of :
      (fuel : ℕ) (tally : Tally) (e : Entry) (es : List Entry)
      → length es < fuel
      → All IsEntry (e ∷ es)
      → tally_loop x atoi fuel tally (text_of e es) ≡ ok (foldl put tally (e ∷ es)) []
  unfolding tag
  tally_loop-text_of zero tally e es h w = absurd (omega (arith, h))
  tally_loop-text_of (suc fuel) tally e [] h w = loop_round fuel tally e [] w.0 refl
  tally_loop-text_of (suc fuel) tally e (e' ∷ es) h w =
      loop_round fuel tally e (b',' ∷ text_of e' es) w.0 refl
      ∙ tally_loop-text_of fuel (put tally e) e' es (omega (arith, h)) w.1

  length-text_of : (e : Entry) (es : List Entry) → length es ≤ length (text_of e es)
  length-text_of e [] = omega arith
  length-text_of e (e' ∷ es) = omega (
    arith,
    length-append (rule_string e.rule) (b' ' ∷ (e.text ++ b',' ∷ text_of e' es)),
    length-append e.text (b',' ∷ text_of e' es),
    length-text_of e' es,
  )

  -- A list of rules that can be read back, where each rule has the text of a number that Atoi
  -- reads, is read to the end, as the counts put in order. A rule can be read back if the parser
  -- takes its contents whole and its parenthesised rules do not end in a URL fragment or in
  -- another text that does not end itself.
  pub parse_tally-text_of :
      (e : Entry) (es : List Entry)
      → All IsEntry (e ∷ es)
      → parse_tally x atoi (text_of e es) ≡ ok (foldl put [] (e ∷ es)) []
  unfolding parse_tally
  parse_tally-text_of e es w =
      tally_loop-text_of (length (text_of e es) + 1) [] e es (omega (arith, length-text_of e es)) w
