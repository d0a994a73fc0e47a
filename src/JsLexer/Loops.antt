-- ===== src/JsLexer/Loops.antt =====
-- Identifiers and string literals.
use redwood_filter.Common.{
  ℕ, zero, suc, ◌+◌, ◌-◌, ◌≤◌, ◌<◌, ◌≡◌, ◌≢◌, inl, inr, refl, sym, ◌∙◌, true, false, ◌||◌, none,
  some, arith, leb, if◌then◌else◌, nat_eq, Bool-cases, length, Bytes, bytes_eq,
}
use redwood_filter.JsLexer.State.{
  Returns, Returns-weaken, Returns-bind, GoText, Lexer, identifier, string, Rune, same_rune, slice,
  backup, next,
}
use redwood_filter.JsLexer.Tokens.{with_div}
use redwood_filter.JsLexer.Steps.{in_identifier}
use redwood_filter.JsLexer.Bounds.{IsGoText, IsWithin, next-IsRead, IsWithin-trans, back-IsWithin}
use redwood_filter.JsLexer.Shorter.{total}
use redwood_filter.JsLexer.Shorter.{emit_string-shorter}
use redwood_filter.JsLexer.Steps.{lex_identifier, identifier_loop, string_loop, lex_string}
use redwood_filter.JsLexer.Ready.{rounds, IsReady, Goes, text-Goes}
use redwood_filter.JsLexer.Comments.{within_to_text}

module _ (x : GoText) (g : IsGoText x) (input : Bytes) where
  abbrev n : ℕ
  n = length input

  module _ (l : Lexer) where
    -- The loop of lexIdentifier ends behind the last rune of the identifier.
    record IsIdentifier (r : Lexer) : Type 0 where
      within : IsWithin input l (backup r)
      some_taken : in_identifier x input (next x input l).0 ≡ true → l.pos < (backup r).pos

  in_identifier-ne_none : (r : Rune) → in_identifier x input r ≡ true → r ≢ none
  unfolding in_identifier
  in_identifier-ne_none none h = λ e. cc h
  in_identifier-ne_none (some c) h = λ e. cc e

  identifier_loop-IsIdentifier :
      (f : ℕ) (l : Lexer)
      → l.pos ≤ n
      → n < f + l.pos
      → Returns (identifier_loop x input f l) (IsIdentifier l)
  unfolding identifier_loop
  identifier_loop-IsIdentifier zero l h b = absurd (omega arith)
  identifier_loop-IsIdentifier (suc f) l h b =
      let d = next-IsRead x g input l h in
      elim (Bool-cases (in_identifier x input (next x input l).0)) [
        | inl e ↦
            let m = d.moved (in_identifier-ne_none _ e) in
            rw e (
              Returns-weaken (IsIdentifier (next x input l).1) (IsIdentifier l) _
                (identifier_loop-IsIdentifier f (next x input l).1 d.within.inside
                  (omega (arith, b, m)))
                (λ r k. record {
                  within = IsWithin-trans x g input l _ (backup r) d.within k.within;
                  some_taken = λ _. omega (arith, m, k.within.forwards);
                }))
        | inr e ↦ rw e (record { within = back-IsWithin x g input l _ h d; some_taken = λ t. cc t })
      ]

  pub lex_identifier-Goes :
      (l : Lexer)
      → IsReady x input identifier l
      → Returns (lex_identifier x input l) (Goes x input (rounds n identifier l))
  unfolding lex_identifier slice
  lex_identifier-Goes l i =
      let Q = Goes x input (rounds n identifier l) in
      Returns-bind (IsIdentifier l) Q _ _
        (identifier_loop-IsIdentifier (suc n) l i.inside (omega arith))
        (λ l2 k.
          let moved = k.some_taken i.finds.1 in
          let in_order : leb l2.start (l2.pos - l2.width) ≡ true =
            ground (arith, k.within.same_start, i.started, k.within.forwards) in
          let in_text : leb (l2.pos - l2.width) (length input) ≡ true =
            ground (arith, k.within.inside) in
          rw (in_order, in_text)
            (within_to_text x g input l identifier (backup l2) _ i k.within
              (omega (arith, moved, k.within.inside))))

  -- The loop of lexString ends.
  same_rune-none : (r : Rune) → same_rune r none ≡ false → r ≢ none
  same_rune-none none h = cc h
  same_rune-none (some c) h = λ e. cc e

  next-ne_none : (l : Lexer) → l.pos < n → (next x input l).0 ≢ none
  unfolding next
  next-ne_none l h =
      let more : leb (length input) l.pos ≡ false = ground (arith, h) in rw more (λ e. cc e)

  -- What is read in a round: the rune, and the one behind a backslash.
  past_escape :
      (l : Lexer)
      → l.pos ≤ n
      → IsWithin input (next x input l).1 (
          if same_rune (next x input l).0 (some b'\\')
          then (next x input (next x input l).1).1
          else (next x input l).1)
  past_escape l h =
      let d = next-IsRead x g input l h in
      elim (Bool-cases (same_rune (next x input l).0 (some b'\\'))) [
        | inl e ↦ rw e (next-IsRead x g input _ d.within.inside).within
        | inr e ↦ rw e (record {
          same_start = refl;
          same_items = refl;
          forwards = omega arith;
          inside = d.within.inside;
        })
      ]

  string_loop-IsWithin :
      (f : ℕ) (quote : Rune) (l : Lexer)
      → l.pos ≤ n
      → n < f + l.pos
      → Returns (string_loop x input f quote l) (IsWithin input l)
  unfolding string_loop
  string_loop-IsWithin zero quote l h b = absurd (omega arith)
  string_loop-IsWithin (suc f) quote l h b =
      let d = next-IsRead x g input l h in
      let c = (next x input l).0 in
      let w = past_escape l h in
      let l2 =
        if same_rune c (some b'\\')
        then (next x input (next x input l).1).1
        else (next x input l).1 in
      let on = IsWithin-trans x g input l _ l2 d.within w in
      elim (Bool-cases (same_rune c quote || same_rune c none)) [
        | inl e ↦ rw e d.within
        | inr e ↦
            let m = d.moved (same_rune-none c (ground (arith, e))) in
            rw e (
              Returns-weaken (IsWithin input l2) (IsWithin input l) _
                (string_loop-IsWithin f quote l2 w.inside (omega (arith, b, m, w.forwards)))
                (λ r k. IsWithin-trans x g input l l2 r on k))
      ]

  pub lex_string-Goes :
      (l : Lexer)
      → IsReady x input string l
      → Returns (lex_string x input l) (Goes x input (rounds n string l))
  unfolding lex_string
  lex_string-Goes l i =
      let Q = Goes x input (rounds n string l) in
      let d = next-IsRead x g input l i.inside in
      let m = d.moved (next-ne_none l i.finds.1) in
      Returns-bind (IsWithin input (next x input l).1) Q _ _
        (string_loop-IsWithin (suc n) (next x input l).0 (next x input l).1 d.within.inside
          (omega arith))
        (λ l2 w.
          let all = IsWithin-trans x g input l _ l2 d.within w in
          Returns-bind
            (λ (r : Lexer). (r.start ≡ l2.pos) × (r.pos ≡ l2.pos) × (total r.items ≤ l2.pos)) Q _ _
            (emit_string-shorter x g input l2
              (omega (arith, all.same_start, i.started, m, w.forwards)) w.inside
              (rw (all.same_items, all.same_start) i.room))
            (λ l3 (s, p, t).
              text-Goes x input _ (with_div true l3) (s ∙ sym p) (omega (arith, p, w.inside))
                (omega (arith, t, p)) (omega (arith, p, m, w.forwards, w.inside))))
