-- ===== src/JsLexer/Runes.antt =====
-- What lexText does with one rune leads to a state function that is ready.
use redwood_filter.Common.{
  ℕ, ◌+◌, ◌-◌, ◌≤◌, ◌<◌, ◌≡◌, refl, sym, ◌∙◌, Bool, true, false, ◌||◌, some, arith, ◌==◌, nat_eq,
  length, contains, Bytes, bytes_eq,
}
use redwood_filter.JsLexer.State.{
  ok, Returns, Returns-if, GoText, Lexer, State, text, number, after_slash, identifier, string,
  one_of, ignore, backup, next, peek,
}
use redwood_filter.JsLexer.Tokens.{digits, Next, with_div}
use redwood_filter.JsLexer.Steps.{in_identifier, lex_dot}
use redwood_filter.JsLexer.Bounds.{
  next_ascii, IsGoText, IsWithin, next-IsRead, same_next, back-IsWithin,
}
use redwood_filter.JsLexer.Ready.{rounds, Finds, IsReady, Goes, text-Goes}

module _ (x : GoText) (g : IsGoText x) (input : Bytes) where
  pub same-IsWithin : (l : Lexer) → l.pos ≤ length input → IsWithin input l l
  same-IsWithin l h = record {
    same_start = refl;
    same_items = refl;
    forwards = omega arith;
    inside = h;
  }

  module _ (l : Lexer) (i : IsReady x input text l) where
    abbrev pub after : Lexer
    after = (next x input l).1

    abbrev pub GoesOn : Next → Type 0
    GoesOn = Goes x input (rounds (length input) text l)

    module _ (c : ℕ) (some_c : (next x input l).0 ≡ some c) where
      moved : l.pos < after.pos
      moved = (next-IsRead x g input l i.inside).moved (λ e. cc (some_c, e))

      pub ignored_div :
          (b : Bool) (r : Lexer)
          → IsWithin input after r
          → GoesOn (some text, ignore (with_div b r))
      ignored_div b r w =
          let d = next-IsRead x g input l i.inside in
          text-Goes x input _ (ignore (with_div b r)) refl w.inside
            (rw (w.same_items, d.within.same_items)
              (omega (arith, i.room, i.started, d.within.forwards, w.forwards)))
            (omega (arith, moved, w.forwards, w.inside))

      pub ignored : (r : Lexer) → IsWithin input after r → GoesOn (some text, ignore r)
      ignored r w = ignored_div r.div_ok r w

      -- The states that start with the rune: it is read again.
      returned :
          (s : State)
          → rounds (length input) s l < rounds (length input) text l
          → Finds x input s (backup after)
          → (s' : rounds (length input) s (backup after) ≡ rounds (length input) s l)
          → GoesOn (some s, backup after)
      returned s less f e =
          let d = next-IsRead x g input l i.inside in
          (
            record {
              started = omega (arith, d.back, d.within.same_start, i.started);
              inside = omega (arith, d.back, i.inside);
              room = rw (d.within.same_items, d.within.same_start) i.room;
              finds = f;
            },
            omega (arith, less, e),
          )

      back_start : after.start ≡ after.pos - after.width
      back_start =
          let d = next-IsRead x g input l i.inside in d.within.same_start ∙ i.finds ∙ sym d.back

      again : (next x input (backup after)).0 ≡ some c
      again = same_next x g input l (backup after) (next-IsRead x g input l i.inside).back ∙ some_c

      back_pos : after.pos - after.width ≡ l.pos
      back_pos = (next-IsRead x g input l i.inside).back

      pub dot-Goes : c ≡ b'.' → Returns (lex_dot x input after) GoesOn
      unfolding lex_dot peek
      dot-Goes e =
          let d = next-IsRead x g input l i.inside in
          let d' = next-IsRead x g input after d.within.inside in
          let at : l.pos + 1 ≡ after.pos =
            sym (next_ascii x g input l c some_c (omega (arith, e))) in
          let there : (next x input after).1.pos - (next x input after).1.width - 1 ≡ l.pos =
            omega (arith, at, d'.back) in
          let p = backup (next x input after).1 in
          let back_dot : Lexer = record p { pos = p.pos - 1 } in
          Returns-if GoesOn (one_of digits (next x input after).0) (ok (some number, back_dot))
            (ok (some text, with_div false (ignore p)))
            (λ y. (
              record {
                started =
                    omega (arith, there, d'.within.same_start, d.within.same_start, i.started);
                inside = omega (arith, there, i.inside);
                room =
                    rw
                      (
                        d'.within.same_items, d.within.same_items, d'.within.same_start,
                        d.within.same_start,
                      )
                      i.room;
                finds = (
                  d'.within.same_start ∙ d.within.same_start ∙ i.finds ∙ sym there,
                  rw (same_next x g input l back_dot there, some_c, e) refl,
                );
              },
              omega (arith, there),
            ))
            (λ n. ignored_div false p (back-IsWithin x g input after _ d.within.inside d'))

      pub number-Goes : contains digits c ≡ true → GoesOn (some number, backup after)
      number-Goes e =
          returned number (omega arith) (back_start, rw again (ground (arith, e)))
            (rw back_pos refl)

      pub identifier-Goes :
          (c == b'_' || c == b'$' || x.is_letter c) ≡ true → GoesOn (some identifier, backup after)
      unfolding in_identifier
      identifier-Goes e =
          returned identifier (omega arith) (back_start, rw again (ground (arith, e)))
            (rw back_pos refl)

      pub string-Goes : GoesOn (some string, backup after)
      string-Goes =
          returned string (omega arith)
            (
              back_start,
              (let d = next-IsRead x g input l i.inside in
                  omega (arith, moved, d.within.inside, back_pos)),
            )
            (rw back_pos refl)

      pub slash-Goes : GoesOn (some after_slash, after)
      slash-Goes =
          let d = next-IsRead x g input l i.inside in
          (
            record {
              started = omega (arith, d.within.same_start, i.started, moved);
              inside = d.within.inside;
              room = rw (d.within.same_items, d.within.same_start) i.room;
              finds = _;
            },
            omega (arith, moved, d.within.inside),
          )
