-- ===== src/JsLexer/Comments.antt =====
-- Comments, regular expressions and what follows a slash.
use redwood_filter.Common.{
  ℕ, ◌+◌, ◌-◌, ◌*◌, ◌≤◌, ◌<◌, ◌≡◌, inl, inr, refl, Bool, true, false, Option, none, some, [], ◌∷◌,
  arith, if◌then◌else◌, nat_eq, Bool-cases, Option-cases, length, drop, Bytes, codes, bytes_eq,
  length-drop,
}
use redwood_filter.JsLexer.State.{
  ok, Returns, Returns-if, GoText, Lexer, State, text, after_slash, block_comment, line_comment,
  regex, same_rune, index, slice_from, ignore, backup, next, emit_rest,
}
use redwood_filter.JsLexer.Tokens.{with_div}
use redwood_filter.JsLexer.Bounds.{IsGoText, IsWithin, next-IsRead, back-IsWithin}
use redwood_filter.JsLexer.Shorter.{total}
use redwood_filter.Common.Text.{has_prefix}
use redwood_filter.Rule.Ends.{has_prefix-length}
use redwood_filter.JsLexer.Shorter.{total-append}
use redwood_filter.JsLexer.Steps.{
  lex_after_slash, lex_block_comment, end_block, end_line, lex_line_comment, lex_regex,
}
use redwood_filter.JsLexer.Ready.{rounds, Finds, IsReady, Goes, text-Goes}

pub index-le : (s p : Bytes) (i : ℕ) → index s p ≡ some i → i + length p ≤ length s
index-le [] p i h = elim (Bool-cases (has_prefix [] p)) [
  | inl e ↦ ground (arith, h, e, has_prefix-length [] p e)
  | inr e ↦ ground (arith, h, e)
]
index-le (c ∷ s) p i h = elim (Bool-cases (has_prefix (c ∷ s) p)) [
  | inl e ↦ ground (arith, h, e, has_prefix-length (c ∷ s) p e)
  | inr e ↦ elim (Option-cases (index s p)) [
    | inl o ↦ ground (arith, h, e, o)
    | inr (j, o) ↦ ground (arith, h, e, o, index-le s p j o)
  ]
]

-- A slice from a position in the text.
slice_from_ok : (s : Bytes) (i : ℕ) → i ≤ length s → slice_from s i ≡ ok (drop i s)
unfolding slice_from
slice_from_ok s i h = ground arith

module _ (x : GoText) (g : IsGoText x) (input : Bytes) where
  abbrev n : ℕ
  n = length input

  module _ (l : Lexer) where
    -- Back to lexText, where the position is at least as far and every rune of the state is past.
    back_to_text :
        (s : State) (p : ℕ) (w : ℕ) (b : Bool)
        → total l.items ≤ p
        → p ≤ n
        → 4 * (n - p) + 1 < rounds n s l
        → Goes x input
            (rounds n s l)
            (some text, record { start = p; pos = p; width = w; items = l.items; div_ok = b })
    back_to_text s p w b r h k =
        text-Goes x input _ (record { start = p; pos = p; width = w; items = l.items; div_ok = b })
          refl h r k

    pub lex_regex-Goes :
        IsReady x input regex l → Returns (lex_regex x input l) (Goes x input (rounds n regex l))
    unfolding lex_regex
    lex_regex-Goes i =
        let f = g.found (drop l.pos input) in
        let e = length-drop l.pos input in
        rw (slice_from_ok input l.pos i.inside) (
          back_to_text regex (l.pos + length (x.find_regex (drop l.pos input))) l.width true
            (omega (arith, i.room, i.started)) (omega (arith, f, e, i.inside)) (omega arith))

    end_line-Goes :
        (o : Option ℕ)
        → index (drop l.pos input) (10 ∷ []) ≡ o
        → IsReady x input line_comment l
        → Returns (end_line x input o l) (Goes x input (rounds n line_comment l))
    unfolding end_line
    end_line-Goes none e i =
        back_to_text line_comment n l.width l.div_ok (omega (arith, i.room, i.started, i.inside))
          (omega arith) (omega (arith, i.inside))
    end_line-Goes (some j) e i =
        let k = index-le (drop l.pos input) (10 ∷ []) j e in
        back_to_text line_comment (l.pos + j) l.width l.div_ok (omega (arith, i.room, i.started))
          (omega (arith, k, length-drop l.pos input)) (omega arith)

    end_block-Goes :
        (o : Option ℕ)
        → index (drop l.pos input) (codes "*/") ≡ o
        → IsReady x input block_comment l
        → Returns (end_block x input o l) (Goes x input (rounds n block_comment l))
    unfolding end_block emit_rest
    end_block-Goes none e i =
        let rest = slice_from_ok input l.start (omega (arith, i.started, i.inside)) in
        rw rest (
          omega (
            arith,
            total-append l.items (drop l.start input ∷ []),
            length-drop l.start input,
            i.room,
            i.started,
            i.inside,
          ))
    end_block-Goes (some j) e i =
        let k = index-le (drop l.pos input) (codes "*/") j e in
        back_to_text block_comment (l.pos + j + 2) l.width l.div_ok
          (omega (arith, i.room, i.started)) (omega (arith, k, length-drop l.pos input))
          (omega arith)

    pub lex_line_comment-Goes :
        IsReady x input line_comment l
        → Returns (lex_line_comment x input l) (Goes x input (rounds n line_comment l))
    unfolding lex_line_comment
    lex_line_comment-Goes i = rw (slice_from_ok input l.pos i.inside) (end_line-Goes _ refl i)

    pub lex_block_comment-Goes :
        IsReady x input block_comment l
        → Returns (lex_block_comment x input l) (Goes x input (rounds n block_comment l))
    unfolding lex_block_comment
    lex_block_comment-Goes i = rw (slice_from_ok input l.pos i.inside) (end_block-Goes _ refl i)

    -- Back to lexText from further on.
    pub within_to_text :
        (s : State) (r : Lexer) (b : Bool)
        → IsReady x input s l
        → IsWithin input l r
        → 4 * (n - r.pos) + 1 < rounds n s l
        → Goes x input (rounds n s l) (some text, with_div b (ignore r))
    within_to_text s r b i w k =
        text-Goes x input _ (with_div b (ignore r)) refl w.inside
          (rw w.same_items (omega (arith, i.room, i.started, w.forwards))) k

    -- On to a state that asks for nothing.
    on_to :
        (s : State) (r : Lexer)
        → IsReady x input after_slash l
        → IsWithin input l r
        → Finds x input s r
        → rounds n s r < rounds n after_slash l
        → Goes x input (rounds n after_slash l) (some s, r)
    on_to s r i w f k = (
      record {
        started = omega (arith, w.same_start, i.started, w.forwards);
        inside = w.inside;
        room = rw (w.same_items, w.same_start) i.room;
        finds = f;
      },
      k,
    )

    pub lex_after_slash-Goes :
        IsReady x input after_slash l
        → Returns (lex_after_slash x input l) (Goes x input (rounds n after_slash l))
    unfolding lex_after_slash
    lex_after_slash-Goes i =
        let d = next-IsRead x g input l i.inside in
        let r = (next x input l).1 in
        let c = (next x input l).0 in
        let back = back-IsWithin x g input l _ i.inside d in
        let Q = Goes x input (rounds n after_slash l) in
        let divided : Returns
            (ok (
              some text,
              with_div false (ignore (if same_rune c (some b'=') then r else backup r)),
            ))
            Q =
          elim (Bool-cases (same_rune c (some b'='))) [
            | inl e ↦
                rw e
                  (within_to_text after_slash r false i d.within (omega (arith, d.within.forwards)))
            | inr e ↦
                rw e (
                  within_to_text after_slash (backup r) false i back (omega (arith, back.forwards)))
          ] in
        Returns-if Q (same_rune c (some b'*')) (ok (some block_comment, r)) _
          (λ _. on_to block_comment r i d.within _ (omega (arith, d.within.forwards)))
          (λ _.
            Returns-if Q (same_rune c (some b'/')) (ok (some line_comment, r)) _
              (λ _. on_to line_comment r i d.within _ (omega (arith, d.within.forwards)))
              (λ _.
                Returns-if Q l.div_ok _ (ok (some regex, backup r)) (λ _. divided)
                  (λ _. on_to regex (backup r) i back _ (omega (arith, back.forwards)))))
