-- ===== src/JsLexer/QuotedItem.antt =====
-- lexString on a text written as a literal emits the text.
use redwood_filter.Common.{
  ℕ, zero, suc, ◌+◌, ◌-◌, ◌≡◌, refl, sym, ap, ◌∙◌, true, some, List, [], ◌∷◌, ◌++◌, append_assoc,
  arith, ltb, leb, nat_eq, length, get_or, drop, length-append, Bytes, bytes_eq, take-append,
  length-drop, drop-drop, drop-append,
}
use redwood_filter.JsLexer.State.{ok, Returns, Returns-bind, GoText, Lexer, text, slice, byte_at}
use redwood_filter.JsLexer.Tokens.{Next}
use redwood_filter.JsLexer.Bounds.{IsGoText}
use redwood_filter.JsLexer.Literal.{emit_string}
use redwood_filter.JsLexer.Steps.{lex_string}
use redwood_filter.JsLexer.Quoted.{escape, IsQuote, unescape-escape, trim_last-last}
use redwood_filter.JsLexer.QuotedLoop.{
  drop-more, next_byte, Closes, IsMoved, IsQuote-facts, string_loop-Closes,
}

get_or-drop : (i : ℕ) (s : Bytes) (c : ℕ) (t : Bytes) → drop i s ≡ c ∷ t → get_or s i 0 ≡ c
get_or-drop zero [] c t h = cc h
get_or-drop zero (d ∷ s) c t h = cc h
get_or-drop (suc i) [] c t h = cc h
get_or-drop (suc i) (d ∷ s) c t h = get_or-drop i s c t h

-- A text in quotes.
abbrev pub literal : ℕ → Bytes → Bytes
literal q s = q ∷ escape q s ++ q ∷ []

module _ (x : GoText) (g : IsGoText x) (input : Bytes) where
  -- The lexer stands at the start of an item, where the rest of the input is as given.
  pub record IsAt (rest : Bytes) (items : List Bytes) (l : Lexer) : Type 0 where
    pub started : l.start ≡ l.pos
    pub rest_is : drop l.pos input ≡ rest
    pub so_far : l.items ≡ items

  -- Back in lexText at a place.
  abbrev pub IsOn : Bytes → List Bytes → Next → Type 0
  IsOn rest items n = (n.0 ≡ some text) × IsAt rest items n.1

  module _ (q : ℕ) (quote : IsQuote q) (s : Bytes) where
    emit_string-literal :
        (l : Lexer) (post : Bytes)
        → drop l.start input ≡ literal q s ++ post
        → l.pos ≡ l.start + 1 + length (escape q s) + 1
        → emit_string x input l ≡ ok (record l { start = l.pos; items = l.items ++ s ∷ [] })
    unfolding emit_string byte_at slice
    emit_string-literal l post d p =
        let raw = escape q s ++ q ∷ [] in
        let behind : drop (l.start + 1) input ≡ raw ++ post =
          drop-more l.start input q (raw ++ post) d in
        let len = length-append (escape q s) (q ∷ []) in
        let long : length input - (l.start + 1) ≡ length raw + length post =
          rw length-drop at (ap length behind) ∙ length-append raw post in
        let at : ltb l.start (length input) ≡ true = ground (arith, long, len) in
        let from : leb (l.start + 1) l.pos ≡ true = ground (arith, p) in
        let to : leb l.pos (length input) ≡ true = ground (arith, p, long, len) in
        let count : l.pos - (l.start + 1) ≡ length raw = omega (arith, p, len) in
        rw (at, from, to)
          (rw (get_or-drop l.start input q (raw ++ post) d, behind, count)
            (rw (take-append raw post)
              (rw (trim_last-last q (escape q s)) (rw (unescape-escape x q quote s) refl))))

    pub lex_string-literal :
        (l : Lexer) (items : List Bytes) (post : Bytes)
        → IsAt (literal q s ++ post) items l
        → Returns (lex_string x input l) (IsOn post (items ++ s ∷ []))
    unfolding lex_string Closes
    lex_string-literal l items post i =
        let raw = escape q s ++ q ∷ [] in
        let (small, _, _) = IsQuote-facts q quote in
        let l1 : Lexer = record l { width = 1; pos = l.pos + 1 } in
        let behind : drop (l.pos + 1) input ≡ escape q s ++ q ∷ post =
          drop-more l.pos input q (raw ++ post) i.rest_is
          ∙ append_assoc (escape q s) (q ∷ []) post in
        let long : length input - (l.pos + 1) ≡ length (escape q s) + suc (length post) =
          rw length-drop at (ap length behind) ∙ length-append (escape q s) (q ∷ post) in
        rw (next_byte x g input l q (raw ++ post) i.rest_is small) (
          Returns-bind (IsMoved (length (escape q s) + 1) l1) (IsOn post (items ++ s ∷ [])) _ _
            (string_loop-Closes x g input q quote (suc (length input)) s l1 post behind
              (omega (arith, long)))
            (λ l2 (p, st, it).
              let far : l2.pos ≡ l.pos + 1 + length raw =
                omega (arith, p, length-append (escape q s) (q ∷ [])) in
              rw
                (emit_string-literal l2 post (rw (st, i.started) i.rest_is)
                  (omega (arith, p, st, i.started)))
                (
                  refl,
                  record {
                    started = refl;
                    rest_is =
                        ap (λ (k : ℕ). drop k input) far
                        ∙ drop-drop (l.pos + 1) (length raw) input
                        ∙ rw behind (
                            rw (sym (append_assoc (escape q s) (q ∷ []) post))
                              (drop-append raw post));
                    so_far = ap (λ k. k ++ s ∷ []) (it ∙ i.so_far);
                  },
                )))
