-- ===== src/JsLexer/RoundTrip.antt =====
-- The literals of a script arrive in their order, with their texts.
use redwood_filter.Common.{
  ℕ, suc, ◌+◌, ◌-◌, ◌*◌, ◌<◌, ◌≡◌, inl, inr, refl, sym, ap, ◌∙◌, true, some, List, [], ◌∷◌, ◌++◌,
  append-nil, append_assoc, arith, leb, nat_eq, length, All, Bytes, bytes_eq, length-drop,
}
use redwood_filter.JsLexer.State.{
  ok, ◌>>=◌, Returns, Returns-ok, Returns-bind, GoText, Lexer, text, string, Rune, backup, next,
}
use redwood_filter.JsLexer.Tokens.{Next}
use redwood_filter.JsLexer.Steps.{lex_text, lex_rune}
use redwood_filter.JsLexer.Bounds.{IsGoText}
use redwood_filter.JsLexer.Steps.{lex_rune, lex_read, lex_text, step, run_loop, lex}
use redwood_filter.JsLexer.Quoted.{IsQuote}
use redwood_filter.JsLexer.QuotedLoop.{drop-more, next_byte, IsQuote-facts}
use redwood_filter.JsLexer.QuotedItem.{literal, IsAt, IsOn, lex_string-literal}
use native.Mathlib.Nat.{suc-add, zero-add}
-- Bytes between literals: white space, brackets and commas among them.
use redwood_filter.JsLexer.Scripts.{
  gaps, All-contains, Item, script, IsGap, IsItem, contents, cost, cost-more, cost-le,
}

module _ (x : GoText) (g : IsGoText x) (input : Bytes) where
  abbrev Ignores : Lexer → ℕ → Type 0
  Ignores l c = Returns (lex_rune x input c l) (λ (n : Next).
      (n.0 ≡ some text) × (n.1.start ≡ l.pos) × (n.1.pos ≡ l.pos) × (n.1.items ≡ l.items))

  gaps-Ignores : (l : Lexer) → All (Ignores l) gaps
  unfolding lex_rune
  gaps-Ignores l = rw (g.no_letter b',' (omega arith) refl) (
      (
        (refl, refl, refl, refl),
        (
          (refl, refl, refl, refl),
          (
            (refl, refl, refl, refl),
            (
              (refl, refl, refl, refl),
              (
                (refl, refl, refl, refl),
                (
                  (refl, refl, refl, refl),
                  (
                    (refl, refl, refl, refl),
                    (
                      (refl, refl, refl, refl),
                      (
                        (refl, refl, refl, refl),
                        (
                          (refl, refl, refl, refl),
                          ((refl, refl, refl, refl), ((refl, refl, refl, refl), _)),
                        ),
                      ),
                    ),
                  ),
                ),
              ),
            ),
          ),
        ),
      ))

  run_text :
      (f : ℕ) (l : Lexer) (r : Rune × Lexer)
      → next x input l ≡ r
      → run_loop x input (suc f) (some text) l
        ≡ (lex_read x input r >>= λ n. run_loop x input f n.0 n.1)
  unfolding run_loop step lex_text
  run_text f l r e = ap (λ r. lex_read x input r >>= λ n. run_loop x input f n.0 n.1) e

  -- Through a gap to what follows it, one round for each byte.
  run_gap :
      (gap rest : Bytes) (items : List Bytes) (f : ℕ) (l : Lexer) (P : Lexer → Type 0)
      → IsGap gap
      → IsAt x g input (gap ++ rest) items l
      → ((l : Lexer) → IsAt x g input rest items l → Returns (run_loop x input f (some text) l) P)
      → Returns (run_loop x input (length gap + f) (some text) l) P
  unfolding lex_read
  run_gap [] rest items f l P h i k = rw zero-add (k l i)
  run_gap (c ∷ gap) rest items f l P (h, hs) i k =
      let small : c < 128 = All-contains (λ c. c < 128) gaps c (omega arith) h in
      let l1 : Lexer = record l { width = 1; pos = l.pos + 1 } in
      rw
        (
          suc-add,
          run_text (length gap + f) l _ (next_byte x g input l c (gap ++ rest) i.rest_is small),
        )
        (Returns-bind
          (λ (n : Next).
            (n.0 ≡ some text) × (n.1.start ≡ l1.pos) × (n.1.pos ≡ l1.pos) × (n.1.items ≡ l1.items))
          P _ _ (All-contains (Ignores l1) gaps c (gaps-Ignores l1) h)
          (λ n (t, st, p, it). rw t (
            run_gap gap rest items f n.1 P hs
              (record {
                started = st ∙ sym p;
                rest_is = rw p (drop-more l.pos input c (gap ++ rest) i.rest_is);
                so_far = it ∙ i.so_far;
              })
              k)))

  lex_rune-quote :
      (q : ℕ) (l : Lexer) → IsQuote q → lex_rune x input q l ≡ ok (some string, backup l)
  unfolding lex_rune
  lex_rune-quote q l (inl e) = rw e refl
  lex_rune-quote q l (inr e) = rw e refl

  -- A literal takes two rounds: to lexString, and back to lexText.
  run_literal :
      (q : ℕ) (s rest : Bytes) (items : List Bytes) (f : ℕ) (l : Lexer) (P : Lexer → Type 0)
      → IsQuote q
      → IsAt x g input (literal q s ++ rest) items l
      → ((l : Lexer)
          → IsAt x g input rest (items ++ s ∷ []) l
          → Returns (run_loop x input f (some text) l) P)
      → Returns (run_loop x input (suc (suc f)) (some text) l) P
  unfolding run_loop step lex_read
  run_literal q s rest items f l P h i k =
      let (small, _, _) = IsQuote-facts q h in
      let l1 : Lexer = record l { width = 1; pos = l.pos + 1 } in
      let back : l.pos + 1 - 1 ≡ l.pos = omega arith in
      let at : IsAt x g input (literal q s ++ rest) items (backup l1) = record {
        started = i.started ∙ sym back;
        rest_is = rw back i.rest_is;
        so_far = i.so_far;
      } in
      rw (run_text (suc f) l _ (next_byte x g input l q _ i.rest_is small)) (
        rw (lex_rune-quote q l1 h) (
          Returns-bind (IsOn x g input rest (items ++ s ∷ [])) P _ _
            (lex_string-literal x g input q h s (backup l1) items rest at)
            (λ n (t, j). rw t (k n.1 j))))

  run_end :
      (items : List Bytes) (f : ℕ) (l : Lexer)
      → IsAt x g input [] items l
      → Returns (run_loop x input (suc f) (some text) l) (λ (r : Lexer). r.items ≡ items)
  unfolding lex_read run_loop next
  run_end items f l i =
      let over : leb (length input) l.pos ≡ true =
        ground (arith, length-drop l.pos input, ap length i.rest_is) in
      rw (run_text f l _ refl) (rw over i.so_far)

  run_script :
      (end : Bytes) (es : List Item) (items : List Bytes) (f : ℕ) (l : Lexer)
      → IsGap end
      → All IsItem es
      → IsAt x g input (script end es) items l
      → Returns
          (run_loop x input (cost end es f) (some text) l)
          (λ (r : Lexer). r.items ≡ items ++ contents es)
  run_script end [] items f l h hs i =
      run_gap end [] items (suc f) l _ h (rw append-nil i)
        (λ r j. rw append-nil (run_end items f r j))
  run_script end (e ∷ es) items f l h ((a, b), hs) i =
      let P = λ (r : Lexer). r.items ≡ items ++ contents (e ∷ es) in
      run_gap e.gap (literal e.quote e.content ++ script end es) items (suc (suc (cost end es f))) l
        P a i
        (λ r j.
          run_literal e.quote e.content (script end es) items (cost end es f) r P b j (λ r' j'.
            rw append_assoc at (run_script end es (items ++ e.content ∷ []) f r' h hs j')))

-- From a script of string literals with white space, brackets and separators between them, the
-- lexer emits exactly the texts of the literals, in their order: any bytes, written with a
-- backslash before backslashes and before quotes of the literal's kind. The packages that it uses
-- do as they are documented.
pub lex-script :
    (x : GoText) (end : Bytes) (es : List Item)
    → IsGoText x
    → IsGap end
    → All IsItem es
    → lex x (script end es) ≡ ok (contents es)
unfolding lex
lex-script x end es g h hs =
    let input = script end es in
    let extra = 4 * length input + 2 - cost end es 0 in
    let enough : 4 * length input + 2 ≡ cost end es extra =
      omega (arith, cost-more end es extra, cost-le end es) in
    Returns-ok _ (contents es) (
      rw enough (
        Returns-bind (λ (r : Lexer). r.items ≡ contents es) (λ (l : List Bytes). l ≡ contents es) _
          _
          (run_script x g input end es [] extra _ h hs
            (record { started = refl; rest_is = refl; so_far = refl }))
          (λ r e. e)))
