-- ===== src/JsLexer/PlainText.antt =====
-- lexText goes on to a state function that is ready, whatever the rune is.
use redwood_filter.Common.{
  ℕ, ◌≡◌, inl, inr, refl, sym, Bool, true, false, ◌||◌, some, arith, if◌then◌else◌, ◌==◌, nat_eq,
  ==→eq, Option-cases, contains, Bytes, codes, bytes_eq,
}
use mathlib.Core.Path.{subst}
use redwood_filter.JsLexer.State.{Run, Returns, GoText, Lexer, text, Rune, next}
use redwood_filter.JsLexer.Tokens.{digits, letters, Next}
use redwood_filter.JsLexer.Steps.{lex_text, lex_read, lex_rune}
use redwood_filter.JsLexer.Bounds.{IsGoText, next-IsRead}
use redwood_filter.JsLexer.Ready.{IsReady}
use redwood_filter.JsLexer.Operators.{
  skip-IsWithin, twice-IsWithin, skip_same-IsWithin, lex_sign-IsWithin, lex_equals-IsWithin,
  lex_greater-IsWithin,
}
use redwood_filter.JsLexer.Runes.{
  after, GoesOn, same-IsWithin, ignored_div, ignored, dot-Goes, number-Goes, identifier-Goes,
  string-Goes, slash-Goes,
}

or_last : (a b c d : Bool) → (c ≡ true → d ≡ true) → (a || b || c) ≡ true → (a || b || d) ≡ true
or_last a b true d h k = ground (arith, h refl)
or_last a b false d h k = ground (arith, k)

or_right : (a b d : Bool) → d ≡ true → (a || b || d) ≡ true
or_right a b d h = ground (arith, h)

module _ (x : GoText) (g : IsGoText x) (input : Bytes) where
  module _ (l : Lexer) (i : IsReady x input text l) where
    abbrev there : Lexer
    there = after x g input l i

    abbrev GoesFrom : Next → Type 0
    GoesFrom = GoesOn x g input l i

    module _ (c : ℕ) (some_c : (next x input l).0 ≡ some c) where
      record Yields (r : Run Next) : Type 0 where
        got : Returns r GoesFrom

      made : {r : Run Next} → Returns r GoesFrom → Yields r
      made h = record { got = h }

      branch :
          (b : Bool) (t e : Run Next)
          → (b ≡ true → Yields t)
          → (b ≡ false → Yields e)
          → Yields (if b then t else e)
      branch true t e h k = h refl
      branch false t e h k = k refl

      lex_rune-Goes : Yields (lex_rune x input c there)
      unfolding lex_rune
      lex_rune-Goes =
          let h = (next-IsRead x g input l i.inside).within.inside in
          let same = ignored x g input l i c some_c there (same-IsWithin x g input there h) in
          branch (c == b' ' || c == 9 || c == 10) _ _ (λ _. made same)
            (λ _.
              branch (contains digits c) _ _ (λ e. made (number-Goes x g input l i c some_c e))
                (λ _.
                  branch (c == b'.') _ _
                    (λ e. made (dot-Goes x g input l i c some_c (==→eq c b'.' e)))
                    (λ _.
                      branch (c == b'/') _ _ (λ _. made (slash-Goes x g input l i c some_c))
                        (λ _.
                          branch (c == b'_' || c == b'$' || contains letters c) _ _
                            (λ e. made (
                              identifier-Goes x g input l i c some_c (
                                or_last (c == b'_') (c == b'$') (contains letters c) (x.is_letter c)
                                  (g.letter c) e)))
                            (λ _.
                              branch (c == b'\'' || c == b'"') _ _
                                (λ _. made (string-Goes x g input l i c some_c))
                                (λ _.
                                  branch (contains (codes "(:;?[{}~") c) _ _
                                    (λ _. made (
                                      ignored_div x g input l i c some_c false there
                                        (same-IsWithin x g input there h)))
                                    (λ _.
                                      branch (contains (codes ")]") c) _ _
                                        (λ _. made (
                                          ignored_div x g input l i c some_c true there
                                            (same-IsWithin x g input there h)))
                                        (λ _.
                                          branch (c == b'!' || c == b'=') _ _
                                            (λ _. made (
                                              ignored x g input l i c some_c _
                                                (lex_equals-IsWithin x g input there h)))
                                            (λ _.
                                              branch (contains (codes "%*^") c) _ _
                                                (λ _. made (
                                                  ignored_div x g input l i c some_c false _
                                                    (skip-IsWithin input x b'=' there h)))
                                                (λ _.
                                                  branch (c == b'&' || c == b'|') _ _
                                                    (λ _. made (
                                                      ignored_div x g input l i c some_c false _
                                                        (skip_same-IsWithin x g input c there h)))
                                                    (λ _.
                                                      branch (c == b'+' || c == b'-') _ _
                                                        (λ _. made (
                                                          ignored x g input l i c some_c _ (
                                                            lex_sign-IsWithin x g input c there h)))
                                                        (λ _.
                                                          branch (c == b'<') _ _
                                                            (λ _. made (
                                                            ignored_div x g input l i c some_c false
                                                            _
                                                            (twice-IsWithin x g input b'<' b'='
                                                            there h)))
                                                            (λ _.
                                                            branch (c == b'>') _ _
                                                            (λ _. made (
                                                            ignored x g input l i c some_c _ (
                                                            lex_greater-IsWithin x g input there
                                                            h)))
                                                            (λ _.
                                                            branch (x.is_letter c) _ _
                                                            (λ e. made (
                                                            identifier-Goes x g input l i c some_c (
                                                            or_right (c == b'_') (c == b'$')
                                                            (x.is_letter c) e)))
                                                            (λ _. made same)))))))))))))))

      rune-Goes : Returns (lex_rune x input c there) GoesFrom
      rune-Goes = lex_rune-Goes.got

    pub lex_text-Goes : Returns (lex_text x input l) GoesFrom
    unfolding lex_text lex_read
    lex_text-Goes =
        let d = next-IsRead x g input l i.inside in
        let read = λ (c : Rune). Returns (lex_read x input (c, there)) GoesFrom in
        elim (Option-cases (next x input l).0) [
          | inl e ↦
              subst read (sym e)
                (rw d.within.same_items (omega (arith, i.room, i.started, i.inside)))
          | inr (c, e) ↦ subst read (sym e) (rune-Goes c e)
        ]
