-- ===== src/JsLexer/Bounds.antt =====
-- What the lexer relies on, and that reading a rune stays within the input.
use redwood_filter.Common.{
  ℕ, zero, suc, ◌+◌, ◌-◌, ◌^◌, ◌≤◌, ◌<◌, ◌≡◌, ◌≢◌, inl, inr, refl, ap, ◌∙◌, Bool, true, false, none,
  some, ◌∷◌, arith, ltb, leb, ltb→lt, nat_eq, Bool-cases, length, take, All, contains, Bytes,
  bytes_eq, drop_cons, length-drop,
}
use redwood_filter.JsLexer.State.{
  Returns, Returns-weaken, GoText, Lexer, Rune, one_of, backup, next, accept, accept_loop,
  accept_run,
}
use redwood_filter.JsLexer.Tokens.{letters}

-- The documented behaviour of Go's packages.
pub record IsGoText (x : GoText) : Type 0 where
  pub narrow :
      (c : ℕ) (s : Bytes)
      → (1 ≤ (x.decode_rune (c ∷ s)).1) × ((x.decode_rune (c ∷ s)).1 ≤ suc (length s))
  pub ascii : (c : ℕ) (s : Bytes) → c < 128 → x.decode_rune (c ∷ s) ≡ (c, 1)
  -- A byte of 128 and more is no ASCII rune, and its rune has such bytes only.
  pub high :
      (c : ℕ) (s : Bytes)
      → 128 ≤ c
      → (128 ≤ (x.decode_rune (c ∷ s)).0)
        × All (λ b. 128 ≤ b) (take (x.decode_rune (c ∷ s)).1 (c ∷ s))
  pub letter : (c : ℕ) → contains letters c ≡ true → x.is_letter c ≡ true
  pub no_letter : (c : ℕ) → c < 128 → contains letters c ≡ false → x.is_letter c ≡ false
  pub found : (s : Bytes) → length (x.find_regex s) ≤ length s
  pub parsed : (s : Bytes) (bits r : ℕ) → 0 < bits → x.parse_uint s 16 bits ≡ some r → r < 2 ^ bits
  pub two_bytes : (r : ℕ) → r < 256 → length (x.string_of r) ≤ 2
  pub three_bytes : (r : ℕ) → r < 65536 → length (x.string_of r) ≤ 3

-- Only forwards, and not past the end.
pub record IsWithin (input : Bytes) (l r : Lexer) : Type 0 where
  pub same_start : r.start ≡ l.start
  pub same_items : r.items ≡ l.items
  pub forwards : l.pos ≤ r.pos
  pub inside : r.pos ≤ length input

module _ (x : GoText) (g : IsGoText x) (input : Bytes) where
  -- One rune read: it is gone back by backup, and the position moves unless it is the end.
  pub record IsRead (l : Lexer) (r : Rune × Lexer) : Type 0 where
    pub within : IsWithin input l r.1
    pub back : r.1.pos - r.1.width ≡ l.pos
    pub moved : r.0 ≢ none → l.pos < r.1.pos
    pub same_div : r.1.div_ok ≡ l.div_ok

  pub next-IsRead : (l : Lexer) → l.pos ≤ length input → IsRead l (next x input l)
  unfolding next
  next-IsRead l h = elim (Bool-cases (leb (length input) l.pos)) [
    | inl e ↦ rw e (record {
      within = record { same_start = refl; same_items = refl; forwards = omega arith; inside = h };
      back = omega arith;
      moved = λ n. absurd (n refl);
      same_div = refl;
    })
    | inr e ↦
        let (c, t, d) = drop_cons l.pos input (ground (arith, e)) in
        let n = g.narrow c t in
        let len : length input - l.pos ≡ suc (length t) =
          rw (length-drop l.pos input) at (ap length d) in
        rw (e, d)
          (record {
            within = record {
              same_start = refl;
              same_items = refl;
              forwards = omega arith;
              inside = omega (arith, n, len);
            };
            back = omega arith;
            moved = λ m. omega (arith, n);
            same_div = refl;
          })
  ]

  -- An ASCII rune is a byte.
  pub next_ascii :
      (l : Lexer) (c : ℕ)
      → (next x input l).0 ≡ some c
      → c < 128
      → (next x input l).1.pos ≡ l.pos + 1
  unfolding next
  next_ascii l c e h = elim (Bool-cases (leb (length input) l.pos)) [
    | inl k ↦ let none_c : none ≡ some c = rw k at e in cc none_c
    | inr k ↦
        let (b, t, d) = drop_cons l.pos input (ground (arith, k)) in
        let rune : some (x.decode_rune (b ∷ t)).0 ≡ some c = rw (k, d) at e in
        elim (Bool-cases (ltb b 128)) [
          | inl y ↦ let w = g.ascii b t (ltb→lt b 128 y) in rw (k, d, w) refl
          | inr n ↦ let w = g.high b t (ground (arith, n)) in absurd (ground (arith, w.0, rune, h))
        ]
  ]

  -- accept takes a rune of the set, or stays where it was.
  pub data IsAccepted (valid : Bytes) (l : Lexer) (r : Bool × Lexer) : Type 0 where
    taken : r.0 ≡ true → IsWithin input l r.1 → l.pos < r.1.pos → IsAccepted valid l r
    left :
        r.0 ≡ false
        → IsWithin input l r.1
        → r.1.pos ≡ l.pos
        → one_of valid (next x input l).0 ≡ false
        → IsAccepted valid l r

  one_of-ne_none : (valid : Bytes) (r : Rune) → one_of valid r ≡ true → r ≢ none
  one_of-ne_none valid none h = λ e. cc h
  one_of-ne_none valid (some c) h = λ e. cc e

  pub back-IsWithin :
      (l : Lexer) (r : Rune × Lexer)
      → l.pos ≤ length input
      → IsRead l r
      → IsWithin input l (backup r.1)
  back-IsWithin l r h d = record {
    same_start = d.within.same_start;
    same_items = d.within.same_items;
    forwards = omega (arith, d.back);
    inside = omega (arith, d.back, h);
  }

  pub accept-IsAccepted :
      (valid : Bytes) (l : Lexer)
      → l.pos ≤ length input
      → IsAccepted valid l (accept x input valid l)
  unfolding accept
  accept-IsAccepted valid l h =
      let d = next-IsRead l h in
      elim (Bool-cases (one_of valid (next x input l).0)) [
        | inl e ↦ rw e (taken refl d.within (d.moved (one_of-ne_none valid _ e)))
        | inr e ↦ rw e (left refl (back-IsWithin l _ h d) d.back e)
      ]

  -- next reads the same rune where the position is the same.
  pub same_next : (l r : Lexer) → r.pos ≡ l.pos → (next x input r).0 ≡ (next x input l).0
  unfolding next
  same_next l r e = rw e (ground arith)

  pub IsWithin-trans :
      (l m r : Lexer) → IsWithin input l m → IsWithin input m r → IsWithin input l r
  IsWithin-trans l m r p q = record {
    same_start = q.same_start ∙ p.same_start;
    same_items = q.same_items ∙ p.same_items;
    forwards = omega (arith, p.forwards, q.forwards);
    inside = q.inside;
  }

  pub accept-IsWithin :
      (valid : Bytes) (l : Lexer)
      → l.pos ≤ length input
      → IsWithin input l (accept x input valid l).1
  accept-IsWithin valid l h = elim (accept-IsAccepted valid l h) [
    | taken e w m ↦ w
    | left e w p n ↦ w
  ]

  -- acceptRun ends, and takes at least one rune if there is one of the set.
  pub record IsRun (valid : Bytes) (l r : Lexer) : Type 0 where
    pub within : IsWithin input l r
    pub some_taken : one_of valid (next x input l).0 ≡ true → l.pos < r.pos

  accept_loop-IsRun :
      (f : ℕ) (valid : Bytes) (l : Lexer)
      → l.pos ≤ length input
      → length input < f + l.pos
      → Returns (accept_loop x input f valid l) (IsRun valid l)
  unfolding accept_loop
  accept_loop-IsRun zero valid l h b = absurd (omega arith)
  accept_loop-IsRun (suc f) valid l h b =
      let d = next-IsRead l h in
      elim (Bool-cases (one_of valid (next x input l).0)) [
        | inl e ↦
            let m = d.moved (one_of-ne_none valid _ e) in
            rw e (
              Returns-weaken (IsRun valid (next x input l).1) (IsRun valid l) _
                (accept_loop-IsRun f valid (next x input l).1 d.within.inside (omega (arith, b, m)))
                (λ r k. record {
                  within = IsWithin-trans l _ r d.within k.within;
                  some_taken = λ _. omega (arith, m, k.within.forwards);
                }))
        | inr e ↦ rw e (record { within = back-IsWithin l _ h d; some_taken = λ t. cc t })
      ]

  pub accept_run-IsRun :
      (valid : Bytes) (l : Lexer)
      → l.pos ≤ length input
      → Returns (accept_run x input valid l) (IsRun valid l)
  unfolding accept_run
  accept_run-IsRun valid l h = accept_loop-IsRun _ valid l h (omega arith)
