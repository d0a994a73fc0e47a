-- ===== src/JsLexer/Ready.antt =====
-- What each state function starts with, and how far a number and plain text take the lexer.
use redwood_filter.Common.{
  ℕ, ◌+◌, ◌-◌, ◌*◌, ◌≤◌, ◌<◌, ◌≡◌, ◌⊎◌, inl, inr, refl, ◌∙◌, Bool, true, false, none, some, ◌∷◌,
  arith, ltb, if◌then◌else◌, nat_eq, Bool-cases, length, Bytes, codes, bytes_eq,
}
use redwood_filter.JsLexer.State.{
  Returns, Returns-weaken, Returns-bind, GoText, Lexer, State, text, number, after_slash,
  block_comment, line_comment, identifier, string, regex, Rune, one_of, ignore, next, accept,
}
use redwood_filter.JsLexer.Tokens.{
  digits, hex_digits, Next, lex_number, hex_prefix, lex_exponent, lex_fraction, with_div,
}
use redwood_filter.JsLexer.Steps.{in_identifier}
use redwood_filter.JsLexer.Bounds.{
  IsGoText, IsWithin, taken, left, accept-IsAccepted, accept-IsWithin, IsRun, accept_run-IsRun,
  same_next, IsWithin-trans,
}
use redwood_filter.JsLexer.Shorter.{total}

-- The rounds that are left of the loop of run.
abbrev pub rounds : ℕ → State → Lexer → ℕ
rounds n text l = 4 * (n - l.pos) + 1
rounds n number l = 4 * (n - l.pos)
rounds n identifier l = 4 * (n - l.pos)
rounds n string l = 4 * (n - l.pos)
rounds n after_slash l = 4 * (n - l.pos) + 3
rounds n block_comment l = 4 * (n - l.pos) + 2
rounds n line_comment l = 4 * (n - l.pos) + 2
rounds n regex l = 4 * (n - l.pos) + 2

module _ (x : GoText) (input : Bytes) where
  -- What a state function finds at the lexer's position.
  abbrev pub Finds : State → Lexer → Type 0
  Finds text l = l.start ≡ l.pos
  Finds number l = (l.start ≡ l.pos) × (one_of (b'.' ∷ digits) (next x input l).0 ≡ true)
  Finds identifier l = (l.start ≡ l.pos) × (in_identifier x input (next x input l).0 ≡ true)
  Finds string l = (l.start ≡ l.pos) × (l.pos < length input)
  Finds after_slash l = Unit
  Finds block_comment l = Unit
  Finds line_comment l = Unit
  Finds regex l = Unit

  pub record IsReady (s : State) (l : Lexer) : Type 0 where
    pub started : l.start ≤ l.pos
    pub inside : l.pos ≤ length input
    pub room : total l.items ≤ l.start
    pub finds : Finds s l

  -- The next state function is ready, with fewer rounds left; or there is none, and the items
  -- have room in the input.
  abbrev pub Goes : ℕ → Next → Type 0
  Goes m (none, l) = total l.items ≤ length input
  Goes m (some s, l) = IsReady s l × (rounds (length input) s l < m)

  pub text-Goes :
      (m : ℕ) (l : Lexer)
      → l.start ≡ l.pos
      → l.pos ≤ length input
      → total l.items ≤ l.pos
      → 4 * (length input - l.pos) + 1 < m
      → Goes m (some text, l)
  text-Goes m l e h r k =
      (record { started = omega (arith, e); inside = h; room = omega (arith, e, r); finds = e }, k)

ℕ-split : (a b : ℕ) → a ≤ b → (a < b) ⊎ (b ≡ a)
ℕ-split a b h = elim (Bool-cases (ltb a b)) [
  | inl e ↦ inl (ground (arith, e))
  | inr e ↦ inr (ground (arith, e))
]

point :
    (r : Rune)
    → one_of (b'.' ∷ digits) r ≡ true
    → one_of digits r ≡ false
    → one_of (codes ".") r ≡ true
point none h n = cc h
point (some c) h n = ground (arith, h, n)

module _ (x : GoText) (g : IsGoText x) (input : Bytes) where
  lex_fraction-IsRun :
      (ds : Bytes) (l : Lexer)
      → l.pos ≤ length input
      → Returns (lex_fraction x input ds l) (IsRun x g input (codes ".") l)
  unfolding lex_fraction
  lex_fraction-IsRun ds l h = elim (accept-IsAccepted x g input (codes ".") l h) [
    | taken e w m ↦ rw e (
        Returns-weaken (IsRun x g input ds _) (IsRun x g input (codes ".") l) _
          (accept_run-IsRun x g input ds _ w.inside)
          (λ r k. record {
            within = IsWithin-trans x g input l _ r w k.within;
            some_taken = λ _. omega (arith, m, k.within.forwards);
          }))
    | left e w p n ↦ rw e (record { within = w; some_taken = λ t. cc (t, n) })
  ]

  lex_exponent-IsWithin :
      (l : Lexer) → l.pos ≤ length input → Returns (lex_exponent x input l) (IsWithin input l)
  unfolding lex_exponent
  lex_exponent-IsWithin l h = elim (accept-IsAccepted x g input (codes "eE") l h) [
    | taken e w m ↦
        let signed = accept-IsWithin x g input (codes "+-") _ w.inside in
        rw e (
          Returns-weaken (IsRun x g input digits _) (IsWithin input l) _
            (accept_run-IsRun x g input digits _ signed.inside)
            (λ r k.
              IsWithin-trans x g input l _ r w (IsWithin-trans x g input _ _ r signed k.within)))
    | left e w p n ↦ rw e w
  ]

  -- Before the digits: something was taken, or nothing was and the number is decimal.
  abbrev IsBegun : Lexer → Bool × Lexer → Type 0
  IsBegun l r = IsWithin input l r.1 × ((l.pos < r.1.pos) ⊎ ((r.0 ≡ false) × (r.1.pos ≡ l.pos)))

  hex_prefix-IsBegun : (l : Lexer) → l.pos ≤ length input → IsBegun l (hex_prefix x input l)
  unfolding hex_prefix
  hex_prefix-IsBegun l h = elim (accept-IsAccepted x g input (codes "0") l h) [
    | taken e w m ↦
        let k = accept-IsWithin x g input (codes "xX") _ w.inside in
        rw e (IsWithin-trans x g input l _ _ w k, inl (omega (arith, m, k.forwards)))
    | left e w p n ↦ rw e (w, inr (refl, p))
  ]

  begun :
      (l : Lexer)
      → l.pos ≤ length input
      → IsBegun l (hex_prefix x input (accept x input (codes "+-") l).1)
  begun l h = elim (accept-IsAccepted x g input (codes "+-") l h) [
    | taken e w m ↦
        let (v, _) = hex_prefix-IsBegun _ w.inside in
        (IsWithin-trans x g input l _ _ w v, inl (omega (arith, m, v.forwards)))
    | left e w p n ↦
        let (v, c) = hex_prefix-IsBegun _ w.inside in
        (
          IsWithin-trans x g input l _ _ w v,
          elim c [ inl m ↦ inl (omega (arith, m, w.forwards)) | inr (d, q) ↦ inr (d, q ∙ p) ],
        )
  ]

  -- A number takes at least one rune: a digit, or the point in front of one.
  number_moves :
      (l m r : Lexer) (hex : Bool)
      → one_of (b'.' ∷ digits) (next x input l).0 ≡ true
      → (l.pos < m.pos) ⊎ ((hex ≡ false) × (m.pos ≡ l.pos))
      → IsRun x g input (if hex then hex_digits else digits) m r
      → (s : Lexer) → IsRun x g input (codes ".") r s
      → l.pos < s.pos
  number_moves l m r hex o (inl p) k s k' = omega (arith, p, k.within.forwards, k'.within.forwards)
  number_moves l m r hex o (inr (d, e)) k s k' = elim (ℕ-split m.pos r.pos k.within.forwards) [
    | inl p ↦ omega (arith, p, e, k'.within.forwards)
    | inr q ↦
        let same : (next x input r).0 ≡ (next x input l).0 = same_next x g input l r (q ∙ e) in
        let same' : (next x input m).0 ≡ (next x input l).0 = same_next x g input l m e in
        elim (Bool-cases (one_of digits (next x input l).0)) [
          | inl y ↦ let p : m.pos < r.pos = k.some_taken (rw (d, same') y) in omega (arith, p, q)
          | inr n ↦
              let p : r.pos < s.pos = k'.some_taken (rw same (point (next x input l).0 o n)) in
              omega (arith, p, q, e)
        ]
  ]

  pub lex_number-Goes :
      (l : Lexer)
      → IsReady x input number l
      → Returns (lex_number x input l) (Goes x input (rounds (length input) number l))
  unfolding lex_number
  lex_number-Goes l i =
      let (e, o) = i.finds in
      let r = hex_prefix x input (accept x input (codes "+-") l).1 in
      let ds = if r.0 then hex_digits else digits in
      let (w, b) = begun l i.inside in
      let Q = Goes x input (rounds (length input) number l) in
      Returns-bind (IsRun x g input ds r.1) Q _ _ (accept_run-IsRun x g input ds r.1 w.inside)
        (λ l2 k.
          Returns-bind (IsRun x g input (codes ".") l2) Q _ _
            (lex_fraction-IsRun ds l2 k.within.inside)
            (λ l3 k'.
              Returns-bind (IsWithin input l3) Q _ _ (lex_exponent-IsWithin l3 k'.within.inside)
                (λ l4 v.
                  let all =
                    IsWithin-trans x g input l _ l4
                      (IsWithin-trans x g input l _ l3 (IsWithin-trans x g input l _ l2 w k.within)
                        k'.within)
                      v in
                  let p = number_moves l r.1 l2 r.0 o b k l3 k' in
                  text-Goes x input _ (with_div true (ignore l4)) refl v.inside
                    (rw all.same_items (omega (arith, i.room, i.started, all.forwards)))
                    (omega (arith, p, v.forwards, v.inside)))))
