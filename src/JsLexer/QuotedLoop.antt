-- ===== src/JsLexer/QuotedLoop.antt =====
-- The loop of lexString on a text written as a literal.
use redwood_filter.Common.{
  ℕ, zero, suc, ◌+◌, ◌≤◌, ◌<◌, ◌≡◌, inl, inr, refl, sym, ap, ◌∙◌, true, false, some, [], ◌∷◌, ◌++◌,
  append_assoc, arith, ltb, leb, ltb→lt, ◌==◌, nat_eq, Bool-cases, length, take, drop, All,
  length-append, Bytes, bytes_eq, length-take, length-drop, drop-drop, drop-append,
}
use redwood_filter.JsLexer.State.{Returns, Returns-weaken, GoText, Lexer, next}
use redwood_filter.JsLexer.Bounds.{IsGoText}
use redwood_filter.JsLexer.Steps.{string_loop}
use redwood_filter.JsLexer.Quoted.{escape, is_special, IsQuote}

pub drop-more : (i : ℕ) (s : Bytes) (c : ℕ) (t : Bytes) → drop i s ≡ c ∷ t → drop (i + 1) s ≡ t
drop-more i s c t h = drop-drop i 1 s ∙ ap (drop 1) h

module _ (x : GoText) (g : IsGoText x) (input : Bytes) where
  next_rune :
      (l : Lexer) (c : ℕ) (t : Bytes)
      → drop l.pos input ≡ c ∷ t
      → next x input l ≡ (
        some (x.decode_rune (c ∷ t)).0,
        record l { width = (x.decode_rune (c ∷ t)).1; pos = l.pos + (x.decode_rune (c ∷ t)).1 },
      )
  unfolding next
  next_rune l c t d =
      let more : leb (length input) l.pos ≡ false =
        ground (arith, length-drop l.pos input, ap length d) in
      rw (more, d) refl

  -- An ASCII byte is read as it stands.
  pub next_byte :
      (l : Lexer) (c : ℕ) (t : Bytes)
      → drop l.pos input ≡ c ∷ t
      → c < 128
      → next x input l ≡ (some c, record l { width = 1; pos = l.pos + 1 })
  next_byte l c t d h = rw (g.ascii c t h) at (next_rune l c t d)

  -- The text of a literal up to its quote, where a wide rune starts: none of its bytes is special.
  high_run :
      (q w : ℕ) (s post : Bytes)
      → q < 128
      → w ≤ length (escape q s ++ q ∷ post)
      → All (λ b. 128 ≤ b) (take w (escape q s ++ q ∷ post))
      → (w ≤ length s) × (escape q s ≡ take w s ++ escape q (drop w s))
  high_run q zero s post k h a = (omega arith, refl)
  high_run q (suc w) [] post k h a = absurd (omega (arith, a.0, k))
  high_run q (suc w) (c ∷ s) post k h a = elim (Bool-cases (is_special q c)) [
    | inl e ↦ absurd (ground (arith, e, a))
    | inr e ↦
        let a' : (128 ≤ c) × All (λ b. 128 ≤ b) (take w (escape q s ++ q ∷ post)) = rw e at a in
        let h' : suc w ≤ suc (length (escape q s ++ q ∷ post)) = rw e at h in
        let (b, ih) = high_run q w s post k (omega (arith, h')) a'.1 in
        (omega (arith, b), rw e (ap (λ t. c ∷ t) ih))
  ]

drop-take_append : (n : ℕ) (s t : Bytes) → n ≤ length s → drop n (take n s ++ t) ≡ t
drop-take_append n s t h =
    ap (λ (k : ℕ). drop k (take n s ++ t)) (sym (length-take n s h)) ∙ drop-append (take n s) t

is_special-lt : (q c : ℕ) → IsQuote q → is_special q c ≡ true → c < 128
is_special-lt q c (inl k) h = ground (arith, k, h)
is_special-lt q c (inr k) h = ground (arith, k, h)

pub IsQuote-facts : (q : ℕ) → IsQuote q → (q < 128) × ((b'\\' == q) ≡ false) × ((q == q) ≡ true)
IsQuote-facts q (inl k) = ground (arith, k)
IsQuote-facts q (inr k) = ground (arith, k)

-- The lexer has moved on by some bytes.
abbrev pub IsMoved : ℕ → Lexer → Lexer → Type 0
IsMoved k l r = (r.pos ≡ l.pos + k) × (r.start ≡ l.start) × (r.items ≡ l.items)

module _ (x : GoText) (g : IsGoText x) (input : Bytes) (q : ℕ) (quote : IsQuote q) where
  unfoldable pub Closes : ℕ → Bytes → Lexer → Type 0
  Closes f s l = Returns (string_loop x input f (some q) l) (IsMoved (length (escape q s) + 1) l)

  -- The rounds of the loop: at the closing quote, at an escaped byte, at a plain one.
  at_quote : (f : ℕ) (l : Lexer) (post : Bytes) → drop l.pos input ≡ q ∷ post → Closes (suc f) [] l
  unfolding string_loop Closes
  at_quote f l post d =
      let (small, _, same) = IsQuote-facts q quote in
      rw (next_byte x g input l q post d small) (rw same (omega arith, refl, refl))

  at_special :
      (f : ℕ) (l : Lexer) (c : ℕ) (s t : Bytes)
      → is_special q c ≡ true
      → drop l.pos input ≡ b'\\' ∷ c ∷ t
      → Closes f s (record l { width = 1; pos = l.pos + 1 + 1 })
      → Closes (suc f) (c ∷ s) l
  unfolding string_loop Closes
  at_special f l c s t e d h =
      let (_, other, _) = IsQuote-facts q quote in
      let P = IsMoved (length (escape q s) + 1) (record l { width = 1; pos = l.pos + 1 + 1 }) in
      rw (next_byte x g input l b'\\' (c ∷ t) d (omega arith)) (
        rw
          (
            next_byte x g input (record l { width = 1; pos = l.pos + 1 }) c t
                (drop-more l.pos input b'\\' (c ∷ t) d) (is_special-lt q c quote e),
            other,
            e,
          )
          (Returns-weaken P (IsMoved (length (b'\\' ∷ c ∷ escape q s) + 1) l) _ h
            (λ r (p, b, i). (omega (arith, p), b, i))))

  at_plain :
      (f : ℕ) (l : Lexer) (c : ℕ) (s t : Bytes)
      → is_special q c ≡ false
      → c < 128
      → drop l.pos input ≡ c ∷ t
      → Closes f s (record l { width = 1; pos = l.pos + 1 })
      → Closes (suc f) (c ∷ s) l
  unfolding string_loop Closes
  at_plain f l c s t e small d h =
      let P = IsMoved (length (escape q s) + 1) (record l { width = 1; pos = l.pos + 1 }) in
      let not_q : (c == q) ≡ false = ground (arith, e) in
      let not_b : (c == b'\\') ≡ false = ground (arith, e) in
      rw (next_byte x g input l c t d small) (
        rw (not_q, not_b)
          (Returns-weaken P (IsMoved (length (c ∷ escape q s) + 1) l) _ h
            (λ r (p, b, i). (omega (arith, p), b, i))))

  at_high :
      (f : ℕ) (l : Lexer) (c : ℕ) (s t : Bytes)
      → 128 ≤ c
      → drop l.pos input ≡ c ∷ t
      → (w : ℕ) → (x.decode_rune (c ∷ t)).1 ≡ w
      → w ≤ length (c ∷ s)
      → escape q (c ∷ s) ≡ take w (c ∷ s) ++ escape q (drop w (c ∷ s))
      → Closes f (drop w (c ∷ s)) (record l { width = w; pos = l.pos + w })
      → Closes (suc f) (c ∷ s) l
  unfolding string_loop Closes
  at_high f l c s t big d w e short parts h =
      let (small, _, _) = IsQuote-facts q quote in
      let rune = (g.high c t big).0 in
      let P =
        IsMoved (length (escape q (drop w (c ∷ s))) + 1)
          (record l { width = w; pos = l.pos + w }) in
      let not_q : ((x.decode_rune (c ∷ t)).0 == q) ≡ false = ground (arith, rune, small) in
      let not_b : ((x.decode_rune (c ∷ t)).0 == b'\\') ≡ false = ground (arith, rune) in
      rw (next_rune x g input l c t d) (
        rw (not_q, not_b, e)
          (Returns-weaken P (IsMoved (length (escape q (c ∷ s)) + 1) l) _ h (λ r (p, b, i). (
            omega (
              arith,
              p,
              ap length parts,
              length-append (take w (c ∷ s)) (escape q (drop w (c ∷ s))),
              length-take w (c ∷ s) short,
            ),
            b,
            i,
          ))))

  pub string_loop-Closes :
      (f : ℕ) (s : Bytes) (l : Lexer) (post : Bytes)
      → drop l.pos input ≡ escape q s ++ q ∷ post
      → length (escape q s) < f
      → Closes f s l
  string_loop-Closes zero s l post d h = absurd (omega (arith, h))
  string_loop-Closes (suc f) [] l post d h = at_quote f l post d
  string_loop-Closes (suc f) (c ∷ s) l post d h = elim (Bool-cases (is_special q c)) [
    | inl e ↦
        let d' : drop l.pos input ≡ b'\\' ∷ c ∷ (escape q s ++ q ∷ post) = rw e at d in
        at_special f l c s _ e d' (
          string_loop-Closes f s (record l { width = 1; pos = l.pos + 1 + 1 }) post
            (drop-more (l.pos + 1) input c _ (drop-more l.pos input b'\\' _ d'))
            (ground (arith, e, h)))
    | inr e ↦
        let d' : drop l.pos input ≡ c ∷ (escape q s ++ q ∷ post) = rw e at d in
        elim (Bool-cases (ltb c 128)) [
          | inl k ↦ at_plain f l c s _ e (ltb→lt c 128 k) d' (
              string_loop-Closes f s (record l { width = 1; pos = l.pos + 1 }) post
                (drop-more l.pos input c _ d') (ground (arith, e, h)))
          | inr k ↦
              let big : 128 ≤ c = ground (arith, k) in
              let t = escape q s ++ q ∷ post in
              let w = (x.decode_rune (c ∷ t)).1 in
              let (some_w, fits) = g.narrow c t in
              let (small, _, _) = IsQuote-facts q quote in
              let same : escape q (c ∷ s) ≡ c ∷ escape q s = rw e refl in
              let (short, parts) =
                high_run x g input q w (c ∷ s) post small (rw same fits)
                  (rw same (g.high c t big).1) in
              at_high f l c s t big d' w refl short parts (
                string_loop-Closes f (drop w (c ∷ s)) (record l { width = w; pos = l.pos + w }) post
                  (drop-drop l.pos w input
                    ∙ ap (drop w) (
                        d
                        ∙ ap (λ r. r ++ q ∷ post) parts
                        ∙ append_assoc (take w (c ∷ s)) (escape q (drop w (c ∷ s))) (q ∷ post))
                    ∙ drop-take_append w (c ∷ s) _ short)
                  (omega (
                    arith,
                    h,
                    ap length parts,
                    length-append (take w (c ∷ s)) (escape q (drop w (c ∷ s))),
                    length-take w (c ∷ s) short,
                    some_w,
                  )))
        ]
  ]
