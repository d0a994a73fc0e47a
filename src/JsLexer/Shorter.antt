-- ===== src/JsLexer/Shorter.antt =====
-- A literal without its quotes and escapes is shorter than the literal.
use redwood_filter.Common.{
  ℕ, zero, suc, ◌+◌, ◌-◌, ◌≤◌, ◌<◌, ◌≡◌, inl, inr, refl, true, some, List, [], ◌∷◌, ◌++◌, arith,
  ltb, leb, nat_eq, Bool-cases, Option-cases, length, get_or, take, drop, length-append, contains,
  Bytes, bytes_eq, length-drop, length-take-le,
}
use redwood_filter.Common.Text.{cut, cut-shorter, trim_last}
use redwood_filter.JsLexer.State.{
  Returns, Returns-weaken, Returns-bind, GoText, Lexer, slice, byte_at,
}
use redwood_filter.JsLexer.Literal.{
  escaped, hex_escape, unescape_one, unescape_loop, unescape, emit_string,
}
use redwood_filter.JsLexer.Bounds.{IsGoText}

abbrev pub total : List Bytes → ℕ
total [] = 0
total (s ∷ l) = length s + total l

pub total-append : (l m : List Bytes) → total (l ++ m) ≡ total l + total m
total-append [] m = omega arith
total-append (s ∷ l) m = omega (arith, total-append l m)

length-escaped-le : (c : ℕ) → length (escaped c) ≤ 1
length-escaped-le c = ground arith

trim_last-le : (b : ℕ) (s : Bytes) → length (trim_last b s) ≤ length s
trim_last-le b [] = omega arith
trim_last-le b (c ∷ []) = ground arith
trim_last-le b (c ∷ d ∷ s) = omega (arith, trim_last-le b (d ∷ s))

-- The bytes that an escape gives are no more than those it takes.
abbrev IsShort : Bytes → Bytes × Bytes → Type 0
IsShort t r = (length r.1 ≤ length t) × (length r.0 + length r.1 ≤ length t + 1)

module _ (x : GoText) (g : IsGoText x) where
  hex_escape-IsShort :
      (n bits : ℕ) (t : Bytes)
      → ((r : ℕ) → x.parse_uint (take n t) 16 bits ≡ some r → length (x.string_of r) ≤ n)
      → IsShort t (hex_escape x n bits t)
  unfolding hex_escape
  hex_escape-IsShort n bits t h = elim (Bool-cases (ltb (length t) n)) [
    | inl e ↦ rw e (omega arith)
    | inr e ↦ elim (Option-cases (x.parse_uint (take n t) 16 bits)) [
      | inl o ↦ rw (e, o) (omega arith)
      | inr (r, o) ↦
          let b = h r o in
          let m : n ≤ length t = ground (arith, e) in
          rw (e, o) (omega (arith, length-drop n t, b, m))
    ]
  ]

  unescape_one-IsShort : (c : ℕ) (t : Bytes) → IsShort t (unescape_one x c t)
  unfolding unescape_one
  unescape_one-IsShort c t =
      let two = hex_escape-IsShort 2 8 t (λ r o. g.two_bytes r (g.parsed _ 8 r (omega arith) o)) in
      let four =
        hex_escape-IsShort 4 16 t
          (λ r o. let b = g.three_bytes r (g.parsed _ 16 r (omega arith) o) in omega (arith, b)) in
      let one = length-escaped-le c in ground (arith, two, four, one)

  unescape_loop-shorter :
      (f : ℕ) (b s : Bytes)
      → length s ≤ f
      → Returns (unescape_loop x f b s) (λ r. length r ≤ length b + length s)
  unfolding unescape_loop
  unescape_loop-shorter zero b [] h = omega arith
  unescape_loop-shorter (suc f) b [] h = omega arith
  unescape_loop-shorter zero b (c ∷ s) h = absurd (omega arith)
  unescape_loop-shorter (suc f) b (c ∷ s) h = elim (Option-cases (cut b'\\' (c ∷ s))) [
    | inl o ↦ rw (o, unescape_loop) (omega (arith, length-append b (c ∷ s)))
    | inr ((p, []), o) ↦
        rw (o, unescape_loop) (omega (arith, length-append b p, cut-shorter b'\\' (c ∷ s) p [] o))
    | inr ((p, d ∷ t), o) ↦
        let k = unescape_one-IsShort d t in
        let e = cut-shorter b'\\' (c ∷ s) p (d ∷ t) o in
        let u = unescape_one x d t in
        let b' = b ++ p ++ u.0 in
        rw (o, unescape_loop)
          (Returns-weaken (λ r. length r ≤ length b' + length u.1)
            (λ r. length r ≤ length b + length (c ∷ s)) _
            (unescape_loop-shorter f b' u.1 (omega (arith, k, e, h)))
            (λ r q. omega (arith, q, k, e, length-append (b ++ p) u.0, length-append b p)))
  ]

  unescape-shorter : (s : Bytes) → Returns (unescape x s) (λ r. length r ≤ length s)
  unfolding unescape
  unescape-shorter s = elim (Bool-cases (contains s b'\\')) [
    | inl e ↦ rw e (
        Returns-weaken (λ r. length r ≤ 0 + length s) (λ r. length r ≤ length s) _
          (unescape_loop-shorter (length s) [] s (omega arith)) (λ r q. omega (arith, q)))
    | inr e ↦ rw e (omega arith)
  ]

  -- emitString does not panic behind a quote, and its item has room in the text up to its end.
  pub emit_string-shorter :
      (input : Bytes) (l : Lexer)
      → l.start < l.pos
      → l.pos ≤ length input
      → total l.items ≤ l.start
      → Returns
          (emit_string x input l)
          (λ r. (r.start ≡ l.pos) × (r.pos ≡ l.pos) × (total r.items ≤ l.pos))
  unfolding emit_string byte_at slice
  emit_string-shorter input l h k m =
      let at : ltb l.start (length input) ≡ true = ground arith in
      let from : leb (l.start + 1) l.pos ≡ true = ground arith in
      let to : leb l.pos (length input) ≡ true = ground arith in
      let raw = take (l.pos - (l.start + 1)) (drop (l.start + 1) input) in
      let s = trim_last (get_or input l.start 0) raw in
      rw (at, from, to)
        (Returns-bind (λ r. length r ≤ length s)
          (λ (r : Lexer). (r.start ≡ l.pos) × (r.pos ≡ l.pos) × (total r.items ≤ l.pos))
          (unescape x s) _ (unescape-shorter s)
          (λ r q. (
            refl,
            refl,
            omega (
              arith,
              q,
              h,
              m,
              total-append l.items (r ∷ []),
              trim_last-le (get_or input l.start 0) raw,
              length-take-le (l.pos - (l.start + 1)) (drop (l.start + 1) input),
            ),
          )))
