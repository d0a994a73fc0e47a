-- ===== src/Word/Bounds.antt =====
-- A call of Transform keeps to its bounds.
use redwood_filter.Common.{
  ℕ, zero, suc, ◌+◌, ◌-◌, ◌≤◌, ◌<◌, ◌≡◌, ◌≢◌, inl, inr, refl, sym, ap, ◌∙◌, Bool, true, none, some,
  [], ◌∷◌, arith, ltb, if◌then◌else◌, ltb→lt, nat_eq, Bool-cases, length, length-append, Bytes,
  bytes_eq, drop_cons, length-drop,
}
use redwood_filter.Word.{Unicode, word_rune}
use redwood_filter.Word.Transform.{
  Utf8, Transformed, transform_round, transform_loop, transform, IsUtf8,
}

module _ (u : Unicode) (y : Utf8) (g : IsUtf8 u y) where
  module _ (dst_len : ℕ) (src : Bytes) (at_eof : Bool) where
    record IsInBounds (t : Transformed) : Type 0 where
      fits : length t.written ≤ dst_len
      in_src : t.n_src ≤ length src

    abbrev round : Transformed → Bool × Transformed
    round t = transform_round u y dst_len src at_eof t

    round-IsInBounds :
        (t : Transformed)
        → t.n_src < length src
        → IsInBounds t
        → IsInBounds (round t).1 × ((round t).0 ≡ true → t.n_src < (round t).1.n_src)
    unfolding transform_round
    round-IsInBounds t h b =
        let (c, s, e) = drop_cons t.n_src src h in
        let d = g.narrow c s in
        let len : length src - t.n_src ≡ suc (length s) =
          sym (length-drop t.n_src src) ∙ ap length e in
        let wide = g.rune_length (c ∷ s) in
        let w = word_rune u (y.decode_rune (c ∷ s)).0 in
        let joined = length-append t.written (y.encode_rune w) in
        rw e (ground (arith, d, len, wide, joined, b.fits, b.in_src))

    loop-IsInBounds :
        (f : ℕ) (t : Transformed)
        → IsInBounds t
        → length src < f + t.n_src
        → (r : Transformed) × (transform_loop u y dst_len src at_eof f t ≡ some r) × IsInBounds r
    unfolding transform_loop
    loop-IsInBounds zero t b h = absurd (omega (arith, h, b.in_src))
    loop-IsInBounds (suc f) t b h = elim (Bool-cases (ltb t.n_src (length src))) [
      | inl e ↦
          let (b', m) = round-IsInBounds t (ltb→lt t.n_src (length src) e) b in
          elim (Bool-cases (round t).0) [
            | inl k ↦ rw (e, k) (loop-IsInBounds f (round t).1 b' (omega (arith, h, m k)))
            | inr k ↦ rw (e, k) ((round t).1, refl, b')
          ]
      | inr e ↦ rw e (t, refl, b)
    ]

    -- A round that is not the last leaves no error, the last one in the source does.
    round_error :
        (t : Transformed)
        → if (round t).0 then (round t).1.error ≡ t.error else ((round t).1.error ≢ none)
    unfolding transform_round
    round_error t = ground arith

    loop_done :
        (f : ℕ) (t r : Transformed)
        → transform_loop u y dst_len src at_eof f t ≡ some r
        → t.error ≡ none
        → r.error ≡ none
        → length src ≤ r.n_src
    unfolding transform_loop
    loop_done zero t r h n n' = cc h
    loop_done (suc f) t r h n n' = elim (Bool-cases (ltb t.n_src (length src))) [
      | inl e ↦ elim (Bool-cases (round t).0) [
        | inl k ↦
            let same : (round t).1.error ≡ t.error = rw k at (round_error t) in
            loop_done f (round t).1 r (rw (e, k) at h) (same ∙ n) n'
        | inr k ↦
            let last : some (round t).1 ≡ some r = rw (e, k) at h in
            let failed : (round t).1.error ≢ none = rw k at (round_error t) in
            absurd (failed (cc (last, n')))
      ]
      | inr e ↦ let last : some t ≡ some r = rw e at h in ground (arith, e, last)
    ]

-- If utf8 does as it is documented, a call of Transform ends, and keeps to its bounds: it writes no
-- more than dst holds and reads no more than src has, and where it returns no error it has read all
-- of src.
pub transform-bounds :
    (u : Unicode) (y : Utf8) (dst_len : ℕ) (src : Bytes) (at_eof : Bool) (prev : ℕ)
    → IsUtf8 u y
    → (r : Transformed) × (transform u y dst_len src at_eof prev ≡ some r)
      × (length r.written ≤ dst_len)
      × (r.n_src ≤ length src)
      × (r.error ≡ none → r.n_src ≡ length src)
unfolding transform
transform-bounds u y dst_len src at_eof prev g =
    let t : Transformed = record { prev_rune = prev; written = []; n_src = 0; error = none } in
    let (r, e, b) =
      loop-IsInBounds u y g dst_len src at_eof (suc (length src)) t
        (record { fits = omega arith; in_src = omega arith }) (omega arith) in
    (
      r,
      e,
      b.fits,
      b.in_src,
      λ n.
          let all = loop_done u y g dst_len src at_eof _ t r e refl n in
          omega (arith, all, b.in_src),
    )
