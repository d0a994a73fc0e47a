-- ===== src/Word/Streams.antt =====
-- The streaming transformer against wordString.
use redwood_filter.Common.{
  ℕ, zero, suc, ◌+◌, ◌<◌, ◌≡◌, ◌⊎◌, inl, inr, refl, sym, ap, ◌∙◌, Bool, true, false, not, ◌&&◌,
  ◌||◌, some, List, [], ◌∷◌, ◌++◌, append-nil, append_assoc, arith, ltb, ltb→lt, ◌==◌, nat_eq,
  Bool-cases, length, drop, Bytes, bytes_eq, drop-append_left, drop_cons, drop-drop,
}
use redwood_filter.Word.{Unicode, word_rune}
use redwood_filter.Word.Twice.{words_from, word_runes-words_from}
use redwood_filter.Word.Transform.{
  Utf8, Transformed, transform_round, transform_loop, transform, IsUtf8, words_after,
}

module _ (u : Unicode) (y : Utf8) (g : IsUtf8 u y) where
  abbrev rest_of : ℕ → Bytes → Bytes
  rest_of prev s = u.encode (words_from u prev (u.runes s))

  -- The first rune of a text, and what its words are.
  rest_of-space :
      (prev c : ℕ) (t : Bytes)
      → (word_rune u (y.decode_rune (c ∷ t)).0 == b' ' && prev == b' ') ≡ true
      → rest_of prev (c ∷ t) ≡ rest_of prev (drop (y.decode_rune (c ∷ t)).1 (c ∷ t))
  unfolding words_from
  rest_of-space prev c t h =
      let w = word_rune u (y.decode_rune (c ∷ t)).0 in
      let e : w ≡ prev = ground (arith, h) in
      let none_written : (not (w == b' ') || not (prev == b' ')) ≡ false = ground (arith, h) in
      ap (λ (l : List ℕ). u.encode (words_from u prev l)) (g.first_rune c t)
      ∙ rw none_written (rw e refl)

  rest_of-word :
      (prev c : ℕ) (t : Bytes)
      → (word_rune u (y.decode_rune (c ∷ t)).0 == b' ' && prev == b' ') ≡ false
      → rest_of prev (c ∷ t)
        ≡ y.encode_rune (word_rune u (y.decode_rune (c ∷ t)).0)
          ++ rest_of
              (word_rune u (y.decode_rune (c ∷ t)).0)
              (drop (y.decode_rune (c ∷ t)).1 (c ∷ t))
  unfolding words_from
  rest_of-word prev c t h =
      let w = word_rune u (y.decode_rune (c ∷ t)).0 in
      let written : (not (w == b' ') || not (prev == b' ')) ≡ true = ground (arith, h) in
      ap (λ (l : List ℕ). u.encode (words_from u prev l)) (g.first_rune c t)
      ∙ rw written (g.encode_cons w _)

  module _ (dst_len : ℕ) (src : Bytes) (at_eof : Bool) where
    abbrev round : Transformed → Bool × Transformed
    round t = transform_round u y dst_len src at_eof t

    -- Bytes may follow, if this is not the end of the source.
    module _ (more : Bytes) (open_end : (at_eof ≡ false) ⊎ (more ≡ [])) where
      -- What is written, and what wordString makes of the rest.
      abbrev whole : Transformed → Bytes
      whole t = t.written ++ rest_of t.prev_rune (drop t.n_src src ++ more)

      decoded :
          (c : ℕ) (s : Bytes)
          → ((y.decode_rune (c ∷ s)).0 == 65533 && not at_eof && not (y.full_rune (c ∷ s))) ≡ false
          → y.decode_rune (c ∷ (s ++ more)) ≡ y.decode_rune (c ∷ s)
      decoded c s h = elim open_end [
        | inl e ↦ g.stable c s more (ground (arith, h, e))
        | inr e ↦ rw (e, append-nil) refl
      ]

      round-whole : (t : Transformed) → t.n_src < length src → whole t ≡ whole (round t).1
      unfolding transform_round
      round-whole t h =
          let (c, s, e) = drop_cons t.n_src src h in
          let d = y.decode_rune (c ∷ s) in
          let w = word_rune u d.0 in
          let unread = ap (λ (r : Bytes). t.written ++ rest_of t.prev_rune (r ++ more)) (sym e) in
          elim (Bool-cases (d.0 == 65533 && not at_eof && not (y.full_rune (c ∷ s)))) [
            | inl k ↦ rw (e, k) unread
            | inr k ↦
                let same : y.decode_rune (c ∷ (s ++ more)) ≡ d = decoded c s k in
                let narrow = g.narrow c s in
                let next : drop (y.decode_rune (c ∷ (s ++ more))).1 (c ∷ (s ++ more))
                    ≡ drop (t.n_src + d.1) src ++ more =
                  rw same (drop-append_left d.1 (c ∷ s) more narrow.1)
                  ∙ ap (λ (r : Bytes). r ++ more)
                      (sym (drop-drop t.n_src d.1 src ∙ ap (drop d.1) e)) in
                let first : word_rune u (y.decode_rune (c ∷ (s ++ more))).0 ≡ w = rw same refl in
                elim (Bool-cases (w == b' ' && t.prev_rune == b' ')) [
                  | inl sp ↦
                      let step = rest_of-space t.prev_rune c (s ++ more) (rw first sp) in
                      rw (e, k, sp)
                        (ap (λ (r : Bytes). t.written ++ r) (step ∙ ap (rest_of t.prev_rune) next))
                  | inr sp ↦
                      let step = rest_of-word t.prev_rune c (s ++ more) (rw first sp) in
                      elim (Bool-cases (ltb dst_len (length t.written + y.rune_len w))) [
                        | inl full ↦ rw (e, k, sp, full) unread
                        | inr room ↦
                            rw (e, k, sp, room)
                              (ap (λ (r : Bytes). t.written ++ r)
                                  (rw first at step
                                    ∙ ap (λ (r : Bytes). y.encode_rune w ++ rest_of w r) next)
                                ∙ sym (append_assoc t.written (y.encode_rune w) _))
                      ]
                ]
          ]

      loop-whole :
          (f : ℕ) (t r : Transformed)
          → transform_loop u y dst_len src at_eof f t ≡ some r
          → whole t ≡ whole r
      unfolding transform_loop
      loop-whole zero t r h = cc h
      loop-whole (suc f) t r h = elim (Bool-cases (ltb t.n_src (length src))) [
        | inl e ↦
            let here = round-whole t (ltb→lt t.n_src (length src) e) in
            elim (Bool-cases (round t).0) [
              | inl k ↦ here ∙ loop-whole f (round t).1 r (rw (e, k) at h)
              | inr k ↦
                  let last : some (round t).1 ≡ some r = rw (e, k) at h in
                  let same : (round t).1 ≡ r = cc last in here ∙ ap whole same
            ]
        | inr e ↦
            let last : some t ≡ some r = rw e at h in let same : t ≡ r = cc last in ap whole same
      ]

-- If utf8 does as it is documented: what a call of Transform writes, with what wordString makes
-- behind it of the bytes that are not read yet, is what wordString makes of all bytes: from the
-- rune before the call and from the rune that the call leaves, also where it stops early for want
-- of room or in the middle of a rune, and whatever bytes follow src, if the call is not told that
-- src is at the end.
pub transform-words_after :
    (u : Unicode) (y : Utf8) (dst_len : ℕ) (src more : Bytes) (at_eof : Bool) (prev : ℕ)
    (r : Transformed)
    → IsUtf8 u y
    → (at_eof ≡ false) ⊎ (more ≡ [])
    → transform u y dst_len src at_eof prev ≡ some r
    → words_after u prev (src ++ more)
      ≡ r.written ++ words_after u r.prev_rune (drop r.n_src src ++ more)
unfolding transform
transform-words_after u y dst_len src more at_eof prev r g h e =
    let rest = drop r.n_src src ++ more in
    ap u.encode (word_runes-words_from u prev [] (u.runes (src ++ more)))
    ∙ loop-whole u y g dst_len src at_eof more h _ _ r e
    ∙ ap (λ (w : List ℕ). r.written ++ u.encode w)
        (sym (word_runes-words_from u r.prev_rune [] (u.runes rest)))
