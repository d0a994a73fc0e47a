-- ===== src/Word/Transform.antt =====
-- word.go: wordTransformer, which does what wordString does on a stream. A call of Transform gets
-- the length of dst, and returns what it has written there.
use redwood_filter.Common.{
  ℕ, zero, suc, ◌+◌, ◌≤◌, ◌≡◌, Bool, true, false, not, ◌&&◌, Option, none, some, List, [], ◌∷◌,
  ◌++◌, ltb, if◌then◌else◌, ◌==◌, nat_eq, length, drop, Bytes, bytes_eq,
}
use redwood_filter.Word.{Unicode, word_rune, word_runes}

-- What the transformer uses of the package utf8.
pub record Utf8 : Type 0 where
  pub decode_rune : Bytes → ℕ × ℕ
  pub full_rune : Bytes → Bool
  pub rune_len : ℕ → ℕ
  -- the bytes that EncodeRune writes
  pub encode_rune : ℕ → Bytes

-- transform.ErrShortSrc and transform.ErrShortDst
pub data TransformError : Type 0 where
  short_src short_dst : TransformError

-- The loop's state: nDst is the length of what is written.
pub record Transformed : Type 0 where
  pub prev_rune : ℕ
  pub written : Bytes
  pub n_src : ℕ
  pub error : Option TransformError

module _ (u : Unicode) (y : Utf8) (dst_len : ℕ) (src : Bytes) (at_eof : Bool) where
  -- A round of the loop, and whether it goes on.
  unfoldable pub transform_round : Transformed → Bool × Transformed
  transform_round t =
      let rest = drop t.n_src src in
      let d = y.decode_rune rest in
      let r = word_rune u d.0 in
      if d.0 == 65533 && not at_eof && not (y.full_rune rest)
      then (false, record t { error = some short_src })
      else if r == b' ' && t.prev_rune == b' '
      then (true, record t { n_src = t.n_src + d.1 })
      else if ltb dst_len (length t.written + y.rune_len r)
      then (false, record t { error = some short_dst })
      else (
        true,
        record t { prev_rune = r; n_src = t.n_src + d.1; written = t.written ++ y.encode_rune r },
      )

  -- The loop is on fuel; none means that it has run out.
  unfoldable pub transform_loop : ℕ → Transformed → Option Transformed
  transform_loop zero t = none
  transform_loop (suc f) t =
      let rest = transform_loop f (transform_round t).1 in
      if ltb t.n_src (length src)
      then (if (transform_round t).0 then rest else some (transform_round t).1)
      else some t

  unfoldable pub transform : ℕ → Option Transformed
  transform prev =
      transform_loop (suc (length src))
        (record { prev_rune = prev; written = []; n_src = 0; error = none })

-- Reset
abbrev pub reset : ℕ → ℕ
reset prev = 0

-- The documented behaviour of utf8, of a range loop over a string and of string(runes).
pub record IsUtf8 (u : Unicode) (y : Utf8) : Type 0 where
  pub narrow :
      (c : ℕ) (s : Bytes)
      → (1 ≤ (y.decode_rune (c ∷ s)).1) × ((y.decode_rune (c ∷ s)).1 ≤ suc (length s))
  -- What follows changes nothing, unless a rune is cut short.
  pub stable :
      (c : ℕ) (s more : Bytes)
      → ((y.decode_rune (c ∷ s)).0 == 65533 && not (y.full_rune (c ∷ s))) ≡ false
      → y.decode_rune (c ∷ (s ++ more)) ≡ y.decode_rune (c ∷ s)
  pub no_runes : u.runes [] ≡ []
  pub first_rune :
      (c : ℕ) (s : Bytes)
      → u.runes (c ∷ s)
        ≡ (y.decode_rune (c ∷ s)).0 ∷ u.runes (drop (y.decode_rune (c ∷ s)).1 (c ∷ s))
  pub encode_nil : u.encode [] ≡ []
  pub encode_cons : (r : ℕ) (rs : List ℕ) → u.encode (r ∷ rs) ≡ y.encode_rune r ++ u.encode rs
  pub rune_length :
      (s : Bytes)
      → let r = word_rune u (y.decode_rune s).0 in y.rune_len r ≡ length (y.encode_rune r)

-- The words of a text behind a rune, as the loop of wordString makes them.
abbrev pub words_after : Unicode → ℕ → Bytes → Bytes
words_after u prev s = u.encode (word_runes u prev [] (u.runes s))
