-- ===== src/Word/Runs.antt =====
-- The calls of Transform by which a reader takes a source through wordTransformer.
use redwood_filter.Common.{
  ℕ, ◌≡◌, refl, sym, ap, ◌∙◌, true, false, none, some, ◌++◌, [], append-nil, inl, inr, arith,
  length, drop, length-drop, Bytes, bytes_eq,
}
use redwood_filter.Word.{Unicode, word_runes, word_string}
use redwood_filter.Word.Transform.{Utf8, Transformed, transform, IsUtf8, words_after}
use redwood_filter.Word.Bounds.{transform-bounds}
use redwood_filter.Word.Streams.{transform-words_after}

-- From a rune before, a source that is left is written in calls, each with some room and with as
-- much of the source as there is so far: what a call has not read is given to the next one.
pub data Writes (u : Unicode) (y : Utf8) : ℕ → Bytes → Bytes → Type 0 where
  -- a call with a first part of the source, more of which is to come
  part :
      {prev : ℕ} {out : Bytes} (dst_len : ℕ) (head tail : Bytes) (r : Transformed)
      → transform u y dst_len head false prev ≡ some r
      → Writes u y r.prev_rune (drop r.n_src head ++ tail) out
      → (src : Bytes) → src ≡ head ++ tail
      → (written : Bytes) → written ≡ r.written ++ out
      → Writes u y prev src written
  -- a call with all of it, which runs out of room
  short :
      {prev : ℕ} {out : Bytes} (dst_len : ℕ) (src : Bytes) (r : Transformed)
      → transform u y dst_len src true prev ≡ some r
      → Writes u y r.prev_rune (drop r.n_src src) out
      → (written : Bytes) → written ≡ r.written ++ out
      → Writes u y prev src written
  -- the last call
  last :
      {prev : ℕ} (dst_len : ℕ) (src : Bytes) (r : Transformed)
      → transform u y dst_len src true prev ≡ some r
      → r.error ≡ none
      → (written : Bytes) → written ≡ r.written
      → Writes u y prev src written

module _ (u : Unicode) (y : Utf8) (g : IsUtf8 u y) where
  words_after-nil : (prev : ℕ) → words_after u prev [] ≡ []
  unfolding word_runes
  words_after-nil prev = ap (λ rs. u.encode (word_runes u prev [] rs)) g.no_runes ∙ g.encode_nil

  drop_all : (n : ℕ) (s : Bytes) → n ≡ length s → drop n s ≡ []
  drop_all n s h = only_empty (drop n s) (omega (arith, length-drop n s, h))
    where
      only_empty : (t : Bytes) → length t ≡ 0 → t ≡ []
      only_empty t h = ground (arith, h)

  Writes-words_after :
      {prev : ℕ} {src written : Bytes}
      → Writes u y prev src written
      → written ≡ words_after u prev src
  Writes-words_after (part dst_len head tail r e w src s written o) =
      let ih = Writes-words_after w in
      let here = transform-words_after u y dst_len head tail false _ r g (inl refl) e in
      o ∙ ap (λ (t : Bytes). r.written ++ t) ih ∙ sym here ∙ ap (words_after u _) (sym s)
  Writes-words_after (short dst_len src r e w written o) =
      let ih = Writes-words_after w in
      let here = transform-words_after u y dst_len src [] true _ r g (inr refl) e in
      o
      ∙ ap (λ (t : Bytes). r.written ++ t)
          (ih ∙ ap (words_after u r.prev_rune) (sym (append-nil (drop r.n_src src))))
      ∙ sym here
      ∙ ap (words_after u _) (append-nil src)
  Writes-words_after {prev} (last dst_len src r e n written o) =
      let (r', e', _, _, all) = transform-bounds u y dst_len src true prev g in
      let same : r ≡ r' = cc (e, e') in
      let read : r.n_src ≡ length src =
        ap (λ (t : Transformed). t.n_src) same
        ∙ all (ap (λ (t : Transformed). t.error) (sym same) ∙ n) in
      let here = transform-words_after u y dst_len src [] true _ r g (inr refl) e in
      let nothing : words_after u r.prev_rune (drop r.n_src src ++ []) ≡ [] =
        rw (drop_all r.n_src src read) (words_after-nil r.prev_rune) in
      o
      ∙ sym (append-nil r.written)
      ∙ ap (λ (t : Bytes). r.written ++ t) (sym nothing)
      ∙ sym here
      ∙ ap (words_after u _) (append-nil src)

-- If utf8 does as it is documented: however a reader cuts the source into parts and whatever room
-- each call has, what all calls write from a new transformer is what wordString makes of the whole
-- source.
pub Writes-word_string :
    (u : Unicode) (y : Utf8) (src written : Bytes)
    → IsUtf8 u y
    → Writes u y 0 src written
    → written ≡ word_string u src
unfolding word_string
Writes-word_string u y src written g w = Writes-words_after u y g w
