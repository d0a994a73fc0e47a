-- ===== src/JsLexer/Literal.antt =====
-- jslexer.go: emitString, which takes the quotes and the escapes out of a literal.
use redwood_filter.Common.{
  ℕ, zero, suc, ◌+◌, not, none, some, [], ◌∷◌, ◌++◌, if◌then◌else◌, ◌==◌, nat_eq, length, take,
  drop, contains, ltb, ◌||◌, Bytes,
}
use redwood_filter.Common.Text.{cut, trim_last}
use redwood_filter.JsLexer.State.{Run, ok, stuck, ◌>>=◌, GoText, Lexer, slice, byte_at}

-- What a letter behind a backslash stands for; only x and u are apart.
abbrev pub escaped : ℕ → Bytes
escaped c =
    if c == b'0'
    then 0 ∷ []
    else if c == 10 || c == 13 || c == 12
    then []
    else if c == b'b'
    then 8 ∷ []
    else if c == b't'
    then 9 ∷ []
    else if c == b'n'
    then 10 ∷ []
    else if c == b'v'
    then 11 ∷ []
    else if c == b'f'
    then 12 ∷ []
    else if c == b'r'
    then 13 ∷ []
    else c ∷ []

module _ (x : GoText) where
  -- An escape by n hexadecimal digits for a number of some bits: the bytes, and the text behind it.
  -- Where the digits are missing or bad, nothing is appended and only the letter is skipped.
  unfoldable pub hex_escape : ℕ → ℕ → Bytes → Bytes × Bytes
  hex_escape n bits t =
      if ltb (length t) n then ([], t) else elim (x.parse_uint (take n t) 16 bits) [
        | none ↦ ([], t)
        | some r ↦ (x.string_of r, drop n t)
      ]

  -- The bytes for the letter c behind a backslash and the text t behind it, and what is left of t.
  unfoldable pub unescape_one : ℕ → Bytes → Bytes × Bytes
  unescape_one c t =
      if c == b'x'
      then hex_escape 2 8 t
      else if c == b'u'
      then hex_escape 4 16 t
      else (escaped c, t)

  -- The loop over the literal, on the bytes so far.
  unfoldable pub unescape_loop : ℕ → Bytes → Bytes → Run Bytes
  unescape_loop f b [] = ok b
  unescape_loop zero b (c ∷ s) = stuck
  unescape_loop (suc f) b (c ∷ s) = elim (cut b'\\' (c ∷ s)) [
    | none ↦ ok (b ++ (c ∷ s))
    | some (p, []) ↦ ok (b ++ p)
    | some (p, d ∷ t) ↦ unescape_loop f (b ++ p ++ (unescape_one d t).0) (unescape_one d t).1
  ]

  unfoldable pub unescape : Bytes → Run Bytes
  unescape s = if not (contains s b'\\') then ok s else unescape_loop (length s) [] s

  unfoldable pub emit_string : Bytes → Lexer → Run Lexer
  emit_string input l = do
    quote ← byte_at input l.start
    s ← slice input (l.start + 1) l.pos
    item ← unescape (trim_last quote s)
    ok (record l { start = l.pos; items = l.items ++ item ∷ [] })
