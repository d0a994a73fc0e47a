-- ===== src/JsLexer/Steps.antt =====
-- jslexer.go: the state functions, and the run of the lexer.
use redwood_filter.Common.{
  ℕ, zero, suc, ◌+◌, ◌-◌, ◌*◌, Bool, true, false, ◌||◌, Option, none, some, List, [], ◌∷◌,
  if◌then◌else◌, ◌==◌, nat_eq, length, contains, Bytes, codes, bytes_eq,
}
use redwood_filter.Common.GoMap.{GoMap, lookup_or}
use redwood_filter.JsLexer.State.{
  Run, ok, stuck, ◌>>=◌, GoText, Lexer, State, text, number, after_slash, block_comment,
  line_comment, identifier, string, regex, Rune, same_rune, one_of, index, slice_from, slice,
  ignore, backup, next, peek, emit_rest,
}
use redwood_filter.JsLexer.Literal.{emit_string}
use redwood_filter.JsLexer.Tokens.{
  digits, letters, Next, go, with_div, skip, lex_number, skip_same, lex_sign, lex_equals,
  lex_greater,
}

abbrev pub keyword_div_ok : GoMap Bytes Bool
keyword_div_ok =
    (codes "break", false)
    ∷ (codes "case", false)
    ∷ (codes "catch", false)
    ∷ (codes "class", false)
    ∷ (codes "const", false)
    ∷ (codes "continue", false)
    ∷ (codes "debugger", false)
    ∷ (codes "default", false)
    ∷ (codes "delete", false)
    ∷ (codes "do", false)
    ∷ (codes "else", false)
    ∷ (codes "enum", false)
    ∷ (codes "export", false)
    ∷ (codes "extends", false)
    ∷ (codes "finally", false)
    ∷ (codes "for", false)
    ∷ (codes "function", false)
    ∷ (codes "if", false)
    ∷ (codes "import", false)
    ∷ (codes "in", false)
    ∷ (codes "instanceof", false)
    ∷ (codes "new", false)
    ∷ (codes "return", false)
    ∷ (codes "super", false)
    ∷ (codes "switch", false)
    ∷ (codes "this", false)
    ∷ (codes "throw", false)
    ∷ (codes "try", false)
    ∷ (codes "typeof", false)
    ∷ (codes "var", false)
    ∷ (codes "void", false)
    ∷ (codes "while", false)
    ∷ (codes "with", false)
    ∷ (codes "null", true)
    ∷ (codes "true", true)
    ∷ (codes "false", true)
    ∷ []

module _ (x : GoText) (input : Bytes) where
  unfoldable pub lex_dot : Lexer → Run Next
  lex_dot l =
      let r = peek x input l in
      if one_of digits r.0
      then go number (record r.1 { pos = r.1.pos - 1 })
      else go text (with_div false (ignore r.1))

  -- One round of the loop of lexText, after the rune is read. Going round again is the state text.
  unfoldable pub lex_rune : ℕ → Lexer → Run Next
  lex_rune c l =
      if c == b' ' || c == 9 || c == 10
      then go text (ignore l)
      else if contains digits c
      then go number (backup l)
      else if c == b'.'
      then lex_dot l
      else if c == b'/'
      then go after_slash l
      else if c == b'_' || c == b'$' || contains letters c
      then go identifier (backup l)
      else if c == b'\'' || c == b'"'
      then go string (backup l)
      else if contains (codes "(:;?[{}~") c
      then go text (ignore (with_div false l))
      else if contains (codes ")]") c
      then go text (ignore (with_div true l))
      else if c == b'!' || c == b'='
      then go text (ignore (lex_equals x input l))
      else if contains (codes "%*^") c
      then go text (ignore (with_div false (skip x input b'=' l)))
      else if c == b'&' || c == b'|'
      then go text (ignore (with_div false (skip_same x input c l)))
      else if c == b'+' || c == b'-'
      then go text (ignore (lex_sign x input c l))
      else if c == b'<'
      then go text (ignore (with_div false (skip x input b'=' (skip x input b'<' l))))
      else if c == b'>'
      then go text (ignore (lex_greater x input l))
      else if x.is_letter c
      then go identifier (backup l)
      else go text (ignore l)

  -- eof or a rune, and the lexer behind it.
  unfoldable pub lex_read : Rune × Lexer → Run Next
  lex_read (none, l) = ok (none, l)
  lex_read (some c, l) = lex_rune c l

  unfoldable pub lex_text : Lexer → Run Next
  lex_text l = lex_read (next x input l)

  unfoldable pub lex_after_slash : Lexer → Run Next
  lex_after_slash l =
      let r = next x input l in
      if same_rune r.0 (some b'*')
      then go block_comment r.1
      else if same_rune r.0 (some b'/')
      then go line_comment r.1
      else if l.div_ok
      then go text (with_div false (ignore (if same_rune r.0 (some b'=') then r.1 else backup r.1)))
      else go regex (backup r.1)

  -- Where the closing mark stands behind the position, if it is there.
  unfoldable pub end_block : Option ℕ → Lexer → Run Next
  end_block none l = do l2 ← emit_rest input (record l { pos = length input }); ok (none, l2)
  end_block (some i) l = go text (ignore (record l { pos = l.pos + i + 2 }))

  unfoldable pub lex_block_comment : Lexer → Run Next
  lex_block_comment l = do rest ← slice_from input l.pos; end_block (index rest (codes "*/")) l

  unfoldable pub end_line : Option ℕ → Lexer → Run Next
  end_line none l = go text (ignore (record l { pos = length input }))
  end_line (some i) l = go text (ignore (record l { pos = l.pos + i }))

  unfoldable pub lex_line_comment : Lexer → Run Next
  lex_line_comment l = do rest ← slice_from input l.pos; end_line (index rest (10 ∷ [])) l

  -- The test of the loop of lexIdentifier.
  unfoldable pub in_identifier : Rune → Bool
  in_identifier none = false
  in_identifier (some c) = c == b'_' || c == b'$' || x.is_letter c || x.is_digit c

  unfoldable pub identifier_loop : ℕ → Lexer → Run Lexer
  identifier_loop zero l = stuck
  identifier_loop (suc f) l =
      let rest = identifier_loop f (next x input l).1 in
      if in_identifier (next x input l).0 then rest else ok (next x input l).1

  unfoldable pub lex_identifier : Lexer → Run Next
  lex_identifier l = do
    l2 ← identifier_loop (suc (length input)) l
    -- where the word is no keyword, true
    word ← slice input l2.start (backup l2).pos
    go text (ignore (with_div (lookup_or word true keyword_div_ok) (backup l2)))

  unfoldable pub string_loop : ℕ → Rune → Lexer → Run Lexer
  string_loop zero quote l = stuck
  string_loop (suc f) quote l =
      let r = next x input l in
      let rest =
        string_loop f quote (if same_rune r.0 (some b'\\') then (next x input r.1).1 else r.1) in
      if same_rune r.0 quote || same_rune r.0 none then ok r.1 else rest

  unfoldable pub lex_string : Lexer → Run Next
  lex_string l = do
    l2 ← string_loop (suc (length input)) (next x input l).0 (next x input l).1
    l3 ← emit_string x input l2
    go text (with_div true l3)

  unfoldable pub lex_regex : Lexer → Run Next
  lex_regex l = do
    rest ← slice_from input l.pos
    go text (with_div true (ignore (record l { pos = l.pos + length (x.find_regex rest) })))

  unfoldable pub step : State → Lexer → Run Next
  step text l = lex_text l
  step number l = lex_number x input l
  step after_slash l = lex_after_slash l
  step block_comment l = lex_block_comment l
  step line_comment l = lex_line_comment l
  step identifier l = lex_identifier l
  step string l = lex_string l
  step regex l = lex_regex l

  -- run, up to the closing of the channel.
  unfoldable pub run_loop : ℕ → Option State → Lexer → Run Lexer
  run_loop f none l = ok l
  run_loop zero (some s) l = stuck
  run_loop (suc f) (some s) l = do n ← step s l; run_loop f n.0 n.1

-- What arrives on the channel of lex.
unfoldable pub lex : GoText → Bytes → Run (List Bytes)
lex x input = do
  l ←
      run_loop x input (4 * length input + 2) (some text)
        (record { start = 0; pos = 0; width = 0; items = []; div_ok = false })
  ok l.items
