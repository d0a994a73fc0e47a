-- ===== src/Content/Counts.antt =====
-- The tally has for each phrase the number of its occurrences in what is scanned.
use redwood_filter.Common.{
  ℕ, ◌+◌, ◌≡◌, inl, inr, refl, ap, ◌∙◌, some, List, [], ◌∷◌, ◌++◌, map, foldl, append-nil,
  append_assoc, if◌then◌else◌, ◌==◌, nat_eq, ==→eq, Bool-cases, All, Bytes, IsBytes, codes,
  bytes_eq,
}
use redwood_filter.Common.GoMap.{lookup_or-insert}
use redwood_filter.Common.{foldl-append}
use redwood_filter.Common.Int.{ℤ, pos, ◌+ℤ◌, int_laws}
use native.Mathlib.Nat.{zero-add}
use redwood_filter.Common.Text.{has_part}
use redwood_filter.Rule.{Rule, rule_eq}
use redwood_filter.Scoring.{Tally, count_of}
use redwood_filter.Phrase.{
  PhraseList, occurrences, find_fallback_nodes, add_phrases, new_phrase_list, first_suffix,
}
use redwood_filter.Phrase.Parts.{occurrences-append, occurrences-nil, first_suffix-nil}
use redwood_filter.Phrase.Scan.{IsAutomaton, built-IsAutomaton, scan_from-occurrences}
use redwood_filter.Word.{Unicode}
use redwood_filter.JsLexer.State.{Run, ok, ◌>>=◌, GoText, Returns, Returns-value}
use redwood_filter.JsLexer.Bounds.{IsGoText}
use redwood_filter.JsLexer.Steps.{lex}
use redwood_filter.JsLexer.Ends.{lex-fits}
use redwood_filter.Content.{
  phrase_rule, count_phrase, scan_pieces, scan_new, Transformer, spaced_words, scan_js_content,
  read_pieces, scan_content,
}

abbrev pub joined : List Bytes → Bytes
joined [] = []
joined (s ∷ ss) = s ++ joined ss

-- How often a rule stands for a phrase of a list.
abbrev pub times : Rule → List Bytes → ℕ
times r [] = 0
times r (m ∷ ms) = (if phrase_rule m == r then 1 else 0) + times r ms

one_more : (a : ℤ) (n : ℕ) → a +ℤ pos 1 +ℤ pos n ≡ a +ℤ pos (1 + n)
one_more a n = grind int_laws

count_phrase-times :
    (ms : List Bytes) (tally : Tally) (r : Rule)
    → count_of (foldl count_phrase tally ms) r ≡ count_of tally r +ℤ pos (times r ms)
unfolding count_phrase
count_phrase-times [] tally r = grind int_laws
count_phrase-times (m ∷ ms) tally r =
    let counted =
      lookup_or-insert (phrase_rule m) r (count_of tally (phrase_rule m) +ℤ pos 1) (pos 0) tally in
    count_phrase-times ms (count_phrase tally m) r ∙ elim (Bool-cases (phrase_rule m == r)) [
      | inl e ↦
          let same : count_of (count_phrase tally m) r ≡ count_of tally r +ℤ pos 1 =
            counted
            ∙ rw e (ap (λ (k : Rule). count_of tally k +ℤ pos 1) (==→eq (phrase_rule m) r e)) in
          rw (same, e) (one_more (count_of tally r) (times r ms))
      | inr e ↦
          let same : count_of (count_phrase tally m) r ≡ count_of tally r = counted ∙ rw e refl in
          rw (same, e) (rw zero-add refl)
    ]

module _ (phrases : List Bytes) (q : PhraseList) (label : ℕ → Bytes)
    (a : IsAutomaton phrases q label) where
  scan_pieces-occurrences :
      (ss : List Bytes) (before : Bytes) (tally : Tally)
      → scan_pieces q (first_suffix q before) tally ss
        ≡ some (
          first_suffix q (before ++ joined ss),
          foldl count_phrase tally (occurrences phrases before (joined ss)),
        )
  unfolding scan_pieces
  scan_pieces-occurrences [] before tally = rw (append-nil, occurrences-nil phrases before) refl
  scan_pieces-occurrences (s ∷ ss) before tally =
      rw (scan_from-occurrences phrases q label a before s, scan_pieces)
        (rw
          (scan_pieces-occurrences ss (before ++ s)
            (foldl count_phrase tally (occurrences phrases before s)))
          (rw
            (
              occurrences-append phrases before s (joined ss),
              foldl-append count_phrase tally (occurrences phrases before s)
                  (occurrences phrases (before ++ s) (joined ss)),
            )
            (rw append_assoc refl)))

-- A tally with so many more of each phrase's rule as the phrase occurs in a text.
abbrev pub IsCounted : List Bytes → Bytes → Tally → Tally → Type 0
IsCounted phrases text tally t =
    (r : Rule) → count_of t r ≡ count_of tally r +ℤ pos (times r (occurrences phrases [] text))

scan_new-IsCounted :
    (phrases : List Bytes) (ss : List Bytes) (tally : Tally)
    → All IsBytes phrases
    → Returns
        (scan_new (find_fallback_nodes (add_phrases new_phrase_list phrases)) tally ss)
        (IsCounted phrases (joined ss) tally)
unfolding scan_new
scan_new-IsCounted phrases ss tally bytes =
    let (label, a) = built-IsAutomaton phrases bytes in
    let q = find_fallback_nodes (add_phrases new_phrase_list phrases) in
    let run = rw (first_suffix-nil q) at (scan_pieces-occurrences phrases q label a ss [] tally) in
    rw (run, scan_new) (λ r. count_phrase-times (occurrences phrases [] (joined ss)) tally r)

module _ (u : Unicode) (x : GoText) (read : List Transformer → Bytes → List Bytes) where
  -- What of a document is scanned: of JavaScript the words of each string that the lexer emits,
  -- between spaces, of other content what the reader returns, between spaces.
  unfoldable pub scanned_text : Bytes → Bytes → Bytes → Run Bytes
  scanned_text content content_type cs =
      if has_part content_type (codes "javascript")
      then (do items ← lex x content; ok (joined (map (spaced_words u) items)))
      else ok (joined (read_pieces u x read content content_type cs))

  js-IsCounted :
      (phrases : List Bytes) (content : Bytes) (tally : Tally)
      → IsGoText x
      → All IsBytes phrases
      → (items : List Bytes) × (lex x content ≡ ok items)
        × Returns
            (scan_js_content u x read
              (find_fallback_nodes (add_phrases new_phrase_list phrases))
              content
              tally)
            (IsCounted phrases (joined (map (spaced_words u) items)) tally)
  unfolding scan_js_content
  js-IsCounted phrases content tally g bytes =
      let (items, e) = Returns-value _ _ (lex-fits x content g) in
      (items, e, rw e (scan_new-IsCounted phrases (map (spaced_words u) items) tally bytes))

-- For every list of phrases of bytes, every document and every tally, with packages that do as they
-- are documented, scanContent ends, the JavaScript lexer within its fuel and without a panic, and
-- adds to the count of each rule how often its phrase occurs in what is scanned of the document,
-- and to no other.
pub scan_content-IsCounted :
    (u : Unicode) (x : GoText) (read : List Transformer → Bytes → List Bytes) (phrases : List Bytes)
    (content content_type cs : Bytes) (tally : Tally)
    → IsGoText x
    → All IsBytes phrases
    → (text : Bytes) × (scanned_text u x read content content_type cs ≡ ok text)
      × Returns
          (scan_content u x read
            (find_fallback_nodes (add_phrases new_phrase_list phrases))
            content
            content_type
            cs
            tally)
          (IsCounted phrases text tally)
unfolding scan_content scanned_text
scan_content-IsCounted u x read phrases content content_type cs tally g bytes =
    elim (Bool-cases (has_part content_type (codes "javascript"))) [
      | inl e ↦
          let (items, h, k) = js-IsCounted u x read phrases content tally g bytes in
          rw (e, h) (joined (map (spaced_words u) items), refl, k)
      | inr e ↦ rw e (
        _,
        refl,
        scan_new-IsCounted phrases (read_pieces u x read content content_type cs) tally bytes,
      )
    ]
