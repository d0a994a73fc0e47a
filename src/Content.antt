-- ===== src/Content.antt =====
-- phrase_scan.go: scanning a document for phrases. The callback of the scanner changes nothing but
-- the tally, so it is called for the matches of a text when the text is scanned. Parameters are the
-- reader of the transformed content, as the pieces that it returns, and what Word and JsLexer use.
-- The name cs is one that charset.Lookup knows, as its caller's charset.DetermineEncoding gives it.
pub mod Counts
mod Tests
use redwood_filter.Common.{
  ℕ, ◌+◌, Bool, true, false, Option, none, some, List, [], ◌∷◌, ◌++◌, map, foldl, if◌then◌else◌,
  ◌==◌, Bytes, bytes_eq, codes,
}
use redwood_filter.Common.Text.{has_part}
use redwood_filter.Common.GoMap.{insert}
use redwood_filter.Common.Int.{pos, ◌+ℤ◌}
use redwood_filter.Rule.{Rule, simple, content_phrase, rule_eq}
use redwood_filter.Rule.Parse.{of_content}
use redwood_filter.Scoring.{Tally, count_of}
use redwood_filter.Phrase.{PhraseList, scan_from}
use redwood_filter.Word.{Unicode, word_string}
use redwood_filter.JsLexer.State.{Run, ok, stuck, ◌>>=◌, GoText}
use redwood_filter.JsLexer.Steps.{lex}

abbrev pub phrase_rule : Bytes → Rule
phrase_rule s = simple (of_content content_phrase s)

-- The callback: tally[simpleRule{t: contentPhrase, content: s}]++
unfoldable pub count_phrase : Tally → Bytes → Tally
count_phrase tally s = insert (phrase_rule s) (count_of tally (phrase_rule s) +ℤ pos 1) tally

abbrev pub count_calls : Tally → Option (ℕ × List Bytes) → Option (ℕ × Tally)
count_calls tally none = none
count_calls tally (some (n, ms)) = some (n, foldl count_phrase tally ms)

-- Texts scanned one after another, from a state of the scanner.
unfoldable pub scan_pieces : PhraseList → ℕ → Tally → List Bytes → Option (ℕ × Tally)
scan_pieces list n tally [] = some (n, tally)
scan_pieces list n tally (s ∷ ss) = elim (count_calls tally (scan_from list n s)) [
  | none ↦ none
  | some (m, t) ↦ scan_pieces list m t ss
]

-- The tally behind a new scanner.
unfoldable pub scan_new : PhraseList → Tally → List Bytes → Run Tally
scan_new list tally ss = elim (scan_pieces list 0 tally ss) [ none ↦ stuck | some (n, t) ↦ ok t ]

-- charset's decoder, entityDecoder and wordTransformer
pub data Transformer : Type 0 where
  decoder : Bytes → Transformer
  entities words : Transformer

abbrev pub transformers : Bytes → Bytes → List Transformer
transformers content_type cs =
    (if cs == codes "utf-8" then [] else decoder cs ∷ [])
    ++ (if has_part content_type (codes "html") then entities ∷ [] else [])
    ++ words ∷ []

-- What is scanned of an item of the lexer.
abbrev pub spaced_words : Unicode → Bytes → Bytes
spaced_words u s = b' ' ∷ word_string u s ++ b' ' ∷ []

module _ (u : Unicode) (x : GoText) (read : List Transformer → Bytes → List Bytes) where
  unfoldable pub scan_js_content : PhraseList → Bytes → Tally → Run Tally
  scan_js_content list content tally = do
    items ← lex x content
    scan_new list tally (map (spaced_words u) items)

  -- What is scanned of content that is no JavaScript: what the reader returns, between spaces.
  abbrev pub read_pieces : Bytes → Bytes → Bytes → List Bytes
  read_pieces content content_type cs =
      (b' ' ∷ []) ∷ (read (transformers content_type cs) content ++ (b' ' ∷ []) ∷ [])

  unfoldable pub scan_content : PhraseList → Bytes → Bytes → Bytes → Tally → Run Tally
  scan_content list content content_type cs tally =
      if has_part content_type (codes "javascript")
      then scan_js_content list content tally
      else scan_new list tally (read_pieces content content_type cs)
