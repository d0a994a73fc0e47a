-- ===== src/Content/Tests.antt =====
-- The witness of the scan of a document: a JavaScript file.
use redwood_filter.Common.{◌≡◌, List, [], ◌∷◌, Bytes, codes, arith}
use redwood_filter.Phrase.{find_fallback_nodes, add_phrases, new_phrase_list}
use redwood_filter.Rule.Tests.{ascii}
use redwood_filter.JsLexer.State.{Returns, ok}
use redwood_filter.JsLexer.Tests.{ascii_text, ascii_text-IsGoText}
use redwood_filter.Content.{Transformer, scan_content}
use redwood_filter.Content.Counts.{scanned_text, IsCounted, scan_content-IsCounted}

-- A reader that returns the content in one piece.
abbrev at_once : List Transformer → Bytes → List Bytes
at_once ts s = s ∷ []

abbrev phrases : List Bytes
phrases = codes " shop " ∷ []

scan_content-IsCounted_example :
    (text : Bytes) × (scanned_text ascii ascii_text at_once
        (codes "go('shop'); // shop")
        (codes "text/javascript")
        (codes "utf-8")
      ≡ ok text)
    × Returns
        (scan_content ascii ascii_text at_once
          (find_fallback_nodes (add_phrases new_phrase_list phrases))
          (codes "go('shop'); // shop")
          (codes "text/javascript")
          (codes "utf-8")
          [])
        (IsCounted phrases text [])
scan_content-IsCounted_example =
    scan_content-IsCounted ascii ascii_text at_once phrases (codes "go('shop'); // shop")
      (codes "text/javascript") (codes "utf-8") [] ascii_text-IsGoText (omega arith)
