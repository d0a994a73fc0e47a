-- ===== src/Tally/Tests.antt =====
-- Runs of parseTally, and the witnesses of its properties.
use redwood_filter.Common.{
  ℕ, ◌+◌, ◌-◌, ◌*◌, ◌≡◌, refl, Option, some, List, [], ◌∷◌, nat_eq, Bytes, codes, bytes_eq,
}
use redwood_filter.Common.Int.{ℤ, pos}
use redwood_filter.Combinators.{ok}
use redwood_filter.Rule.{rule_eq}
use redwood_filter.Rule.Ends.{Settles}
use redwood_filter.Rule.Tests.{
  ascii, fragment, fragment-IsReadable, shop_not_ads, shop_not_ads-IsReadable,
}
use redwood_filter.Tally.{parse_tally}
use redwood_filter.Tally.Ends.{parse_tally-Settles}
use redwood_filter.Tally.Numbers.{positive}
use redwood_filter.Tally.RoundTrip.{Entry, text_of, parse_tally-text_of}

abbrev value : ℕ → Bytes → ℕ
value n [] = n
value n (c ∷ s) = value (n * 10 + (c - b'0')) s

abbrev natural : Bytes → Option ℤ
natural s = some (pos (value 0 s))

abbrev two_lines : List Entry
two_lines =
    record { rule = shop_not_ads; text = codes "3"; count = pos 3 }
    ∷ record { rule = fragment; text = codes "12"; count = pos 12 }
    ∷ []

abbrev first_line : Entry
first_line = record { rule = fragment; text = codes "40"; count = pos 40 }

parse_tally-text_of_example :
    parse_tally ascii natural (text_of first_line two_lines)
    ≡ ok ((fragment, pos 12) ∷ (shop_not_ads, pos 3) ∷ []) []
parse_tally-text_of_example = parse_tally-text_of ascii natural first_line two_lines (
  (fragment-IsReadable, (positive b'4' (codes "0") refl, refl)),
  (
    (shop_not_ads-IsReadable, (positive b'3' [] refl, refl)),
    ((fragment-IsReadable, (positive b'1' (codes "2") refl, refl)), tt),
  ),
)

parse_tally-Settles_example : Settles 15 (parse_tally ascii natural (codes "example.com 1,<"))
parse_tally-Settles_example = parse_tally-Settles ascii natural (codes "example.com 1,<")
