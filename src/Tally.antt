-- ===== src/Tally.antt =====
-- classify.go, parseTally: rules and their counts, separated by commas. The loop is on fuel.
mod Numbers
mod Ends
mod RoundTrip
mod Tests
use redwood_filter.Common.{ℕ, zero, suc, ◌+◌, [], Bytes, Option, codes, length}
use redwood_filter.Common.GoMap.{insert}
use redwood_filter.Common.Int.{ℤ}
use redwood_filter.Combinators.{ok, failed, cut_short, Parser, tag, then_else, integer}
use redwood_filter.Rule.{rule_eq}
use redwood_filter.Rule.Parse.{parse_compound_rule}
use redwood_filter.Scoring.{Tally}
use redwood_filter.Word.{Unicode}

module _ (x : Unicode) (atoi : Bytes → Option ℤ) where
  pub tally_loop : ℕ → Tally → Parser Tally
  tally_loop zero tally rest = cut_short
  tally_loop (suc fuel) tally rest =
      then_else (parse_compound_rule x (length rest + 1) rest)
        (λ r rest.
          then_else (integer atoi rest)
            (λ n rest.
              let tally = insert r n tally in
              then_else (tag (codes ",") rest) (λ _ rest. tally_loop fuel tally rest) (ok tally))
            failed)
        failed

  unfoldable pub parse_tally : Parser Tally
  parse_tally input = tally_loop (length input + 1) [] input
