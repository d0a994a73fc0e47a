-- ===== src/Rule/Tests.antt =====
-- Runs of the parsers, and the witnesses of their properties. Letters are the small ASCII letters.
use redwood_filter.Common.{
  ℕ, ◌+◌, ◌≡◌, refl, ◌&&◌, [], ◌∷◌, ◌++◌, arith, leb, nat_eq, length, Bytes, codes, bytes_eq,
}
use redwood_filter.Combinators.{failed}
use redwood_filter.Rule.{
  Rule, simple, compound, rule_string, simple_string, url_match, content_phrase, host_regex,
}
use redwood_filter.Word.{Unicode, word_string}
use redwood_filter.Rule.Parse.{of_content, parse_compound_rule}
use redwood_filter.Rule.Simple.{Reads}
use redwood_filter.Rule.Ends.{Settles, parse_compound_rule-Settles}
use redwood_filter.Rule.RoundTrip.{IsReadable, parse_compound_rule-rule_string}
use redwood_filter.Rule.Nested.{parenthesis_in_fragment}

abbrev first : Bytes → ℕ
first [] = 65533
first (c ∷ s) = c

abbrev pub ascii : Unicode
ascii = record {
  runes = λ s. s;
  encode = λ s. s;
  first_rune = first;
  is_letter = λ c. leb b'a' c && leb c b'z';
  is_digit = λ c. leb b'0' c && leb c b'9';
  rune_to_lower = λ c. c;
  to_lower = λ s. s;
}

abbrev pub fragment : Rule
fragment = simple (of_content url_match (codes "example.com"))

abbrev pub shop_not_ads : Rule
shop_not_ads = compound fragment (codes "&") (
    compound (simple (of_content content_phrase (codes " shop "))) (codes "&!")
      (simple (of_content host_regex (codes "^ads"))))

pub fragment-IsReadable : IsReadable ascii fragment
fragment-IsReadable = (
  record { no_space = refl; lower = refl; letter = λ tail. refl; start = refl; no_list = refl },
  (refl, (refl, refl)),
)

pub shop_not_ads-IsReadable : IsReadable ascii shop_not_ads
unfolding redwood_filter.Word.word_string redwood_filter.Word.word_rune
    redwood_filter.Word.word_runes
shop_not_ads-IsReadable =
    (refl, (fragment-IsReadable, ((refl, ((refl, refl), (refl, (refl, refl)))), (refl, refl))))

parse_compound_rule-rule_string_example :
    Reads
      (parse_compound_rule ascii
        (length (rule_string shop_not_ads ++ codes " 10") + 1)
        (rule_string shop_not_ads ++ codes " 10"))
      shop_not_ads
      (codes " 10")
parse_compound_rule-rule_string_example =
    parse_compound_rule-rule_string ascii shop_not_ads (codes " 10") shop_not_ads-IsReadable refl
      refl refl

parse_compound_rule-Settles_example :
    Settles 19 (parse_compound_rule ascii 20 (codes "example.com & (<a> "))
parse_compound_rule-Settles_example =
    parse_compound_rule-Settles ascii 20 (codes "example.com & (<a> ") (omega arith)

a_word : word_string ascii (codes "a") ≡ codes "a"
unfolding redwood_filter.Word.word_string redwood_filter.Word.word_rune
    redwood_filter.Word.word_runes
a_word = refl

parenthesis_in_fragment_example :
    parse_compound_rule ascii 17 (codes "(<a> & shop.com)") ≡ failed (codes "(<a> & shop.com)")
unfolding simple_string rule_string
parenthesis_in_fragment_example =
    parenthesis_in_fragment ascii (simple (of_content content_phrase (codes "a"))) (codes "&")
      (codes "shop.com") (refl, a_word) refl refl
      (
        record {
          no_space = refl;
          lower = refl;
          letter = λ tail. refl;
          start = refl;
          no_list = refl;
        },
        (refl, (refl, refl)),
      )
      (λ s. refl)
