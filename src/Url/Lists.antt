-- ===== src/Url/Lists.antt =====
-- AddRule neither reads nor changes the URL lists.
use redwood_filter.Common.{◌≡◌, refl, ap, ◌∙◌, List, [], ◌∷◌, foldl, Bytes}
use redwood_filter.Common.GoMap.{GoMap}
use redwood_filter.Cuckoo.{CuckooFilter}
use redwood_filter.Rule.{
  SimpleRule, RuleType, default_rule, url_match, ip_addr, url_regex, host_regex, domain_regex,
  path_regex, query_regex, content_phrase, image_hash, url_list,
}
use redwood_filter.Url.{Externals, UrlMatcher, add_typed, add_rule}

abbrev pub with_lists : GoMap Bytes CuckooFilter → UrlMatcher → UrlMatcher
with_lists lists m = record m { url_lists = lists }

add_typed-with_lists :
    (x : Externals) (lists : GoMap Bytes CuckooFilter) (m : UrlMatcher) (r : SimpleRule)
    (t : RuleType)
    → add_typed x (with_lists lists m) r t ≡ with_lists lists (add_typed x m r t)
unfolding add_typed
add_typed-with_lists x lists m r default_rule = refl
add_typed-with_lists x lists m r url_match = refl
add_typed-with_lists x lists m r ip_addr = refl
add_typed-with_lists x lists m r url_regex = refl
add_typed-with_lists x lists m r host_regex = refl
add_typed-with_lists x lists m r domain_regex = refl
add_typed-with_lists x lists m r path_regex = refl
add_typed-with_lists x lists m r query_regex = refl
add_typed-with_lists x lists m r content_phrase = refl
add_typed-with_lists x lists m r image_hash = refl
add_typed-with_lists x lists m r url_list = refl

pub add_rule-with_lists :
    (x : Externals) (lists : GoMap Bytes CuckooFilter) (m : UrlMatcher) (r : SimpleRule)
    → add_rule x (with_lists lists m) r ≡ with_lists lists (add_rule x m r)
unfolding add_rule
add_rule-with_lists x lists m r = add_typed-with_lists x lists m r r.t

pub foldl-with_lists :
    (x : Externals) (lists : GoMap Bytes CuckooFilter) (m : UrlMatcher) (rs : List SimpleRule)
    → foldl (add_rule x) (with_lists lists m) rs ≡ with_lists lists (foldl (add_rule x) m rs)
foldl-with_lists x lists m [] = refl
foldl-with_lists x lists m (r ∷ rs) =
    ap (λ (n : UrlMatcher). foldl (add_rule x) n rs) (add_rule-with_lists x lists m r)
    ∙ foldl-with_lists x lists (add_rule x m r) rs
