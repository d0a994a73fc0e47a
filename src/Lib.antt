-- ===== src/Lib.antt =====
-- Redwood, an HTTP proxy that filters by categories: the model of its decision logic.
--
-- A request is given ACLs and category scores; the scores come from rules that match the URL or
-- phrases of the content, and the action rules of the ACL configuration decide on ACLs and scores.
-- HTTP, TLS, files, templates and scripts are around this logic and are not modelled.
--
-- How the parts interact: Rule reads the rules of the categories; Collect hands their parts to the
-- phrase list, the URL matcher and the compound rules. Content takes a document, JavaScript through
-- JsLexer and other content through the transformers, to the scanner of Phrase, which counts in the
-- tally; Url does the same for an address. Scoring turns the tally into scores, and Acl decides on
-- them.
--
--   Bloom       bloom.go: the filter that skips action rules quickly
--   Phrase      phrase.go: phrases in content and literal strings in URLs, by Aho-Corasick
--   Mapsort     mapsort.go: a map's keys by value
--   Cuckoo      cuckoo.go: the set of URLs of a URL list
--   Rule        rule.go, categories.go: the data of rules and categories, and the rule parser
--   Combinators combinators.go: the parsers that the rule parser is made of
--   Word        word.go: text as words, and the streaming transformer
--   JsLexer     jslexer.go: the lexer that takes the quoted strings out of JavaScript
--   Content     phrase_scan.go: the phrases in a document, counted in its tally
--   Tally       classify.go: the parser of a list of rules and counts
--   RegexMap    url.go: regular expressions, indexed by literal strings that a match must contain
--   Url         url.go: the rules that a URL matches
--   IpRange     iprange.go: ranges of addresses, and the map from addresses to ACLs
--   Schedule    time.go: weekly schedules
--   Scoring     categories.go: compound rules, and the scores of the categories
--   Collect     categories.go: the rules of the categories, handed to the parts that match them
--   Acl         acl.go: the choice of an action; Acl.Category: the choice with category scores;
--               Acl.Load: the definitions of ACLs and the loading of their files;
--               Acl.Request, Acl.Response: the ACLs of a request and of a response
--   Common      lists, maps, integers, bits and strings that the parts share
--
-- A function of the source keeps its name in snake case. A Go string is the list of its bytes, a Go
-- map an association list whose order is the order of a range loop, and an `int` a number or an
-- integer without wrap-around, except where the source computes on uint32 or uint64 words. A method
-- that changes its receiver returns the new receiver.
--
-- Fuel: a scan of a byte has as much fuel as the list has nodes, and a node's text is no longer
-- than its index; the traversal of the trie has the same, since a child's index is larger than its
-- parent's. The search for a cuckoo filter's size has the wanted number of buckets, since each round
-- adds at least one. The loops over the parts of a path and of a host have more fuel than the text has
-- bytes. The recursion of the rule parser and the loop over a tally have more fuel than the text has
-- bytes, of which each round takes at least one. The inclusion of ACL files has as much fuel as the
-- files are deep. The JavaScript lexer has four rounds for each byte, and its loops one for each.
-- The loop of the streaming transformer has more fuel than the source has bytes. The theorems say
-- that the results are there, so the fuel is enough.
--
-- An index out of range is a value: `none` for addresses, `panics` in JsLexer, whose results are of
-- the type Run. The channel of the lexer is the list of what is sent on it, and a round of the loop
-- in lexText is a step of its own.
--
-- Not modelled: proxy.go, tls.go, transport.go, response.go, log.go, auth.go, pac.go, config.go but
-- for a few fields, and the rest of classify.go are handlers, connections and files; script.go and
-- starlark.go bind interpreters; restring.go is a modified copy of a file of codesearch, so
-- regexStrings is a parameter; prune.go, blockpage.go and censor.go walk trees of x/net/html. Of
-- categories.go the loading of files is left out. Functions of other packages are parameters.
pub mod Common
pub mod Bloom
pub mod Phrase
pub mod Mapsort
pub mod Content
pub mod Cuckoo
pub mod Rule
pub mod Collect
pub mod Combinators
pub mod Word
pub mod Tally
pub mod IpRange
pub mod JsLexer
pub mod Schedule
pub mod Scoring
pub mod RegexMap
pub mod Url
pub mod Acl
