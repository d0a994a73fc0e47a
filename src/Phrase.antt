-- ===== src/Phrase.antt =====
-- phrase.go: content phrases, found by the Aho-Corasick algorithm. A string is its bytes, a node's
-- index is a natural number (the source's int32 counts nodes that are all in memory), and index 0
-- is the root and means "no child" as in the source. The callback's calls are the list of the
-- phrases that it was called with, in order.
--   PhraseNode, child, set_child     the node and its two representations of the children
--   add_phrase, add_phrases          building the trie
--   find_fallback_nodes              the traversal that sets the fallback pointers
--   scan_byte, scan                  the scanner; its two loops are on fuel, and `none` is a run that
--                                    the fuel cut short
-- The proofs are in the modules below.
mod Node
mod Trie
mod Grow
mod Build
mod Suffix
mod Fallback
mod Traverse
pub mod Scan
pub mod Parts
mod Tests
use redwood_filter.Common.{
  ℕ, zero, suc, ◌+◌, Bool, true, false, not, ◌&&◌, Option, none, some, List, [], ◌∷◌, ◌++◌, foldl,
  ltb, if◌then◌else◌, ◌==◌, nat_eq, length, get_or, set, contains, Bytes, bytes_eq, ◌>>=◌,
}

pub record PhraseNode : Type 0 where
  pub match : Bytes
  pub children : List ℕ
  pub only_child : ℕ
  pub only_child_byte : ℕ
  pub fallback : ℕ

abbrev pub blank_node : PhraseNode
blank_node = record { match = []; children = []; only_child = 0; only_child_byte = 0; fallback = 0 }

unfoldable pub child : PhraseNode → ℕ → ℕ
child n b =
    if ltb b (length n.children)
    then get_or n.children b 0
    else if b == n.only_child_byte
    then n.only_child
    else 0

-- make([]int32, size), and copy into it
pub resize : ℕ → List ℕ → List ℕ
resize zero xs = []
resize (suc n) [] = 0 ∷ resize n []
resize (suc n) (x ∷ xs) = x ∷ resize n xs

abbrev pub is_nil {ℓ} : {A : Type ℓ} → List A → Bool
is_nil [] = true
is_nil (x ∷ xs) = false

pub set_child : PhraseNode → ℕ → ℕ → PhraseNode
set_child n b next =
    if ltb b (length n.children)
    then record n { children = set n.children b next }
    else if not (is_nil n.children)
    then record n { children = set (resize 256 n.children) b next }
    else if n.only_child == 0
    then record n { only_child = next; only_child_byte = b }
    else let size : ℕ = if ltb b 128 && ltb n.only_child_byte 128 then 128 else 256 in
      record n { children = set (set (resize size []) n.only_child_byte n.only_child) b next }

abbrev pub PhraseList : Type 0
PhraseList = List PhraseNode

abbrev pub new_phrase_list : PhraseList
new_phrase_list = blank_node ∷ []

abbrev pub node : PhraseList → ℕ → PhraseNode
node p i = get_or p i blank_node

-- one round of the loop of `addPhrase`: the list and the node to go on from
pub extend : PhraseList → ℕ → ℕ → PhraseList × ℕ
extend p n c =
    let next = child (node p n) c in
    if next == 0
    then (set p n (set_child (node p n) c (length p)) ++ blank_node ∷ [], length p)
    else (p, next)

pub add_from : PhraseList → ℕ → Bytes → PhraseList × ℕ
add_from p n [] = (p, n)
add_from p n (c ∷ s) = let (p', next) = extend p n c in add_from p' next s

pub add_phrase : PhraseList → Bytes → PhraseList
add_phrase p s = let (p', n) = add_from p 0 s in set p' n (record (node p' n) { match = s })

unfoldable pub add_phrases : PhraseList → List Bytes → PhraseList
add_phrases = foldl add_phrase

-- the inner loop of `findFallbackNodes`, which leaves at the root
pub follow : PhraseList → ℕ → Bytes → ℕ
follow p f [] = f
follow p f (c ∷ text) = let f' = child (node p f) c in if f' == 0 then 0 else follow p f' text

-- its outer loop: the node of the first suffix that leads to one, or the root
pub first_suffix : PhraseList → Bytes → ℕ
first_suffix p [] = 0
first_suffix p (c ∷ text) =
    let f = follow p 0 (c ∷ text) in if f == 0 then first_suffix p text else f

abbrev pub tail_of : Bytes → Bytes
tail_of [] = []
tail_of (c ∷ s) = s

pub set_fallback : PhraseList → ℕ → ℕ → PhraseList
set_fallback p n f = if f == 0 then p else set p n (record (node p n) { fallback = f })

-- `for c, n := range v.children`, with the byte of the first entry of the list
pub each_child :
    (ℕ → Bytes → PhraseList → PhraseList) → Bytes → ℕ → List ℕ → PhraseList → PhraseList
each_child visit text c [] p = p
each_child visit text c (n ∷ ns) p =
    each_child visit text (c + 1) ns (if n == 0 then p else visit n (text ++ c ∷ []) p)

pub traverse : (ℕ → Bytes → PhraseList → PhraseList) → PhraseNode → Bytes → PhraseList → PhraseList
traverse visit v text p =
    if not (is_nil v.children)
    then each_child visit text 0 v.children p
    else if not (v.only_child == 0)
    then visit v.only_child (text ++ v.only_child_byte ∷ []) p
    else p

-- the recursion, on fuel that bounds its depth
pub visit_node : ℕ → ℕ → Bytes → PhraseList → PhraseList
visit_node zero n text p = p
visit_node (suc k) n text p =
    traverse (visit_node k) (node p n) text (set_fallback p n (first_suffix p (tail_of text)))

-- findFallbackNodes(0, nil)
pub find_fallback_nodes : PhraseList → PhraseList
find_fallback_nodes p = visit_node (length p) 0 [] p

-- the first loop of `scanByte`
pub transition : ℕ → PhraseList → ℕ → ℕ → Option ℕ
transition zero p current c = none
transition (suc k) p current c =
    let new_state = child (node p current) c in
    let rest = transition k p (node p current).fallback c in
    if not (current == 0) && new_state == 0 then rest else some new_state

pub cons_match : Bytes → Option (List Bytes) → Option (List Bytes)
cons_match m none = none
cons_match [] (some ms) = some ms
cons_match (c ∷ m) (some ms) = some ((c ∷ m) ∷ ms)

-- its second loop: the phrases for which the callback is called
pub report : ℕ → PhraseList → ℕ → Option (List Bytes)
report zero p n = none
report (suc k) p n =
    let rest = cons_match (node p n).match (report k p (node p n).fallback) in
    if n == 0 then some [] else rest

-- The scanner's state is its current node.
pub scan_byte : PhraseList → ℕ → ℕ → Option (ℕ × List Bytes)
scan_byte p current c = do
  new_state ← transition (length p) p current c
  ms ← report (length p) p new_state
  some (new_state, ms)

-- Bytes scanned one after another: the last state, and all callback calls in order.
pub scan_from : PhraseList → ℕ → Bytes → Option (ℕ × List Bytes)
scan_from p current [] = some (current, [])
scan_from p current (c ∷ text) = do
  (n, ms) ← scan_byte p current c
  (n', ms') ← scan_from p n text
  some (n', ms ++ ms')

pub matches_of : Option (ℕ × List Bytes) → Option (List Bytes)
matches_of none = none
matches_of (some (n, ms)) = some ms

-- A list of phrases, the fallback pointers, a scan from the root: the callback's calls.
unfoldable pub phrase_matches : List Bytes → Bytes → Option (List Bytes)
phrase_matches phrases text =
    matches_of (scan_from (find_fallback_nodes (add_phrases new_phrase_list phrases)) 0 text)

-- What the calls must be, with no trie: the phrases that are suffixes of a text, longest first ...
pub matching_suffixes : List Bytes → Bytes → List Bytes
matching_suffixes phrases [] = []
matching_suffixes phrases (c ∷ t) =
    let rest = matching_suffixes phrases t in
    if contains phrases (c ∷ t) then (c ∷ t) ∷ rest else rest

-- ... and so for each prefix that ends in `text`, in order.
pub occurrences : List Bytes → Bytes → Bytes → List Bytes
occurrences phrases before [] = []
occurrences phrases before (c ∷ text) =
    matching_suffixes phrases (before ++ c ∷ []) ++ occurrences phrases (before ++ c ∷ []) text
