-- ===== src/Phrase/Tests.antt =====
-- The scanner on a small example, and the witnesses of the properties of the phrase list.
use redwood_filter.Common.{
  ◌≡◌, inl, refl, some, List, [], ◌∷◌, arith, nat_eq, Bytes, codes, bytes_eq,
}
use redwood_filter.Phrase.Node.{IsNode, child-set_child}
use redwood_filter.Phrase.Scan.{phrase_matches-occurrences}
use redwood_filter.Phrase.{
  occurrences, PhraseNode, blank_node, phrase_matches, matches_of, scan_from, scan_byte, transition,
  report, cons_match, find_fallback_nodes, visit_node, traverse, each_child, set_fallback,
  first_suffix, follow, add_phrases, add_phrase, add_from, extend, set_child, resize, child,
}

phrase_matches_runs :
    phrase_matches (codes "he" ∷ codes "she" ∷ codes "hers" ∷ []) (codes "ushers")
    ≡ some (codes "she" ∷ codes "he" ∷ codes "hers" ∷ [])
unfolding phrase_matches matches_of scan_from scan_byte transition report cons_match
    find_fallback_nodes visit_node traverse each_child set_fallback first_suffix follow add_phrases
    add_phrase add_from extend set_child resize child
phrase_matches_runs = refl

abbrev pronouns : List Bytes
pronouns = codes "he" ∷ codes "she" ∷ codes "hers" ∷ []

phrase_matches-occurrences_example :
    phrase_matches pronouns (codes "ushers") ≡ some (occurrences pronouns [] (codes "ushers"))
phrase_matches-occurrences_example =
    phrase_matches-occurrences pronouns (codes "ushers") (omega arith)

-- A node with one child gets a second one, and keeps the first.
abbrev one_child : PhraseNode
one_child = record blank_node { only_child = 3; only_child_byte = 200 }

one_child-IsNode : IsNode one_child
one_child-IsNode = record {
  sizes = inl refl;
  covers = λ h. absurd (omega (arith, h));
  byte = omega arith;
}

child-set_child_example : child (set_child one_child 101 7) 200 ≡ 3
unfolding child
child-set_child_example = child-set_child one_child one_child-IsNode 101 7 (omega arith) 200
