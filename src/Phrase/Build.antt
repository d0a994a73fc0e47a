-- ===== src/Phrase/Build.antt =====
-- `addPhrase` and the list that is built from any phrases: a trie that holds exactly those.
use redwood_filter.Common.{
  ℕ, zero, suc, ◌<◌, ◌≡◌, inl, inr, refl, sym, ap, ◌∙◌, false, ◌||◌, List, [], ◌∷◌, ◌++◌,
  append-nil, append_assoc, arith, if◌then◌else◌, ◌==◌, nat_eq, ==-refl, ==→eq, Bool-cases, length,
  set, All, length-set, get_or-set, contains, contains-append, Bytes, IsBytes, bytes_eq,
}
use redwood_filter.Phrase.{
  PhraseList, blank_node, node, child, extend, add_from, add_phrase, add_phrases, new_phrase_list,
}
use redwood_filter.Phrase.Node.{blank_node-IsNode, child-blank_node}
use redwood_filter.Phrase.Trie.{label-injective, IsTrie, Holds, SameLinks, SameLinks-IsTrie}
use redwood_filter.Phrase.Grow.{
  grown, grown_label, length-grown, grown_label_new, grown-IsTrie, grown-Holds,
}

-- A trie with its labels, and a node of it that `text` leads to.
record Built (phrases : List Bytes) (p : PhraseList) (n : ℕ) (text : Bytes) : Type 0 where
  label : ℕ → Bytes
  trie : IsTrie p label
  holds : Holds phrases p label
  inside : n < length p
  ends : label n ≡ text

extend-Built :
    (phrases : List Bytes) (p : PhraseList) (n c : ℕ) (text : Bytes)
    → c < 256
    → Built phrases p n text
    → Built phrases (extend p n c).0 (extend p n c).1 (text ++ c ∷ [])
unfolding extend grown
extend-Built phrases p n c text byte b = elim (Bool-cases (child (node p n) c == 0)) [
  | inl e ↦
      let fresh : child (node p n) c ≡ 0 = ==→eq _ 0 e in
      let t = b.trie in
      rw e (record {
        label = grown_label p b.label n c;
        trie = grown-IsTrie p b.label t n c b.inside byte fresh;
        holds = grown-Holds p b.label t n c b.inside byte fresh phrases b.holds;
        inside = omega (arith, length-grown p b.label t n c b.inside byte fresh);
        ends = grown_label_new p b.label t n c b.inside byte fresh ∙ ap (λ s. s ++ c ∷ []) b.ends;
      })
  | inr e ↦
      let (low, high, eq) = b.trie.steps n c (ground (arith, e)) in
      rw e (record {
        label = b.label;
        trie = b.trie;
        holds = b.holds;
        inside = high;
        ends = eq ∙ ap (λ s. s ++ c ∷ []) b.ends;
      })
]

add_from-Built :
    (phrases : List Bytes) (p : PhraseList) (n : ℕ) (s text : Bytes)
    → IsBytes s
    → Built phrases p n text
    → Built phrases (add_from p n s).0 (add_from p n s).1 (text ++ s)
unfolding add_from
add_from-Built phrases p n [] text v b = rw append-nil b
add_from-Built phrases p n (c ∷ s) text v b = rw append_assoc at (
    add_from-Built phrases (extend p n c).0 (extend p n c).1 s (text ++ c ∷ []) v.1
      (extend-Built phrases p n c text v.0 b))

module _ (p : PhraseList) (n : ℕ) (s : Bytes) (inside : n < length p) where
  marked : PhraseList
  marked = set p n (record (node p n) { match = s })

  node-marked :
      (i : ℕ) → node marked i ≡ (if n == i then record (node p n) { match = s } else node p i)
  unfolding marked
  node-marked i = get_or-set p n i _ blank_node inside

  marked-SameLinks : SameLinks p marked
  marked-SameLinks = record {
    same_length = unfold marked in length-set p n _;
    same_links = λ i. elim (Bool-cases (n == i)) [
      | inl e ↦ rw (node-marked i, e, ← ==→eq n i e) refl
      | inr e ↦ rw (node-marked i, e) refl
    ];
  }

  marked-Holds :
      (phrases : List Bytes) (label : ℕ → Bytes)
      → IsTrie p label
      → label n ≡ s
      → Holds phrases p label
      → Holds (phrases ++ s ∷ []) marked label
  marked-Holds phrases label t e h = record {
    matches = λ i k. elim (Bool-cases (n == i)) [
      | inl m ↦
          let at_n : label i ≡ s = ap label (sym (==→eq n i m)) ∙ e in
          rw (node-marked i, m, at_n, contains-append, ==-refl s)
            (ground (arith, contains phrases s))
      | inr m ↦
          rw (node-marked i, m, contains-append)
            (other i (omega (arith, k, marked-SameLinks.same_length)) m)
    ];
    present = λ u m. elim (Bool-cases (contains phrases u)) [
      | inl old ↦
          let (i, k, q) = h.present u old in (i, omega (arith, k, marked-SameLinks.same_length), q)
      | inr new ↦ (
        n,
        omega (arith, inside, marked-SameLinks.same_length),
        e ∙ ==→eq s u (ground (arith, m, contains-append phrases (s ∷ []) u)),
      )
    ];
    fresh = λ i. elim (Bool-cases (n == i)) [
      | inl m ↦ rw (node-marked i, m) (h.fresh n)
      | inr m ↦ rw (node-marked i, m) (h.fresh i)
    ];
  }
    where
      other :
          (i : ℕ)
          → i < length p
          → (n == i) ≡ false
          → (node p i).match
            ≡ (if contains phrases (label i) || (s == label i || false) then label i else [])
      other i k m = elim (Bool-cases (s == label i)) [
        | inl q ↦
            absurd
              (ground (arith, label-injective p label t n i inside k (e ∙ ==→eq s (label i) q)))
        | inr q ↦ ground (arith, q, h.matches i k)
      ]

add_phrase-Holds :
    (phrases : List Bytes) (p : PhraseList) (label : ℕ → Bytes) (s : Bytes)
    → IsBytes s
    → IsTrie p label
    → Holds phrases p label
    → (label' : ℕ → Bytes) × IsTrie (add_phrase p s) label'
      × Holds (phrases ++ s ∷ []) (add_phrase p s) label'
unfolding add_phrase marked
add_phrase-Holds phrases p label s v t h =
    let b =
      add_from-Built phrases p 0 s [] v
        (record { label = label; trie = t; holds = h; inside = t.nonempty; ends = t.root }) in
    let q = (add_from p 0 s).0 in
    let n = (add_from p 0 s).1 in
    (
      b.label,
      SameLinks-IsTrie q _ (marked-SameLinks q n s b.inside) b.label b.trie,
      marked-Holds q n s b.inside phrases b.label b.trie b.ends b.holds,
    )

add_phrases-Holds :
    (before phrases : List Bytes) (p : PhraseList) (label : ℕ → Bytes)
    → All IsBytes phrases
    → IsTrie p label
    → Holds before p label
    → (label' : ℕ → Bytes) × IsTrie (add_phrases p phrases) label'
      × Holds (before ++ phrases) (add_phrases p phrases) label'
unfolding add_phrases
add_phrases-Holds before [] p label v t h = (label, t, rw append-nil h)
add_phrases-Holds before (s ∷ phrases) p label v t h =
    let (label', t', h') = add_phrase-Holds before p label s v.0 t h in
    rw append_assoc at
      (add_phrases-Holds (before ++ s ∷ []) phrases (add_phrase p s) label' v.1 t' h')

node-new_phrase_list : (i : ℕ) → node new_phrase_list i ≡ blank_node
node-new_phrase_list zero = refl
node-new_phrase_list (suc i) = refl

new_phrase_list-IsTrie : IsTrie new_phrase_list (λ _. [])
new_phrase_list-IsTrie = record {
  nonempty = omega arith;
  root = refl;
  nodes = λ i. rw node-new_phrase_list blank_node-IsNode;
  steps = λ i c h. absurd (h (rw node-new_phrase_list (child-blank_node c)));
  reach = λ i h. omega arith;
}

new_phrase_list-Holds : Holds [] new_phrase_list (λ _. [])
new_phrase_list-Holds = record {
  matches = λ i h. rw node-new_phrase_list refl;
  present = λ s m. cc;
  fresh = λ i. rw node-new_phrase_list refl;
}

-- The list built from any phrases is a trie, and the phrases are what its nodes hold.
pub built-Holds :
    (phrases : List Bytes)
    → All IsBytes phrases
    → (label : ℕ → Bytes) × IsTrie (add_phrases new_phrase_list phrases) label
      × Holds phrases (add_phrases new_phrase_list phrases) label
built-Holds phrases v =
    add_phrases-Holds [] phrases new_phrase_list (λ _. []) v new_phrase_list-IsTrie
      new_phrase_list-Holds
