-- ===== src/Phrase/Node.antt =====
-- The two representations of a node's children behave as one map from bytes to nodes.
use redwood_filter.Common.{
  ℕ, zero, suc, ◌≤◌, ◌<◌, ◌≡◌, ◌⊎◌, inl, inr, refl, ap, ◌∙◌, true, List, [], ◌∷◌, arith, ltb,
  if◌then◌else◌, ltb→lt, ◌==◌, nat_eq, ==→eq, Bool-cases, length, get_or, set, length-set,
  get_or-set, get_or-beyond, bytes_eq,
}
use redwood_filter.Phrase.{PhraseNode, blank_node, child, resize, is_nil, set_child}

pub record IsNode (n : PhraseNode) : Type 0 where
  pub sizes : (length n.children ≡ 0) ⊎ (length n.children ≡ 128) ⊎ (length n.children ≡ 256)
  pub covers : 0 < length n.children → n.only_child_byte < length n.children
  pub byte : n.only_child_byte < 256

pub blank_node-IsNode : IsNode blank_node
blank_node-IsNode = record { sizes = inl refl; covers = λ h. h; byte = omega arith }

length-resize : (n : ℕ) (xs : List ℕ) → length (resize n xs) ≡ n
unfolding resize
length-resize zero xs = refl
length-resize (suc n) [] = ap suc (length-resize n [])
length-resize (suc n) (x ∷ xs) = ap suc (length-resize n xs)

get_or-resize :
    (n : ℕ) (xs : List ℕ) (i : ℕ)
    → get_or (resize n xs) i 0 ≡ (if ltb i n then get_or xs i 0 else 0)
unfolding resize
get_or-resize zero xs i = ground arith
get_or-resize (suc n) [] zero = ground arith
get_or-resize (suc n) [] (suc i) = ground (arith, get_or-resize n [] i)
get_or-resize (suc n) (x ∷ xs) zero = ground arith
get_or-resize (suc n) (x ∷ xs) (suc i) = ground (arith, get_or-resize n xs i)

pub child-blank_node : (c : ℕ) → child blank_node c ≡ 0
unfolding child
child-blank_node c = ground arith

-- Past the array no byte has a child.
pub child-array :
    (n : PhraseNode) (c : ℕ) → c < length n.children → child n c ≡ get_or n.children c 0
unfolding child
child-array n c h = ground arith

pub child-only :
    (n : PhraseNode) (c : ℕ)
    → is_nil n.children ≡ true
    → child n c ≡ (if c == n.only_child_byte then n.only_child else 0)
unfolding child
child-only n c h = ground arith

pub child-beyond :
    (n : PhraseNode)
    → IsNode n
    → (c : ℕ) → 0 < length n.children
    → length n.children ≤ c
    → child n c ≡ 0
unfolding child
child-beyond n v c h k = ground (arith, v.covers h)

module _ (n : PhraseNode) (v : IsNode n) (b next : ℕ) (small : b < 256) where
  set_in_array :
      (c : ℕ)
      → b < length n.children
      → child (record n { children = set n.children b next }) c
        ≡ (if b == c then next else child n c)
  unfolding child
  set_in_array c h =
      ground (arith, get_or-set n.children b c next 0 h, length-set n.children b next)

  set_in_larger :
      (c : ℕ)
      → 0 < length n.children
      → length n.children ≤ b
      → child (record n { children = set (resize 256 n.children) b next }) c
        ≡ (if b == c then next else child n c)
  unfolding child
  set_in_larger c h k = ground (
    arith,
    get_or-set (resize 256 n.children) b c next 0 (omega (arith, length-resize 256 n.children)),
    length-set (resize 256 n.children) b next,
    length-resize 256 n.children,
    get_or-resize 256 n.children c,
    get_or-beyond n.children c 0,
    v.covers h,
  )

  set_only_child :
      (c : ℕ)
      → length n.children ≡ 0
      → n.only_child ≡ 0
      → child (record n { only_child = next; only_child_byte = b }) c
        ≡ (if b == c then next else child n c)
  unfolding child
  set_only_child c h k = ground arith

  set_two_children :
      (size c : ℕ)
      → length n.children ≡ 0
      → b < size
      → n.only_child_byte < size
      → child
          (record n { children = set (set (resize size []) n.only_child_byte n.only_child) b next })
          c
        ≡ (if b == c then next else child n c)
  unfolding child
  set_two_children size c h k m =
      let xs = set (resize size []) n.only_child_byte n.only_child in
      ground (
        arith,
        length-resize size [],
        length-set (resize size []) n.only_child_byte n.only_child,
        length-set xs b next,
        get_or-set xs b c next 0 (
            omega (
              arith,
              length-resize size [],
              length-set (resize size []) n.only_child_byte n.only_child,
            )),
        get_or-set (resize size []) n.only_child_byte c n.only_child 0
            (omega (arith, length-resize size [])),
        get_or-resize size [] c,
      )

  -- One case for each way in which `setChild` returns.
  set_child-cases :
      (P : PhraseNode → Type 0)
      → (b < length n.children → P (record n { children = set n.children b next }))
      → (0 < length n.children
          → length n.children ≤ b
          → P (record n { children = set (resize 256 n.children) b next }))
      → (length n.children ≡ 0
          → n.only_child ≡ 0
          → P (record n { only_child = next; only_child_byte = b }))
      → ((size : ℕ)
          → length n.children ≡ 0
          → b < size
          → n.only_child_byte < size
          → (size ≡ 128) ⊎ (size ≡ 256)
          → P (record n {
            children = set (set (resize size []) n.only_child_byte n.only_child) b next;
          }))
      → P (set_child n b next)
  unfolding set_child
  set_child-cases P in_array larger only two = elim (Bool-cases (ltb b (length n.children))) [
    | inl h ↦ rw h (in_array (ltb→lt _ _ h))
    | inr h ↦ elim (Bool-cases (is_nil n.children)) [
      | inr k ↦ rw (h, k) (larger (ground arith) (ground arith))
      | inl k ↦ elim (Bool-cases (n.only_child == 0)) [
        | inl m ↦ rw (h, k, m) (only (ground arith) (==→eq _ _ m))
        | inr m ↦
            rw (h, k, m)
              (two _ (ground arith) (ground (arith, v.byte)) (ground (arith, v.byte))
                (ground arith))
      ]
    ]
  ]

  -- Setting a child changes the transition of that byte and of no other.
  pub child-set_child :
      (c : ℕ) → child (set_child n b next) c ≡ (if b == c then next else child n c)
  child-set_child c =
      set_child-cases (λ m. child m c ≡ (if b == c then next else child n c)) (set_in_array c)
        (set_in_larger c) (set_only_child c) (λ size h k m _. set_two_children size c h k m)

  pub set_child-IsNode : IsNode (set_child n b next)
  set_child-IsNode =
      set_child-cases IsNode
        (λ h.
          let e = length-set n.children b next in
          record {
            sizes = ground (arith, e, v.sizes);
            covers = λ k. ground (arith, e, v.covers (omega arith));
            byte = v.byte;
          })
        (λ h k.
          let e = length-set (resize 256 n.children) b next in
          let l = length-resize 256 n.children in
          record {
            sizes = inr (inr (e ∙ l));
            covers = λ _. omega (arith, e, l, v.byte);
            byte = v.byte;
          })
        (λ h k. record { sizes = inl h; covers = λ m. absurd (omega (arith, m)); byte = small })
        (λ size h k m w.
          let xs = set (resize size []) n.only_child_byte n.only_child in
          let e : length (set xs b next) ≡ size =
            length-set xs b next
            ∙ (length-set (resize size []) n.only_child_byte n.only_child
                ∙ length-resize size []) in
          record { sizes = ground (arith, e, w); covers = λ _. omega (arith, e, m); byte = v.byte })

  pub match-set_child : (set_child n b next).match ≡ n.match
  match-set_child =
      set_child-cases (λ m. m.match ≡ n.match) (λ _. refl) (λ _ _. refl) (λ _ _. refl)
        (λ _ _ _ _ _. refl)

  pub fallback-set_child : (set_child n b next).fallback ≡ n.fallback
  fallback-set_child =
      set_child-cases (λ m. m.fallback ≡ n.fallback) (λ _. refl) (λ _ _. refl) (λ _ _. refl)
        (λ _ _ _ _ _. refl)
