-- ===== src/JsLexer/Quoted.antt =====
-- A text written as a literal, and what emitString makes of it.
use redwood_filter.Common.{
  ℕ, zero, suc, ◌≤◌, ◌≡◌, ◌⊎◌, inl, inr, refl, sym, ap, ◌∙◌, Bool, true, false, ◌||◌, [], ◌∷◌, ◌++◌,
  append-nil, append_assoc, arith, if◌then◌else◌, ◌==◌, nat_eq, ==→eq, Bool-cases, length,
  length-append, contains, contains-append, Bytes, bytes_eq,
}
use redwood_filter.Common.Text.{cut-none, cut-here, trim_last}
use redwood_filter.JsLexer.State.{ok, GoText}
use redwood_filter.JsLexer.Literal.{unescape_one, unescape_loop, unescape}

-- A backslash before a quote of the kind and before a backslash.
abbrev pub is_special : ℕ → ℕ → Bool
is_special q c = c == q || c == b'\\'

abbrev pub escape : ℕ → Bytes → Bytes
escape q [] = []
escape q (c ∷ s) = if is_special q c then b'\\' ∷ c ∷ escape q s else c ∷ escape q s

-- ' or ".
abbrev pub IsQuote : ℕ → Type 0
IsQuote q = (q ≡ b'\'') ⊎ (q ≡ b'"')

escape-plain : (q : ℕ) (s : Bytes) → contains (escape q s) b'\\' ≡ false → escape q s ≡ s
escape-plain q [] h = refl
escape-plain q (c ∷ s) h = elim (Bool-cases (is_special q c)) [
  | inl e ↦ let no : true ≡ false = rw e at h in cc no
  | inr e ↦
      let k : (c == b'\\' || contains (escape q s) b'\\') ≡ false = rw e at h in
      rw e (ap (λ t. c ∷ t) (escape-plain q s (ground (arith, k))))
]

pub trim_last-last : (b : ℕ) (s : Bytes) → trim_last b (s ++ b ∷ []) ≡ s
trim_last-last b [] = ground arith
trim_last-last b (c ∷ []) = ground arith
trim_last-last b (c ∷ d ∷ s) = ap (λ t. c ∷ t) (trim_last-last b (d ∷ s))

module _ (x : GoText) (q : ℕ) (quote : IsQuote q) where
  unescape_one-special :
      (c : ℕ) (t : Bytes) → is_special q c ≡ true → unescape_one x c t ≡ (c ∷ [], t)
  unfolding unescape_one
  unescape_one-special c t h = elim (Bool-cases (c == b'\\')) [
    | inl e ↦ rw (==→eq c b'\\' e) refl
    | inr e ↦ elim quote [
      | inl k ↦ let same : c ≡ b'\'' = ground (arith, h, e, k) in rw same refl
      | inr k ↦ let same : c ≡ b'"' = ground (arith, h, e, k) in rw same refl
    ]
  ]

  unescape_loop-plain :
      (f : ℕ) (b p : Bytes)
      → contains p b'\\' ≡ false
      → length p ≤ f
      → unescape_loop x f b p ≡ ok (b ++ p)
  unfolding unescape_loop
  unescape_loop-plain zero b [] h k = ap ok (sym (append-nil b))
  unescape_loop-plain (suc f) b [] h k = ap ok (sym (append-nil b))
  unescape_loop-plain zero b (c ∷ p) h k = absurd (omega arith)
  unescape_loop-plain (suc f) b (c ∷ p) h k = rw (cut-none b'\\' (c ∷ p) h, unescape_loop) refl

  unescape_loop-here :
      (f : ℕ) (b p : Bytes) (c : ℕ) (t : Bytes)
      → contains p b'\\' ≡ false
      → is_special q c ≡ true
      → unescape_loop x (suc f) b (p ++ b'\\' ∷ c ∷ t) ≡ unescape_loop x f (b ++ p ++ c ∷ []) t
  unfolding unescape_loop
  unescape_loop-here f b [] c t h k =
      ap (λ (r : Bytes × Bytes). unescape_loop x f (b ++ [] ++ r.0) r.1)
        (unescape_one-special c t k)
  unescape_loop-here f b (d ∷ p) c t h k =
      rw (cut-here b'\\' (d ∷ p) (c ∷ t) h, unescape_loop) (rw (unescape_one-special c t k) refl)

  -- The loop on plain text and the rest of a literal.
  unescape_loop-escape :
      (f : ℕ) (b p s : Bytes)
      → contains p b'\\' ≡ false
      → length (p ++ escape q s) ≤ f
      → unescape_loop x f b (p ++ escape q s) ≡ ok (b ++ p ++ s)
  unescape_loop-escape f b p [] h k =
      simp append-nil (unescape_loop-plain f b p h (rw append-nil at k))
  unescape_loop-escape zero b p (c ∷ s) h k =
      absurd (ground (arith, k, length-append p (escape q (c ∷ s))))
  unescape_loop-escape (suc f) b p (c ∷ s) h k = elim (Bool-cases (is_special q c)) [
    | inl e ↦
        let ih =
          unescape_loop-escape f (b ++ p ++ c ∷ []) [] s refl
            (ground (arith, e, k, length-append p (escape q (c ∷ s)))) in
        rw e (unescape_loop-here f b p c (escape q s) h e ∙ ih ∙ ap ok (simp append_assoc))
    | inr e ↦
        let plain : contains (p ++ c ∷ []) b'\\' ≡ false =
          rw contains-append (ground (arith, h, e)) in
        let joined : p ++ c ∷ escape q s ≡ p ++ c ∷ [] ++ escape q s =
          sym (append_assoc p (c ∷ []) (escape q s)) in
        let ih =
          unescape_loop-escape (suc f) b (p ++ c ∷ []) s plain (rw (sym joined) (rw e at k)) in
        rw e (ap (unescape_loop x (suc f) b) joined ∙ ih ∙ ap ok (simp append_assoc))
  ]

  pub unescape-escape : (s : Bytes) → unescape x (escape q s) ≡ ok s
  unfolding unescape
  unescape-escape s = elim (Bool-cases (contains (escape q s) b'\\')) [
    | inl e ↦ rw e (unescape_loop-escape _ [] [] s refl (omega arith))
    | inr e ↦ rw e (ap ok (escape-plain q s e))
  ]
