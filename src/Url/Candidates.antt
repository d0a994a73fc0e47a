-- ===== src/Url/Candidates.antt =====
-- The texts that the loops of `MatchingRules` look up: each parent domain of the host, alone and
-- with each initial part of the path.
use redwood_filter.Common.{
  ℕ, ◌≡◌, inl, inr, refl, Bool, true, not, ◌&&◌, ◌||◌, none, some, List, [], ◌∷◌, ◌++◌, append-nil,
  append_assoc, arith, if◌then◌else◌, ◌==◌, nat_eq, Bool-cases, Option-cases, any, Bytes, bytes_eq,
}
use redwood_filter.Common.Text.{cut, cut_last}
use redwood_filter.Common.Int.{int_eq}
use redwood_filter.Rule.{rule_eq}
use redwood_filter.Common.Anys.{any-append, or_false}
use redwood_filter.Url.{is_nil}

-- The parts of a text before a slash, but for an empty one, behind what was read already.
abbrev pub before_slashes : Bytes → Bytes → List Bytes
before_slashes read [] = []
before_slashes read (c ∷ s) =
    let rest = before_slashes (read ++ c ∷ []) s in
    if c == b'/' && not (is_nil read) then read ∷ rest else rest

-- What is behind each dot of the text.
abbrev pub behind_dots : Bytes → List Bytes
behind_dots [] = []
behind_dots (c ∷ s) = if c == b'.' then s ∷ behind_dots s else behind_dots s

abbrev pub path_parts : Bytes → List Bytes
path_parts s = s ∷ before_slashes [] s

abbrev pub with_path : Bytes → List Bytes → List Bytes
with_path path [] = []
with_path path (d ∷ ds) = path_parts (d ++ path) ++ d ∷ with_path path ds

-- The texts that are looked up for a host and a path.
abbrev pub candidates : Bytes → Bytes → List Bytes
candidates host path = with_path path (host ∷ behind_dots host)

no_slash : (read s : Bytes) → cut_last b'/' s ≡ none → before_slashes read s ≡ []
no_slash read [] h = refl
no_slash read (c ∷ s) h = elim (Option-cases (cut_last b'/' s)) [
  | inl n ↦ ground (arith, h, n, no_slash (read ++ c ∷ []) s n)
  | inr ((p, q), n) ↦ ground (arith, h, n)
]

unless_empty : Bytes → List Bytes
unless_empty [] = []
unless_empty (c ∷ s) = (c ∷ s) ∷ []

alone : (read : Bytes) → (if not (is_nil read) then read ∷ [] else []) ≡ unless_empty read
unfolding unless_empty
alone [] = refl
alone (c ∷ read) = refl

-- The parts before a slash are those of the text before the last slash, and that text.
before_slashes-cut_last :
    (read s p q : Bytes)
    → cut_last b'/' s ≡ some (p, q)
    → before_slashes read s ≡ before_slashes read p ++ unless_empty (read ++ p)
unfolding unless_empty
before_slashes-cut_last read [] p q h = cc h
before_slashes-cut_last read (c ∷ s) p q h = elim (Option-cases (cut_last b'/' s)) [
  | inl n ↦
      let at_slash : (p ≡ []) × ((c == b'/') ≡ true) = ground (arith, h, n) in
      rw (at_slash.0, at_slash.1, no_slash (read ++ c ∷ []) s n, append-nil read) (alone read)
  | inr ((p', q'), n) ↦
      let longer : p ≡ c ∷ p' = ground (arith, h, n) in
      rw (longer, before_slashes-cut_last (read ++ c ∷ []) s p' q' n, append_assoc read (c ∷ []) p')
        (elim (Bool-cases (c == b'/' && not (is_nil read))) [
          | inl e ↦ rw e refl
          | inr e ↦ rw e refl
        ])
]

pub behind_dots-cut-none : (s : Bytes) → cut b'.' s ≡ none → behind_dots s ≡ []
behind_dots-cut-none [] h = refl
behind_dots-cut-none (c ∷ s) h = elim (Bool-cases (c == b'.')) [
  | inl e ↦ ground (arith, h, e)
  | inr e ↦ elim (Option-cases (cut b'.' s)) [
    | inl n ↦ ground (arith, e, n, behind_dots-cut-none s n)
    | inr ((p, q), n) ↦ ground (arith, h, e, n)
  ]
]

pub behind_dots-cut : (s p q : Bytes) → cut b'.' s ≡ some (p, q) → behind_dots s ≡ q ∷ behind_dots q
behind_dots-cut [] p q h = cc h
behind_dots-cut (c ∷ s) p q h = elim (Bool-cases (c == b'.')) [
  | inl e ↦ let same : s ≡ q = ground (arith, h, e) in rw (e, same) refl
  | inr e ↦ elim (Option-cases (cut b'.' s)) [
    | inl n ↦ ground (arith, h, e, n)
    | inr ((p', q'), n) ↦
        let same : q' ≡ q = ground (arith, h, e, n) in rw (e, behind_dots-cut s p' q' n, same) refl
  ]
]

pub any-path_parts-none :
    (f : Bytes → Bool) (s : Bytes) → cut_last b'/' s ≡ none → any f (path_parts s) ≡ f s
any-path_parts-none f s h = rw (no_slash [] s h) (or_false (f s))

pub any-path_parts_first :
    (f : Bytes → Bool) (s q : Bytes) → cut_last b'/' s ≡ some ([], q) → any f (path_parts s) ≡ f s
unfolding unless_empty
any-path_parts_first f s q h = rw (before_slashes-cut_last [] s [] q h) (or_false (f s))

pub any-path_parts_cut :
    (f : Bytes → Bool) (s : Bytes) (c : ℕ) (p q : Bytes)
    → cut_last b'/' s ≡ some (c ∷ p, q)
    → any f (path_parts s) ≡ (f s || any f (path_parts (c ∷ p)))
unfolding unless_empty
any-path_parts_cut f s c p q h =
    rw
      (
        before_slashes-cut_last [] s (c ∷ p) q h,
        unless_empty,
        any-append f (before_slashes [] (c ∷ p)) ((c ∷ p) ∷ []),
      )
      (ground arith)
