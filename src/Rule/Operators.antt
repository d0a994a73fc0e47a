-- ===== src/Rule/Operators.antt =====
-- The operators of compound rules, and the text of a compound rule as its parts.
use redwood_filter.Common.{
  ◌≡◌, ◌⊎◌, inl, inr, refl, Bool, true, ◌||◌, [], ◌∷◌, ◌++◌, append_assoc, ◌==◌, nat_eq, ==-refl,
  ==→eq, Bool-cases, Bytes, codes, bytes_eq,
}
use redwood_filter.Common.Text.{has_prefix}
use redwood_filter.Combinators.{ok, trim_left, tag}
use redwood_filter.Rule.Regex.{drop_all}

abbrev pub is_operator : Bytes → Bool
is_operator op = op == codes "&!" || (op == codes "&" || op == codes "|")

has_prefix-append : (t q : Bytes) → has_prefix (t ++ q) t ≡ true
has_prefix-append [] q = refl
has_prefix-append (c ∷ t) q = rw (==-refl c, has_prefix-append t q) refl

pub operator-cases :
    (op : Bytes) → is_operator op ≡ true → (op ≡ codes "&!") ⊎ ((op ≡ codes "&") ⊎ (op ≡ codes "|"))
operator-cases op h = elim (Bool-cases (op == codes "&!")) [
  | inl e ↦ inl (==→eq op (codes "&!") e)
  | inr e ↦ elim (Bool-cases (op == codes "&")) [
    | inl f ↦ inr (inl (==→eq op (codes "&") f))
    | inr f ↦
        let g : (op == codes "|") ≡ true = rw (e, f) at h in inr (inr (==→eq op (codes "|") g))
  ]
]

pub trim_left-operator : (op z : Bytes) → is_operator op ≡ true → trim_left (op ++ z) ≡ op ++ z
trim_left-operator op z o = elim (operator-cases op o) [
  | inl e ↦ rw e refl
  | inr (inl e) ↦ rw e refl
  | inr (inr e) ↦ rw e refl
]

-- The text of a compound rule, grouped to the right.
pub flatten :
    (a op b tail : Bytes)
    → (a ++ codes " " ++ op ++ codes " " ++ b) ++ tail ≡ a ++ (b' ' ∷ (op ++ (b' ' ∷ (b ++ tail))))
flatten a op b tail =
    rw
      (
        append_assoc (a ++ codes " " ++ op ++ codes " ") b tail,
        append_assoc (a ++ codes " " ++ op) (codes " ") (b ++ tail),
        append_assoc (a ++ codes " ") op (codes " " ++ (b ++ tail)),
        append_assoc a (codes " ") (op ++ (codes " " ++ (b ++ tail))),
      )
      refl

pub tag-reads : (t s q : Bytes) → trim_left s ≡ t ++ q → tag t s ≡ ok t q
unfolding tag
tag-reads t s q h = rw (tag, h, has_prefix-append t q, drop_all t q) refl
