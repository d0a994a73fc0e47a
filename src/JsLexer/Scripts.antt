-- ===== src/JsLexer/Scripts.antt =====
-- Scripts of string literals with gaps between them, and the rounds that they take.
use redwood_filter.Common.{
  ℕ, suc, ◌+◌, ◌≤◌, ◌≡◌, inl, inr, sym, true, List, [], ◌∷◌, ◌++◌, arith, ◌==◌, nat_eq, ==→eq,
  Bool-cases, length, All, length-append, contains, Bytes, codes, bytes_eq,
}
use redwood_filter.JsLexer.Quoted.{escape, IsQuote}
use redwood_filter.JsLexer.QuotedItem.{literal}

-- Bytes between literals: white space, brackets and commas among them.
abbrev pub gaps : Bytes
gaps = 9 ∷ 10 ∷ codes " (,)[]{};:"

pub All-contains : (P : ℕ → Type 0) (l : Bytes) (c : ℕ) → All P l → contains l c ≡ true → P c
All-contains P [] c a h = cc h
All-contains P (d ∷ l) c a h = elim (Bool-cases (d == c)) [
  | inl e ↦ rw (sym (==→eq d c e)) a.0
  | inr e ↦ All-contains P l c a.1 (ground (arith, h, e))
]

-- A literal, and what stands before it.
pub record Item : Type 0 where
  pub gap : Bytes
  pub quote : ℕ
  pub content : Bytes

abbrev pub script : Bytes → List Item → Bytes
script end [] = end
script end (e ∷ es) = e.gap ++ (literal e.quote e.content ++ script end es)

abbrev pub IsGap : Bytes → Type 0
IsGap s = All (λ c. contains gaps c ≡ true) s

abbrev pub IsItem : Item → Type 0
IsItem e = IsGap e.gap × IsQuote e.quote

abbrev pub contents : List Item → List Bytes
contents [] = []
contents (e ∷ es) = e.content ∷ contents es

-- The rounds for a script, with some more behind it.
abbrev pub cost : Bytes → List Item → ℕ → ℕ
cost end [] f = length end + suc f
cost end (e ∷ es) f = length e.gap + suc (suc (cost end es f))

pub cost-more : (end : Bytes) (es : List Item) (f : ℕ) → cost end es f ≡ cost end es 0 + f
cost-more end [] f = omega arith
cost-more end (e ∷ es) f = omega (arith, cost-more end es f)

pub cost-le : (end : Bytes) (es : List Item) → cost end es 0 ≤ length (script end es) + 1
cost-le end [] = omega arith
cost-le end (e ∷ es) =
    let q = literal e.quote e.content in
    omega (
      arith,
      cost-le end es,
      length-append e.gap (q ++ script end es),
      length-append q (script end es),
      length-append (escape e.quote e.content) (e.quote ∷ []),
    )
