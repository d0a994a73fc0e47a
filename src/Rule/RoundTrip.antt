-- ===== src/Rule/RoundTrip.antt =====
-- parseCompoundRule reads back what String writes.
use redwood_filter.Common.{
  ℕ, zero, suc, ◌+◌, ◌≤◌, ◌≡◌, inl, inr, refl, sym, ap, ◌∙◌, Bool, true, false, ◌&&◌, ◌||◌, [], ◌∷◌,
  ◌++◌, append_assoc, arith, nat_eq, length, length-append, Bytes, codes, bytes_eq,
}
use redwood_filter.Common.Text.{has_prefix}
use redwood_filter.Combinators.{ok, failed, trim_left, tag, alt, delimited}
use redwood_filter.Rule.{
  SimpleRule, Rule, simple, compound, simple_string, in_parentheses, rule_string,
}
use redwood_filter.Word.{Unicode}
use redwood_filter.Rule.Parse.{
  parse_simple_rule, parse_one, operand, operator, parse_with, parse_compound_rule,
}
use redwood_filter.Rule.Texts.{stops, closes, IsReadable1, ends_itself}
use redwood_filter.Rule.Regex.{stops-closes}
use redwood_filter.Rule.Simple.{Reads, simple_string-Reads, simple_string-starts}
use redwood_filter.Rule.Operators.{
  is_operator, operator-cases, trim_left-operator, flatten, tag-reads,
}

module _ (x : Unicode) where
  -- Whether a rule's text can stand in parentheses: what is last in it ends itself.
  abbrev pub nested : Rule → Bool
  nested (simple r) = true
  nested (compound l op (simple r)) = ends_itself x r
  nested (compound l op (compound l' op' r')) = true

  abbrev pub IsReadable : Rule → Type 0
  IsReadable (simple r) = IsReadable1 x r
  IsReadable (compound l op r) =
      (is_operator op ≡ true)
      × (IsReadable l × (IsReadable r × ((nested l ≡ true) × (nested r ≡ true))))

  -- What may follow an operand.
  abbrev pub follows : Rule → Bytes → Bool
  follows (simple r) tail = stops tail || (ends_itself x r && closes tail)
  follows (compound l op r) tail = closes tail

  abbrev pub size : Rule → ℕ
  size (simple r) = 0
  size (compound l op r) = suc (size l + size r)

  operator-reads :
      (op s q : Bytes)
      → is_operator op ≡ true
      → trim_left s ≡ op ++ b' ' ∷ q
      → operator x s ≡ ok op (b' ' ∷ q)
  unfolding operator alt tag
  operator-reads op s q o h = elim (operator-cases op o) [
    | inl e ↦ rw (tag, h, e) refl
    | inr (inl e) ↦ rw (tag, h, e) refl
    | inr (inr e) ↦ rw (tag, h, e) refl
  ]

  follows_space : (r : Rule) (z : Bytes) → follows r (b' ' ∷ z) ≡ true
  follows_space (simple r) z = refl
  follows_space (compound l op r) z = refl

  text-starts :
      (r : Rule) (tail : Bytes)
      → IsReadable r
      → trim_left (in_parentheses r (rule_string r) ++ tail)
        ≡ in_parentheses r (rule_string r) ++ tail
  unfolding rule_string
  text-starts (simple r) tail w = (simple_string-starts x r.t r.content tail w).0
  text-starts (compound l op r) tail w = refl

  abbrev pub ReadsOperand : Rule → Type 0
  ReadsOperand r =
      (fuel : ℕ) (s tail : Bytes)
      → size r ≤ fuel
      → trim_left s ≡ in_parentheses r (rule_string r) ++ tail
      → follows r tail ≡ true
      → Reads (operand x (parse_compound_rule x fuel) s) r tail

  -- The body of the parser, from its operands.
  pub parse_with-Reads :
      (l : Rule) (op : Bytes) (r : Rule) (fuel : ℕ) (s tail : Bytes)
      → ReadsOperand l
      → ReadsOperand r
      → is_operator op ≡ true
      → IsReadable r
      → size l + size r ≤ fuel
      → trim_left s ≡ rule_string (compound l op r) ++ tail
      → follows r tail ≡ true
      → Reads (parse_with x (parse_compound_rule x fuel) s) (compound l op r) tail
  unfolding parse_with rule_string
  parse_with-Reads l op r fuel s tail ql qr o w n h f =
      let text = in_parentheses r (rule_string r) in
      let left =
        ql fuel s (b' ' ∷ (op ++ b' ' ∷ (text ++ tail))) (omega (arith, n))
          (h ∙ flatten (in_parentheses l (rule_string l)) op text tail)
          (follows_space l (op ++ b' ' ∷ (text ++ tail))) in
      let after : trim_left left.rest ≡ op ++ b' ' ∷ (text ++ tail) =
        left.left ∙ trim_left-operator op (b' ' ∷ (text ++ tail)) o in
      let right =
        qr fuel (b' ' ∷ (text ++ tail)) tail (omega (arith, n)) (text-starts r tail w) f in
      record {
        rest = right.rest;
        reads =
            rw
              (
                parse_with,
                left.reads,
                operator-reads op left.rest (text ++ tail) o after,
                right.reads,
              )
              refl;
        left = right.left;
      }

  parse_one-Reads :
      (r : SimpleRule) (s tail : Bytes)
      → IsReadable1 x r
      → trim_left s ≡ simple_string r ++ tail
      → (stops tail || (ends_itself x r && closes tail)) ≡ true
      → Reads (parse_one x s) (simple r) tail
  unfolding parse_simple_rule
  parse_one-Reads r s tail w h f =
      let one = simple_string-Reads x r.t r.content tail w f in
      record { rest = one.rest; reads = rw (h, one.reads) refl; left = one.left }

  pub rule-starts :
      (l : Rule) (op : Bytes) (r : Rule) (z : Bytes)
      → IsReadable l
      → trim_left (rule_string (compound l op r) ++ z) ≡ rule_string (compound l op r) ++ z
  unfolding rule_string
  rule-starts l op r z w =
      let text = in_parentheses r (rule_string r) in
      let flat = flatten (in_parentheses l (rule_string l)) op text z in
      ap trim_left flat ∙ (text-starts l (b' ' ∷ (op ++ (b' ' ∷ (text ++ z)))) w ∙ sym flat)

  last_follows :
      (l : Rule) (op : Bytes) (r : Rule) (tail : Bytes)
      → nested (compound l op r) ≡ true
      → closes tail ≡ true
      → follows r (b')' ∷ tail) ≡ true
  last_follows l op (simple r) tail k f = rw (k, f) refl
  last_follows l op (compound l' op' r') tail k f = f

  -- An operand is read with as much fuel as it has operators.
  pub operand-Reads : (r : Rule) → IsReadable r → nested r ≡ true → ReadsOperand r
  unfolding operand rule_string alt delimited tag parse_compound_rule
  operand-Reads (simple r) w k fuel s tail n h f =
      let one = parse_one-Reads r s tail w h f in
      let shut : tag (codes "(") s ≡ failed s =
        rw (tag, h, (simple_string-starts x r.t r.content tail w).1) refl in
      record { rest = one.rest; reads = rw (shut, one.reads) refl; left = one.left }
  operand-Reads (compound l op r) w k zero s tail n h f = absurd (omega (arith, n))
  operand-Reads (compound l op r) w k (suc fuel) s tail n h f =
      let whole = rule_string (compound l op r) in
      let inside = whole ++ b')' ∷ tail in
      let opened : tag (codes "(") s ≡ ok (codes "(") inside =
        tag-reads (codes "(") s inside
          (h ∙ ap (λ z. b'(' ∷ z) (append_assoc whole (codes ")") tail)) in
      let last : follows r (b')' ∷ tail) ≡ true = last_follows l op r tail k f in
      let one =
        parse_with-Reads l op r fuel inside (b')' ∷ tail) (operand-Reads l w.1.0 w.1.1.1.0)
          (operand-Reads r w.1.1.0 w.1.1.1.1) w.0 w.1.1.0 (omega (arith, n))
          (rule-starts l op r (b')' ∷ tail) w.1.0) last in
      let closed : tag (codes ")") one.rest ≡ ok (codes ")") tail =
        tag-reads (codes ")") one.rest tail one.left in
      record { rest = tail; reads = rw (opened, one.reads, closed) refl; left = refl }

  stops-follows : (r : Rule) (tail : Bytes) → stops tail ≡ true → follows r tail ≡ true
  stops-follows (simple r) tail h = rw h refl
  stops-follows (compound l op r) tail h = stops-closes tail h

  ampersand : (z : Bytes) → has_prefix z (codes "&") ≡ false → has_prefix z (codes "&!") ≡ false
  ampersand [] h = refl
  ampersand (c ∷ z) h = ground (arith, h)

  no_operator :
      (s tail : Bytes)
      → trim_left s ≡ trim_left tail
      → has_prefix (trim_left tail) (codes "&") ≡ false
      → has_prefix (trim_left tail) (codes "|") ≡ false
      → operator x s ≡ failed s
  unfolding operator alt tag
  no_operator s tail e h k = rw (tag, e, ampersand (trim_left tail) h, h, k) refl

  parentheses-le : (r : Rule) (s : Bytes) → length s ≤ length (in_parentheses r s)
  parentheses-le (simple r) s = omega arith
  parentheses-le (compound l op r) s = omega (arith, length-append (codes "(" ++ s) (codes ")"))

  pub size-le : (r : Rule) → size r ≤ length (rule_string r)
  unfolding rule_string
  size-le (simple r) = omega arith
  size-le (compound l op r) =
      let a = in_parentheses l (rule_string l) in
      let b = in_parentheses r (rule_string r) in
      omega (
        arith,
        length-append (a ++ codes " " ++ op ++ codes " ") b,
        length-append (a ++ codes " " ++ op) (codes " "),
        length-append (a ++ codes " ") op,
        length-append a (codes " "),
        parentheses-le l (rule_string l),
        parentheses-le r (rule_string r),
        size-le l,
        size-le r,
      )

  -- The text of a rule that can be read back, with nothing behind it or a space and no operator:
  -- with fuel for its bytes, parseCompoundRule gives the rule and leaves what is behind it, up to
  -- blanks.
  pub parse_compound_rule-rule_string :
      (r : Rule) (tail : Bytes)
      → IsReadable r
      → stops tail ≡ true
      → has_prefix (trim_left tail) (codes "&") ≡ false
      → has_prefix (trim_left tail) (codes "|") ≡ false
      → Reads
          (parse_compound_rule x (length (rule_string r ++ tail) + 1) (rule_string r ++ tail))
          r
          tail
  unfolding rule_string parse_with parse_compound_rule
  parse_compound_rule-rule_string (simple r) tail w h a o =
      let s = simple_string r ++ tail in
      let count : length s + 1 ≡ suc (length s) = omega arith in
      let one =
        operand-Reads (simple r) w refl (length s) s tail (omega arith)
          (simple_string-starts x r.t r.content tail w).0 (stops-follows (simple r) tail h) in
      record {
        rest = one.rest;
        reads = rw (count, one.reads, no_operator one.rest tail one.left a o) refl;
        left = one.left;
      }
  parse_compound_rule-rule_string (compound l op r) tail w h a o =
      let s = rule_string (compound l op r) ++ tail in
      let count : length s + 1 ≡ suc (length s) = omega arith in
      let all =
        parse_with-Reads l op r (length s) s tail (operand-Reads l w.1.0 w.1.1.1.0)
          (operand-Reads r w.1.1.0 w.1.1.1.1) w.0 w.1.1.0
          (omega
            (arith, size-le (compound l op r), length-append (rule_string (compound l op r)) tail))
          (rule-starts l op r tail w.1.0) (stops-follows r tail h) in
      rw count all
