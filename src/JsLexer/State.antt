-- ===== src/JsLexer/State.antt =====
-- jslexer.go: the lexer's state, and the operations that move it over the input.
use redwood_filter.Common.{
  ℕ, zero, suc, ◌+◌, ◌-◌, ◌≡◌, refl, ap, Bool, true, false, Option, none, some, List, [], ◌∷◌, ◌++◌,
  leb, ltb, if◌then◌else◌, ◌==◌, nat_eq, ◌&&◌, length, take, drop, get_or, contains, Bytes,
}
use redwood_filter.Common.Text.{has_prefix}

-- The end of a piece of code: a result, a panic on an index out of range, or a loop that has used
-- up its fuel.
pub data Run {ℓ} (A : Type ℓ) : Type ℓ where
  ok : A → Run A
  panics : Run A
  stuck : Run A

infixl 10 ◌>>=◌
abbrev pub ◌>>=◌ {ℓ κ} : {A : Type ℓ} {B : Type κ} → Run A → (A → Run B) → Run B
ok a >>= f = f a
panics >>= f = panics
stuck >>= f = stuck

-- It ends with a result, and the result satisfies a predicate.
abbrev pub Returns {ℓ} : {A : Type ℓ} → Run A → (A → Type 0) → Type 0
Returns (ok a) P = P a
Returns panics P = ⊥
Returns stuck P = ⊥

pub Returns-weaken {ℓ} :
    {A : Type ℓ} (P Q : A → Type 0) (r : Run A) → Returns r P → ((a : A) → P a → Q a) → Returns r Q
Returns-weaken P Q (ok a) h k = k a h
Returns-weaken P Q panics h k = h
Returns-weaken P Q stuck h k = h

-- What is returned by a call and the code behind it.
pub Returns-bind {ℓ κ} :
    {A : Type ℓ} {B : Type κ} (P : A → Type 0) (Q : B → Type 0) (r : Run A) (f : A → Run B)
    → Returns r P
    → ((a : A) → P a → Returns (f a) Q)
    → Returns (r >>= f) Q
Returns-bind P Q (ok a) f h k = k a h
Returns-bind P Q panics f h k = h
Returns-bind P Q stuck f h k = h

pub Returns-ok : {A : Type 0} (r : Run A) (a : A) → Returns r (λ b. b ≡ a) → r ≡ ok a
Returns-ok (ok b) a h = ap ok h
Returns-ok panics a h = absurd h
Returns-ok stuck a h = absurd h

pub Returns-value {ℓ} :
    {A : Type ℓ} (P : A → Type 0) (r : Run A) → Returns r P → (a : A) × (r ≡ ok a)
Returns-value P (ok a) h = (a, refl)
Returns-value P panics h = absurd h
Returns-value P stuck h = absurd h

pub Returns-if {ℓ} :
    {A : Type ℓ} (P : A → Type 0) (b : Bool) (t e : Run A)
    → (b ≡ true → Returns t P)
    → (b ≡ false → Returns e P)
    → Returns (if b then t else e) P
Returns-if P true t e h k = h refl
Returns-if P false t e h k = k refl

-- What the lexer uses of Go's packages unicode, utf8, strconv and regexp.
pub record GoText : Type 0 where
  -- utf8.DecodeRuneInString: the rune and its width
  pub decode_rune : Bytes → ℕ × ℕ
  -- string(r), for a rune
  pub string_of : ℕ → Bytes
  -- strconv.ParseUint(s, base, bits)
  pub parse_uint : Bytes → ℕ → ℕ → Option ℕ
  pub is_letter : ℕ → Bool
  pub is_digit : ℕ → Bool
  -- regexRegex.FindString
  pub find_regex : Bytes → Bytes

-- The input is no field here, since nothing changes it.
pub record Lexer : Type 0 where
  pub start : ℕ
  pub pos : ℕ
  pub width : ℕ
  pub items : List Bytes
  pub div_ok : Bool

-- The state functions.
pub data State : Type 0 where
  text number after_slash block_comment line_comment identifier string regex : State

-- A rune, or none for eof.
abbrev pub Rune : Type 0
Rune = Option ℕ

abbrev pub same_rune : Rune → Rune → Bool
same_rune none none = true
same_rune (some c) (some d) = c == d
same_rune none (some d) = false
same_rune (some c) none = false

-- strings.IndexRune(valid, r) >= 0, where valid is ASCII
abbrev pub one_of : Bytes → Rune → Bool
one_of valid none = false
one_of valid (some c) = contains valid c

-- strings.Index(s, p)
abbrev pub index : Bytes → Bytes → Option ℕ
index [] p = if has_prefix [] p then some 0 else none
index (c ∷ s) p =
    if has_prefix (c ∷ s) p
    then some 0
    else elim (index s p) [ none ↦ none | some i ↦ some (suc i) ]

-- s[i:] and s[i:j], which panic when an index is out of range
unfoldable pub slice_from : Bytes → ℕ → Run Bytes
slice_from s i = if leb i (length s) then ok (drop i s) else panics

unfoldable pub slice : Bytes → ℕ → ℕ → Run Bytes
slice s i j = if leb i j && leb j (length s) then ok (take (j - i) (drop i s)) else panics

-- s[i]
unfoldable pub byte_at : Bytes → ℕ → Run ℕ
byte_at s i = if ltb i (length s) then ok (get_or s i 0) else panics

abbrev pub ignore : Lexer → Lexer
ignore l = record l { start = l.pos }

abbrev pub backup : Lexer → Lexer
backup l = record l { pos = l.pos - l.width }

-- error, which emits the rest of the input.
unfoldable pub emit_rest : Bytes → Lexer → Run Lexer
emit_rest input l = do s ← slice_from input l.start; ok (record l { items = l.items ++ s ∷ [] })

module _ (x : GoText) (input : Bytes) where
  unfoldable pub next : Lexer → Rune × Lexer
  next l =
      if leb (length input) l.pos
      then (none, record l { width = 0 })
      else (let d = x.decode_rune (drop l.pos input) in
          (some d.0, record l { width = d.1; pos = l.pos + d.1 }))

  unfoldable pub peek : Lexer → Rune × Lexer
  peek l = ((next l).0, backup (next l).1)

  unfoldable pub accept : Bytes → Lexer → Bool × Lexer
  accept valid l = let r = next l in if one_of valid r.0 then (true, r.1) else (false, backup r.1)

  -- The loop of acceptRun.
  unfoldable pub accept_loop : ℕ → Bytes → Lexer → Run Lexer
  accept_loop zero valid l = stuck
  accept_loop (suc f) valid l =
      let rest = accept_loop f valid (next l).1 in
      if one_of valid (next l).0 then rest else ok (backup (next l).1)

  unfoldable pub accept_run : Bytes → Lexer → Run Lexer
  accept_run valid l = accept_loop (suc (length input)) valid l
