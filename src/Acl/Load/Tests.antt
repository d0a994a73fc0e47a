-- ===== src/Acl/Load/Tests.antt =====
-- A run of load on two files, and the witness of its property.
use redwood_filter.Common.{
  ℕ, ◌≡◌, inl, inr, false, ◌&&◌, Option, none, some, List, [], ◌∷◌, ◌++◌, arith, if◌then◌else◌,
  ◌==◌, nat_eq, ==→eq, Bool-cases, contains, Bytes, codes, bytes_eq,
}
use mathlib.Core.Option.{some-injective}
use redwood_filter.Acl.{AclSet, choose_acl_action}
use redwood_filter.Acl.Choose.{applies, first_rule}
use redwood_filter.Acl.Load.{AclDefinitions, AclExternals, no_definitions}
use redwood_filter.Acl.Load.Files.{load}
use redwood_filter.Acl.Load.Loaded.{IsNested, load-first_rule}
use redwood_filter.Url.Tests.{externals}

abbrev word_of : Bytes → List Bytes
word_of [] = []
word_of (c ∷ w) = (c ∷ w) ∷ []

abbrev words : Bytes → Bytes → List Bytes
words w [] = word_of w
words w (c ∷ s) = if c == b' ' then word_of w ++ words [] s else words (w ++ c ∷ []) s

abbrev main_file : List Bytes
main_file = codes "acl child user-name kim" ∷ codes "include sub" ∷ []

abbrev sub_file : List Bytes
sub_file = codes "block child !staff # at home" ∷ []

abbrev files : Bytes → Option (List Bytes)
files f =
    if f == codes "main" then some main_file else if f == codes "sub" then some sub_file else none

abbrev pub acl_externals : AclExternals
acl_externals = record {
  url = externals;
  atoi = λ s. none;
  to_upper = λ s. s;
  scan_times = λ s. none;
  fields = λ line. words [] line;
  scan_quoted = λ s. none;
  read_lines = files;
  is_abs = λ f. false;
  join_dir = λ dir f. f;
}

abbrev depth : Bytes → ℕ
depth f = if f == codes "main" then 1 else 0

files-IsNested : IsNested acl_externals depth
files-IsNested filename lines e = elim (Bool-cases (filename == codes "main")) [
  | inl m ↦
      let same : main_file ≡ lines = some-injective main_file lines (rw m at e) in
      rw (← same, ==→eq filename (codes "main") m) (tt, ((omega arith, tt), tt))
  | inr m ↦ elim (Bool-cases (filename == codes "sub")) [
    | inl n ↦
        let same : sub_file ≡ lines = some-injective sub_file lines (rw (m, n) at e) in
        rw (← same) (tt, tt)
    | inr n ↦ let no : none ≡ some lines = rw (m, n) at e in cc no
  ]
]

load-first_rule_example :
    (a : AclDefinitions) × (load acl_externals 2 (codes "main") no_definitions ≡ some a)
    × ((acls : AclSet) (actions : List Bytes)
        → choose_acl_action a.actions acls actions
          ≡ first_rule (λ r. contains actions r.action && applies acls r) a.actions)
load-first_rule_example = load-first_rule acl_externals depth (codes "main") files-IsNested
