-- ===== src/Acl/Load/Files.antt =====
-- acl.go, the method load: the lines of an ACL file and of the files that it includes. `none` is an
-- inclusion too deep for the fuel; the error result, for a file that cannot be read, is left out.
use redwood_filter.Common.{
  ℕ, zero, suc, not, Option, none, some, List, [], ◌∷◌, ◌++◌, if◌then◌else◌, ◌==◌, nat_eq, contains,
  Bytes, codes, bytes_eq, ◌>>=◌,
}
use redwood_filter.Acl.{AclActionRule, blank_rule}
use redwood_filter.Acl.Load.{AclDefinitions, AclExternals, add_acl_rule, join_words}
use redwood_filter.Bloom.{add}
use redwood_filter.Common.GoMap.{insert}
use redwood_filter.Common.Text.{has_prefix}

-- the words before the first that starts with "#"
abbrev pub without_comment : List Bytes → List Bytes
without_comment [] = []
without_comment (w ∷ ws) = if has_prefix w (codes "#") then [] else w ∷ without_comment ws

-- line[strings.Index(line, w):]
abbrev pub from_part : Bytes → Bytes → Bytes
from_part [] w = []
from_part (c ∷ s) w = if has_prefix (c ∷ s) w then c ∷ s else from_part s w

abbrev pub action_names : List Bytes
action_names =
    codes "allow"
    ∷ codes "block"
    ∷ codes "block-invisible"
    ∷ codes "censor-words"
    ∷ codes "disable-proxy-headers"
    ∷ codes "hash-image"
    ∷ codes "ignore-category"
    ∷ codes "log-content"
    ∷ codes "phrase-scan"
    ∷ codes "require-auth"
    ∷ codes "ssl-bump"
    ∷ codes "virus-scan"
    ∷ []

module _ (x : AclExternals) where
  abbrev or_old : Bytes → Option Bytes → Bytes
  or_old s none = s
  or_old s (some t) = t

  -- The loop argLoop. No word is empty.
  unfoldable pub conditions : Bytes → AclActionRule → List Bytes → AclActionRule
  conditions line r [] = r
  conditions line r ([] ∷ ws) = conditions line r ws
  conditions line r ((c ∷ w) ∷ ws) =
      let without = conditions line (record r { disallowed = r.disallowed ++ w ∷ [] }) ws in
      let with_it =
        conditions line
          (record r { needed = r.needed ++ (c ∷ w) ∷ []; bloom = add r.bloom (c ∷ w) }) ws in
      if c == b'!'
      then without
      else if c == b'"'
      then record r { description = or_old r.description (x.scan_quoted (from_part line (c ∷ w))) }
      else with_it

  -- The name of an included file.
  abbrev pub included_file : Bytes → Bytes → Bytes
  included_file filename file = if not (x.is_abs file) then x.join_dir filename file else file

  unfoldable pub include_files :
      (Bytes → AclDefinitions → Option AclDefinitions)
      → Bytes
      → List Bytes
      → AclDefinitions
      → Option AclDefinitions
  include_files inner filename [] a = some a
  include_files inner filename (f ∷ fs) a = do
    a' ← inner (included_file filename f) a
    include_files inner filename fs a'

  -- an `acl` line, and a `describe` line
  abbrev pub define : AclDefinitions → List Bytes → AclDefinitions
  define a (acl ∷ word ∷ words) = (add_acl_rule x a acl (word ∷ words)).0
  define a args = a

  abbrev pub describe : AclDefinitions → List Bytes → AclDefinitions
  describe a (acl ∷ word ∷ words) = record a {
    descriptions = insert acl (join_words (word ∷ words)) a.descriptions;
  }
  describe a args = a

  unfoldable pub load_words :
      (Bytes → AclDefinitions → Option AclDefinitions)
      → Bytes
      → Bytes
      → List Bytes
      → AclDefinitions
      → Option AclDefinitions
  load_words inner filename line [] a = some a
  load_words inner filename line (action ∷ args) a =
      if action == codes "acl"
      then some (define a args)
      else if action == codes "describe"
      then some (describe a args)
      else if action == codes "include"
      then include_files inner filename args a
      else if contains action_names action
      then some (record a {
        actions = a.actions ++ conditions line (record blank_rule { action = action }) args ∷ [];
      })
      else some a

  -- the loop over the lines
  unfoldable pub load_lines :
      (Bytes → AclDefinitions → Option AclDefinitions)
      → Bytes
      → List Bytes
      → AclDefinitions
      → Option AclDefinitions
  load_lines inner filename [] a = some a
  load_lines inner filename (line ∷ lines) a = do
    a' ← load_words inner filename line (without_comment (x.fields line)) a
    load_lines inner filename lines a'

  -- A file that cannot be opened changes nothing.
  unfoldable pub load : ℕ → Bytes → AclDefinitions → Option AclDefinitions
  load zero filename a = none
  load (suc fuel) filename a = elim (x.read_lines filename) [
    | none ↦ some a
    | some lines ↦ load_lines (load fuel) filename lines a
  ]
