-- ===== src/Acl/Load/Loaded.antt =====
-- What load makes of a configuration: each action rule has the filter of its needed ACLs, so
-- ChooseACLAction on the loaded rules is the plain choice.
use redwood_filter.Common.{
  ℕ, zero, suc, ◌+◌, ◌<◌, ◌≡◌, inl, inr, refl, sym, Bool, true, false, ◌&&◌, ◌||◌, Option, none,
  some, List, [], ◌∷◌, ◌++◌, arith, if◌then◌else◌, ◌==◌, nat_eq, Bool-cases, Option-cases, All,
  contains, Bytes, codes, bytes_eq, ◌>>=◌,
}
use redwood_filter.Common.{foldl-append}
use redwood_filter.Schedule.{parse_weekly_schedule}
use redwood_filter.Acl.{AclActionRule, AclSet, blank_rule, bloom_of, choose_acl_action}
use redwood_filter.Acl.Choose.{HasBloom, applies, first_rule, choose_acl_action-first_rule}
use redwood_filter.Acl.Load.{
  AclDefinitions, no_definitions, AclExternals, add_keyword, add_acl_rule, join_words,
}
use redwood_filter.Acl.Load.Files.{
  without_comment, action_names, conditions, included_file, include_files, define, describe,
  load_words, load_lines, load,
}
use redwood_filter.Bloom.{no_bits, add}

-- A test of what both branches keep.
if-keeps {ℓ} :
    {A : Type ℓ} (P : A → Type 0) (b : Bool) (s t : A) → P s → P t → P (if b then s else t)
if-keeps P true s t h k = h
if-keeps P false s t h k = k

found-keeps {ℓ κ} :
    {A : Type ℓ} {B : Type κ} (P : A → Type 0) (o : Option B) (s : A) (f : B → A)
    → P s
    → ((b : B) → P (f b))
    → P (elim o [ none ↦ s | some b ↦ f b ])
found-keeps P none s f h k = h
found-keeps P (some b) s f h k = k b

snoc-All :
    (r : AclActionRule) (rs : List AclActionRule)
    → All HasBloom rs
    → HasBloom r
    → All HasBloom (rs ++ r ∷ [])
snoc-All r [] h k = (k, tt)
snoc-All r (q ∷ rs) h k = (h.0, snoc-All r rs h.1 k)

map-All {ℓ} :
    {A : Type ℓ} (P Q : A → Type 0) → ((x : A) → P x → Q x) → (xs : List A) → All P xs → All Q xs
map-All P Q f [] h = tt
map-All P Q f (x ∷ xs) h = (f x h.0, map-All P Q f xs h.1)

module _ (x : AclExternals) where
  conditions-HasBloom :
      (line : Bytes) (r : AclActionRule) (ws : List Bytes)
      → HasBloom r
      → HasBloom (conditions x line r ws)
  unfolding conditions bloom_of
  conditions-HasBloom line r [] h = h
  conditions-HasBloom line r ([] ∷ ws) h = conditions-HasBloom line r ws h
  conditions-HasBloom line r ((c ∷ w) ∷ ws) h =
      if-keeps HasBloom (c == b'!') _ _
        (conditions-HasBloom line (record r { disallowed = r.disallowed ++ w ∷ [] }) ws h)
        (if-keeps HasBloom (c == b'"') _ _ h (
          conditions-HasBloom line
            (record r { needed = r.needed ++ (c ∷ w) ∷ []; bloom = add r.bloom (c ∷ w) }) ws
            (rw h (sym (foldl-append add no_bits r.needed ((c ∷ w) ∷ []))))))

  blank_filter : (action : Bytes) → HasBloom (record blank_rule { action = action })
  unfolding bloom_of
  blank_filter action = refl

  add_acl_rule-actions :
      (a : AclDefinitions) (acl : Bytes) (ws : List Bytes)
      → (add_acl_rule x a acl ws).0.actions ≡ a.actions
  unfolding add_acl_rule add_keyword
  add_acl_rule-actions a acl [] = refl
  add_acl_rule-actions a acl (w ∷ ws) =
      let same : AclDefinitions × Bool → Type 0 = λ s. s.0.actions ≡ a.actions in
      (if-keeps same (w == codes "connect-port") _ _ refl (
        if-keeps same (w == codes "content-type") _ _ refl (
          if-keeps same (w == codes "ja3") _ _ refl (
            if-keeps same (w == codes "method") _ _ refl (
              if-keeps same (w == codes "referer" || w == codes "referrer") _ _ refl (
                if-keeps same (w == codes "referer-category" || w == codes "referrer-category") _ _
                  refl
                  (if-keeps same (w == codes "server-ip") _ _ refl (
                    if-keeps same (w == codes "http-status") _ _ refl (
                      if-keeps same (w == codes "time") _ _
                        (found-keeps same (parse_weekly_schedule x.to_upper x.scan_times ws) _ _
                          refl (λ s. refl))
                        (if-keeps same (w == codes "url") _ _ refl (
                          if-keeps same (w == codes "user-agent") _ _
                            (found-keeps same (x.url.compile (codes "(?i)" ++ join_words ws)) _ _
                              refl (λ re. refl))
                            (if-keeps same (w == codes "user-ip") _ _ refl
                              (if-keeps same (w == codes "user-name") _ _ refl refl)))))))))))))

  -- The lists of definitions whose action rules have the filters of their needed ACLs.
  abbrev Filtered : AclDefinitions → Type 0
  Filtered a = All HasBloom a.actions

  abbrev Ends : Option AclDefinitions → Type 0
  Ends o = (a : AclDefinitions) × (o ≡ some a) × Filtered a

  Ends-bind :
      (o : Option AclDefinitions) (f : AclDefinitions → Option AclDefinitions)
      → Ends o
      → ((a : AclDefinitions) → Filtered a → Ends (f a))
      → Ends (o >>= f)
  Ends-bind o f (a, e, h) k = rw (e, ◌>>=◌) (k a h)

  abbrev Keeps : (AclDefinitions → Option AclDefinitions) → Type 0
  Keeps f = (a : AclDefinitions) → Filtered a → Ends (f a)

  include_files-Keeps :
      (inner : Bytes → AclDefinitions → Option AclDefinitions) (filename : Bytes) (fs : List Bytes)
      → All (λ f. Keeps (inner (included_file x filename f))) fs
      → Keeps (include_files x inner filename fs)
  unfolding include_files
  include_files-Keeps inner filename [] h a w = (a, refl, w)
  include_files-Keeps inner filename (f ∷ fs) h a w =
      Ends-bind (inner (included_file x filename f) a) (include_files x inner filename fs) (h.0 a w)
        (include_files-Keeps inner filename fs h.1)

  -- the files that a line includes
  abbrev pub includes : List Bytes → List Bytes
  includes [] = []
  includes (action ∷ args) = if action == codes "include" then args else []

  define-Filtered : (a : AclDefinitions) (ws : List Bytes) → Filtered a → Filtered (define x a ws)
  define-Filtered a [] w = w
  define-Filtered a (acl ∷ []) w = w
  define-Filtered a (acl ∷ k ∷ ks) w = rw (add_acl_rule-actions a acl (k ∷ ks)) w

  describe-Filtered :
      (a : AclDefinitions) (ws : List Bytes) → Filtered a → Filtered (describe x a ws)
  describe-Filtered a [] w = w
  describe-Filtered a (acl ∷ []) w = w
  describe-Filtered a (acl ∷ k ∷ ks) w = w

  load_words-Keeps :
      (inner : Bytes → AclDefinitions → Option AclDefinitions) (filename line : Bytes)
      (ws : List Bytes)
      → All (λ f. Keeps (inner (included_file x filename f))) (includes ws)
      → Keeps (load_words x inner filename line ws)
  unfolding load_words
  load_words-Keeps inner filename line [] h a w = (a, refl, w)
  load_words-Keeps inner filename line (action ∷ args) h a w =
      if-keeps Ends (action == codes "acl") _ _ (define x a args, refl, define-Filtered a args w)
        (if-keeps Ends (action == codes "describe") _ _
          (describe x a args, refl, describe-Filtered a args w)
          (elim (Bool-cases (action == codes "include")) [
            | inl e ↦
                let fs : All (λ f. Keeps (inner (included_file x filename f))) args = rw e at h in
                rw e (include_files-Keeps inner filename args fs a w)
            | inr e ↦
                let r = conditions x line (record blank_rule { action = action }) args in
                rw e (
                  if-keeps Ends (contains action_names action) _ _
                    (
                      record a { actions = a.actions ++ r ∷ [] },
                      refl,
                      snoc-All r a.actions w (
                          conditions-HasBloom line (record blank_rule { action = action }) args
                            (blank_filter action)),
                    )
                    (a, refl, w))
          ]))

  load_lines-Keeps :
      (inner : Bytes → AclDefinitions → Option AclDefinitions) (filename : Bytes)
      (lines : List Bytes)
      → All
          (λ line.
            All
              (λ f. Keeps (inner (included_file x filename f)))
              (includes (without_comment (x.fields line))))
          lines
      → Keeps (load_lines x inner filename lines)
  unfolding load_lines
  load_lines-Keeps inner filename [] h a w = (a, refl, w)
  load_lines-Keeps inner filename (line ∷ lines) h a w =
      Ends-bind (load_words x inner filename line (without_comment (x.fields line)) a)
        (load_lines x inner filename lines)
        (load_words-Keeps inner filename line (without_comment (x.fields line)) h.0 a w)
        (load_lines-Keeps inner filename lines h.1)

  -- Files are included from above: no file includes itself, through whatever files.
  abbrev pub IsNested : (Bytes → ℕ) → Type 0
  IsNested depth =
      (filename : Bytes) (lines : List Bytes)
      → x.read_lines filename ≡ some lines
      → All
          (λ line.
            All (λ f. depth (included_file x filename f) < depth filename)
              (includes (without_comment (x.fields line))))
          lines

  load-Keeps :
      (depth : Bytes → ℕ)
      → IsNested depth
      → (fuel : ℕ) (filename : Bytes) → depth filename < fuel
      → Keeps (load x fuel filename)
  unfolding load
  load-Keeps depth nested zero filename h a w = absurd (omega (arith, h))
  load-Keeps depth nested (suc fuel) filename h a w = elim (Option-cases (x.read_lines filename)) [
    | inl e ↦ rw (load, e) (a, refl, w)
    | inr (lines, e) ↦
        rw (load, e)
          (load_lines-Keeps (load x fuel) filename lines
            (map-All _ _
              (λ line.
                map-All _ _
                  (λ f k.
                    load-Keeps depth nested fuel (included_file x filename f) (omega (arith, h, k)))
                  (includes (without_comment (x.fields line))))
              lines (nested filename lines e))
            a w)
  ]

  -- Where no file includes itself: load ends with as much fuel as the files are deep, and on the
  -- rules that it loads into an empty configuration, ChooseACLAction returns the first whose action
  -- is among the given ones, whose needed ACLs are all in the set and whose disallowed ACLs are not,
  -- or the blank rule.
  pub load-first_rule :
      (depth : Bytes → ℕ) (filename : Bytes)
      → IsNested depth
      → (a : AclDefinitions) × (load x (depth filename + 1) filename no_definitions ≡ some a)
        × ((acls : AclSet) (actions : List Bytes)
            → choose_acl_action a.actions acls actions
              ≡ first_rule (λ r. contains actions r.action && applies acls r) a.actions)
  load-first_rule depth filename nested =
      let (a, e, h) =
        load-Keeps depth nested (depth filename + 1) filename (omega arith) no_definitions tt in
      (a, e, λ acls actions. choose_acl_action-first_rule a.actions acls actions h)
