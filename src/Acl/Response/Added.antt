-- ===== src/Acl/Response/Added.antt =====
-- A content-type rule of an ACL, against the ACLs of a response.
use redwood_filter.Common.{
  ℕ, zero, suc, ◌≡◌, inl, inr, refl, ap, ◌∙◌, Bool, true, false, ◌&&◌, ◌||◌, none, some, List, [],
  ◌∷◌, ◌++◌, arith, ltb, ◌==◌, nat_eq, ==→eq, Bool-cases, length, take, drop, contains,
  contains-append, Bytes, codes, bytes_beq_iff, bytes_eq,
}
use redwood_filter.Acl.{AclSet, has}
use redwood_filter.Acl.Load.{AclDefinitions, AclExternals, append_keys, add_acl_rule}
use redwood_filter.Acl.Response.{
  Response, ResponseExternals, header, is_unknown, add_names, add_generic, generic_type, preview,
  detected, response_acls,
}
use redwood_filter.Common.GoMap.{GoMap, lookup_or, insert, lookup_or-insert}
use redwood_filter.Common.Int.{int_eq}

pub has-add_names :
    (acls : AclSet) (names : List Bytes) (b : Bytes)
    → has (add_names acls names) b ≡ (has acls b || contains names b)
has-add_names acls [] b = ground arith
has-add_names acls (a ∷ names) b =
    has-add_names (insert a true acls) names b
    ∙ rw (lookup_or-insert a b true false acls)
        (ground (arith, bytes_beq_iff a b, bytes_beq_iff b a))

absorb : (p q c : Bool) → ((p || (q || false)) || (q && c)) ≡ (p || (q && true))
absorb p q c = ground arith

-- The names at a key behind `append_keys`.
pub append_keys-contains :
    (m : GoMap Bytes (List Bytes)) (acl : Bytes) (ks : List Bytes) (k b : Bytes)
    → contains (lookup_or k [] (append_keys m acl ks)) b
      ≡ (contains (lookup_or k [] m) b || (acl == b && contains ks k))
append_keys-contains m acl [] k b = ground arith
append_keys-contains m acl (j ∷ ks) k b =
    append_keys-contains (insert j (lookup_or j [] m ++ acl ∷ []) m) acl ks k b
    ∙ (elim (Bool-cases (j == k)) [
      | inl e ↦
          rw
            (
              lookup_or-insert j k (lookup_or j [] m ++ acl ∷ []) [] m,
              e,
              ==→eq j k e,
              contains-append (lookup_or k [] m) (acl ∷ []) b,
            )
            (absorb (contains (lookup_or k [] m) b) (acl == b) (contains ks k))
      | inr e ↦ rw (lookup_or-insert j k (lookup_or j [] m ++ acl ∷ []) [] m, e) refl
    ])

-- Whether the type, or its first part with an asterisk, is among these.
abbrev pub type_hit : List Bytes → Bytes → Bool
type_hit cts t =
    contains cts t || (elim (generic_type t) [ none ↦ false | some g ↦ contains cts g ])

module _ (x : ResponseExternals) (y : AclExternals) where
  abbrev added : AclDefinitions → Bytes → List Bytes → AclDefinitions
  added a acl cts = (add_acl_rule y a acl (codes "content-type" ∷ cts)).0

  by_type : AclDefinitions → Bytes → AclSet
  by_type a t = add_generic x a (generic_type t) (add_names [] (lookup_or t [] a.content_types))

rejoin : (k : ℕ) (s : Bytes) → take k s ++ drop (length (take k s)) s ≡ s
rejoin zero s = refl
rejoin (suc k) [] = refl
rejoin (suc k) (c ∷ s) = ap (λ z. c ∷ z) (rejoin k s)

module _ (x : ResponseExternals) where
  detected-body : (r : Response) → (detected x r).1.body ≡ r.body
  unfolding detected
  detected-body r =
      elim (Bool-cases (is_unknown (x.media_type (header r)) && ltb 0 (length (preview x r)))) [
        | inl e ↦ rw (detected, e) (rejoin (x.read_size r.body) r.body)
        | inr e ↦ rw (detected, e) refl
      ]

  detected-content_type :
      (r : Response) (t : Bytes) → r.content_type ≡ some t → (detected x r).1.content_type ≡ some t
  unfolding detected
  detected-content_type r t h =
      elim (Bool-cases (is_unknown (x.media_type (header r)) && ltb 0 (length (preview x r)))) [
        | inl e ↦ rw (detected, e, h) refl
        | inr e ↦ rw (detected, e) h
      ]

  -- Where no script changes the body or the content type, responseACLs leaves the whole body,
  -- though it reads the start of it to find the type out, and a content type that the response has
  -- from the start.
  pub response_acls-keeps_body :
      (a : AclDefinitions) (r : Response)
      → ((s : Response)
          → ((x.scripts s).1.body ≡ s.body) × ((x.scripts s).1.content_type ≡ s.content_type))
      → ((response_acls x a r).1.body ≡ r.body)
        × ((t : Bytes) → r.content_type ≡ some t → (response_acls x a r).1.content_type ≡ some t)
  unfolding response_acls
  response_acls-keeps_body a r quiet =
      let s = (detected x r).1 in
      ((quiet s).0 ∙ detected-body r, λ t h. (quiet s).1 ∙ detected-content_type r t h)
