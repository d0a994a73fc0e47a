-- ===== src/Acl/Request/Added.antt =====
-- A method rule of an ACL, against the ACLs of a request.
use redwood_filter.Common.{
  ◌≡◌, inl, inr, refl, ◌∙◌, Bool, not, ◌&&◌, ◌||◌, none, some, List, [], ◌∷◌, arith, if◌then◌else◌,
  ◌==◌, nat_eq, Option-cases, contains, Bytes, codes, bytes_eq, ◌>>=◌,
}
use redwood_filter.Acl.{AclSet, has}
use redwood_filter.Acl.Load.{AclDefinitions, append_keys, add_keyword, add_acl_rule}
use redwood_filter.Acl.Request.{
  Request, RequestExternals, is_nothing, names_of_agents, names_of_times, names_of_address,
  names_of_remote, server_of, names_of_user, names_of_port, names_of_urls, names_of_fingerprint,
  request_acls,
}
use redwood_filter.Acl.Response.{add_names}
use redwood_filter.Acl.Response.Added.{has-add_names, append_keys-contains}
use redwood_filter.Common.GoMap.{GoMap, lookup_or}
use mathlib.Core.Option.{some-injective}

-- The second set has the ACL too, if the test passes.
abbrev Plus : Bytes → Bool → AclSet → AclSet → Type 0
Plus acl hit s s' = (b : Bytes) → has s' b ≡ (has s b || (acl == b && hit))

swapped : (g h n : Bool) → ((g || h) || n) ≡ ((g || n) || h)
swapped g h n = ground arith

grouped : (g c h : Bool) → (g || (c || h)) ≡ ((g || c) || h)
grouped g c h = ground arith

add_names-Plus :
    (acl : Bytes) (hit : Bool) (s s' : AclSet) (names : List Bytes)
    → Plus acl hit s s'
    → Plus acl hit (add_names s names) (add_names s' names)
add_names-Plus acl hit s s' names h b =
    rw (has-add_names s names b, has-add_names s' names b, h b)
      (swapped (has s b) (acl == b && hit) (contains names b))

method-Plus :
    (acl : Bytes) (ms : List Bytes) (m : Bytes) (methods : GoMap Bytes (List Bytes)) (s : AclSet)
    → Plus acl
        (contains ms m)
        (add_names s (lookup_or m [] methods))
        (add_names s (lookup_or m [] (append_keys methods acl ms)))
method-Plus acl ms m methods s b =
    rw
      (
        has-add_names s (lookup_or m [] (append_keys methods acl ms)) b,
        has-add_names s (lookup_or m [] methods) b,
        append_keys-contains methods acl ms m b,
      )
      (grouped (has s b) (contains (lookup_or m [] methods) b) (acl == b && contains ms m))

add_all : AclSet → List (List Bytes) → AclSet
add_all s [] = s
add_all s (names ∷ more) = add_all (add_names s names) more

add_all-Plus :
    (acl : Bytes) (hit : Bool) (s s' : AclSet) (more : List (List Bytes))
    → Plus acl hit s s'
    → Plus acl hit (add_all s more) (add_all s' more)
unfolding add_all
add_all-Plus acl hit s s' [] h = h
add_all-Plus acl hit s s' (names ∷ more) h =
    add_all-Plus acl hit (add_names s names) (add_names s' names) more
      (add_names-Plus acl hit s s' names h)

module _ (x : RequestExternals) where
  -- requestACLs after AddRule with "method", where it returned a set before: it returns a set that
  -- has the ACL if the set before had it, or if the method of the request is among the arguments;
  -- every other ACL is in it as before.
  pub request_acls-method :
      (a : AclDefinitions) (acl : Bytes) (ms : List Bytes) (r : Request) (user : Bytes)
      (acls : AclSet)
      → request_acls x a r user ≡ some acls
      → (acls' : AclSet) × (request_acls x (add_acl_rule x.acl a acl (codes "method" ∷ ms)).0 r user
          ≡ some acls')
        × ((b : Bytes) → has acls' b ≡ (has acls b || (acl == b && contains ms r.method)))
  unfolding request_acls add_acl_rule add_keyword add_all
  request_acls-method a acl ms r user acls h =
      elim (Option-cases (names_of_remote x a.user_ips (x.split_host_port r.remote_addr))) [
        | inl e ↦ let no : none ≡ some acls = rw (request_acls, e, ◌>>=◌) at h in cc no
        | inr (n1, e1) ↦
            elim (Option-cases
              (names_of_urls x a.url_tags a.referers a.referer_categories r a.urls)) [
                | inl e ↦ let no : none ≡ some acls = rw (request_acls, e1, e, ◌>>=◌) at h in cc no
                | inr (n2, e2) ↦
                    elim (Option-cases (
                      names_of_address x a.server_ips
                        (server_of x r.url.host (x.split_host_port r.url.host)))) [
                          | inl e ↦
                              let no : none ≡ some acls =
                                rw (request_acls, e1, e2, e, ◌>>=◌) at h in
                              cc no
                          | inr (n3, e3) ↦
                              let agents : List Bytes =
                                if not (is_nothing r.user_agent)
                                then names_of_agents r.user_agent a.user_agents
                                else [] in
                              let more : List (List Bytes) =
                                names_of_port x a r
                                ∷ names_of_times x a.times
                                ∷ n2
                                ∷ n3
                                ∷ agents
                                ∷ names_of_fingerprint x a.ja3_fingerprints r.fingerprint
                                ∷ x.scripts r user
                                ∷ [] in
                              let before = add_names (add_names [] n1) (names_of_user x a user) in
                              let old = add_names before (lookup_or r.method [] a.methods) in
                              let new =
                                add_names before
                                  (lookup_or r.method [] (append_keys a.methods acl ms)) in
                              let same : add_all old more ≡ acls =
                                some-injective _ _ (rw (request_acls, e1, e2, e3, ◌>>=◌) at h) in
                              (
                                add_all new more,
                                rw (request_acls, e1, e2, e3, ◌>>=◌) refl,
                                λ b.
                                    add_all-Plus acl (contains ms r.method) old new more
                                      (method-Plus acl ms r.method a.methods before) b
                                    ∙ rw same refl,
                              )
                        ]
              ]
      ]
