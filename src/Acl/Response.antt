-- ===== src/Acl/Response.antt =====
-- acl.go, responseACLs: the ACLs of a response, by its content type, its status and the scripts.
-- Parameters are mime.ParseMediaType (its first result), http.DetectContentType, how many bytes
-- the first Read of a body gives, and the scripts, which add ACLs and can change the response.
pub mod Added
mod Tests
use redwood_filter.Common.{
  ℕ, ◌*◌, ◌/◌, Bool, true, ◌&&◌, Option, none, some, List, [], ◌∷◌, ◌++◌, ltb, if◌then◌else◌,
  nat_eq, length, take, drop, contains, Bytes, codes, bytes_eq,
}
use redwood_filter.Acl.{AclSet}
use redwood_filter.Acl.Load.{AclDefinitions}
use redwood_filter.Common.GoMap.{lookup_or, insert}
use redwood_filter.Common.Int.{ℤ, pos, int_eq}
use redwood_filter.Common.Text.{cut}

pub record Response : Type 0 where
  pub content_type : Option Bytes
  pub body : Bytes
  pub status : ℕ

pub record ResponseExternals : Type 0 where
  pub media_type : Bytes → Bytes
  pub detect : Bytes → Bytes
  pub read_size : Bytes → ℕ
  -- the ACLs that the scripts add, and the response as they leave it
  pub scripts : Response → List Bytes × Response

-- acls[a] = true, for each name
abbrev pub add_names : AclSet → List Bytes → AclSet
add_names acls [] = acls
add_names acls (a ∷ names) = add_names (insert a true acls) names

-- resp.Header.Get("Content-Type")
abbrev pub header : Response → Bytes
header r = elim r.content_type [ none ↦ [] | some t ↦ t ]

abbrev pub is_unknown : Bytes → Bool
is_unknown t =
    contains (codes "unknown/unknown" ∷ codes "application/unknown" ∷ codes "*/*" ∷ [] ∷ []) t

abbrev pub or_header : Option Bytes → Bytes → Option Bytes
or_header none t = some t
or_header (some s) t = some s

-- ct[:slash+1] + "*"
abbrev pub generic_type : Bytes → Option Bytes
generic_type t = elim (cut b'/' t) [ none ↦ none | some (p, q) ↦ some (p ++ codes "/*") ]

module _ (x : ResponseExternals) where
  abbrev pub preview : Response → Bytes
  preview r = take (x.read_size r.body) r.body

  -- the content type, by its start where the header does not tell, and the response with its body
  -- put together again
  unfoldable pub detected : Response → Bytes × Response
  detected r =
      let t = x.media_type (header r) in
      let n = length (preview r) in
      let found = x.media_type (x.detect (preview r)) in
      if is_unknown t && ltb 0 n
      then (
        found,
        record r {
          content_type = or_header r.content_type found;
          body = preview r ++ drop n r.body;
        },
      )
      else (t, r)

  -- the names of the content type, and of its first part with an asterisk
  abbrev pub add_generic : AclDefinitions → Option Bytes → AclSet → AclSet
  add_generic a none acls = acls
  add_generic a (some g) acls = add_names acls (lookup_or g [] a.content_types)

  abbrev pub status_of : ℕ → ℤ
  status_of n = pos n

  -- the ACLs, and the response as it is left
  unfoldable pub response_acls : AclDefinitions → Response → AclSet × Response
  unfolding detected
  response_acls a r =
      let (t, r') = detected r in
      let by_type =
        add_generic a (generic_type t) (add_names [] (lookup_or t [] a.content_types)) in
      let by_status = add_names by_type (lookup_or (status_of r.status) [] a.status_codes) in
      let hundreds = r.status / 100 * 100 in
      let by_hundreds = add_names by_status (lookup_or (status_of hundreds) [] a.status_codes) in
      let (names, r'') = x.scripts r' in (add_names by_hundreds names, r'')
