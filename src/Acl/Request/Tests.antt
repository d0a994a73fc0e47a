-- ===== src/Acl/Request/Tests.antt =====
-- A request, and the witness.
use redwood_filter.Common.{
  ◌≡◌, refl, true, ◌&&◌, ◌||◌, none, some, [], ◌∷◌, ◌==◌, nat_eq, contains, Bytes, codes, bytes_eq,
}
use redwood_filter.Acl.{AclSet, has}
use redwood_filter.Acl.Load.{no_definitions, add_acl_rule}
use redwood_filter.Acl.Load.Tests.{acl_externals}
use redwood_filter.Acl.Request.{Request, RequestExternals, request_acls}
use redwood_filter.Acl.Request.Added.{request_acls-method}
use redwood_filter.Common.Int.{pos}

abbrev request_externals : RequestExternals
request_externals = record {
  acl = acl_externals;
  split_host_port = λ s. none;
  parse_url = λ s. none;
  device_groups = λ user. codes "staff" ∷ [];
  category_scores = λ u. [];
  day = 1;
  hour = pos 12;
  minute = pos 30;
  scripts = λ r user. [];
}

abbrev post : Request
post = record {
  remote_addr = codes "10.0.0.5";
  method = codes "POST";
  host = codes "example.com";
  url = record {
    scheme = codes "http";
    host = codes "example.com";
    path = codes "/";
    raw_query = [];
  };
  referer = [];
  user_agent = [];
  fingerprint = none;
}

request_acls-method_example :
    (acls : AclSet) × (request_acls request_externals
        (add_acl_rule acl_externals no_definitions
          (codes "upload")
          (codes "method" ∷ codes "PUT" ∷ codes "POST" ∷ [])).0
        post
        (codes "kim")
      ≡ some acls)
    × ((b : Bytes)
        → has acls b ≡ (
            has ((codes "staff", true) ∷ []) b
            || (codes "upload" == b && contains (codes "PUT" ∷ codes "POST" ∷ []) (codes "POST"))))
unfolding request_acls redwood_filter.Acl.Request.names_of_urls
request_acls-method_example =
    request_acls-method request_externals no_definitions (codes "upload")
      (codes "PUT" ∷ codes "POST" ∷ []) post (codes "kim") ((codes "staff", true) ∷ []) refl
