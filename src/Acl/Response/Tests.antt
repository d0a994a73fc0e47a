-- ===== src/Acl/Response/Tests.antt =====
-- A response to an image, and the witnesses.
use redwood_filter.Common.{◌≡◌, refl, some, Bytes, none, [], ◌∷◌, nat_eq, codes, bytes_eq}
use redwood_filter.Acl.Load.{no_definitions}
use redwood_filter.Acl.Response.{Response, ResponseExternals, response_acls}
use redwood_filter.Acl.Response.Added.{response_acls-keeps_body}

abbrev response_externals : ResponseExternals
response_externals = record {
  media_type = λ s. s;
  detect = λ s. codes "image/png";
  read_size = λ s. 4;
  scripts = λ r. (codes "scripted" ∷ [], record r { status = 200 });
}

abbrev image : Response
image = record { content_type = none; body = codes "1234567"; status = 404 }

response_acls-keeps_body_example :
    ((response_acls response_externals no_definitions image).1.body ≡ codes "1234567")
    × ((t : Bytes)
        → image.content_type ≡ some t
        → (response_acls response_externals no_definitions image).1.content_type ≡ some t)
response_acls-keeps_body_example =
    response_acls-keeps_body response_externals no_definitions image (λ s. (refl, refl))
