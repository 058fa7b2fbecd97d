-- ===== src/Groups/Requests/SharedHeaders.antt =====
-- groups.ts makes one `Headers` object for all its requests but the removal of a group, and `fetchWrapper` writes the token
-- into the object that it is given.
use rdfm.Base.{String, ◌<>◌, string_eq, eq_iff, Option, none, some, List}
use rdfm.Base.{[], ◌∷◌, ◌≡◌, ◌≢◌, ◌∙◌, arith}
use rdfm.Utils.World.{Browser, World, Request, RequestBody, get_header}
use rdfm.Utils.Fetch.{authorize}
use rdfm.Utils.Fetch.Laws.{get_header-authorize}
use rdfm.Groups.Requests.{fetch_shared}

-- The header of the request sent last.
abbrev pub sent_header : String → List Request → Option String
sent_header name [] = none
sent_header name (req ∷ reqs) = get_header name req.headers

module _ (b : Browser) where
  -- The token is gone, as after `localStorage.removeItem('access_token')`.
  abbrev pub forget_token : World b → World b
  forget_token w = record w { access_token = none }

  -- After a request with the shared object and a token that is not empty, and once the token is
  -- removed, the next request with the shared object still carries that token, to whatever endpoint
  -- it goes. The requests with this object are those that create a group or change its devices,
  -- packages, priority or policy; refreshes and the removal of a group have headers of their own.
  pub fetch_shared-keeps_token :
      (url method url' method' : String) (body body' : RequestBody) (token : String) (w : World b)
      → w.access_token ≡ some token
      → token ≢ ""
      → let w₁ = forget_token (fetch_shared b url method body w).1 in
        sent_header "Authorization" (fetch_shared b url' method' body' w₁).1.sent
        ≡ some ("Bearer token=" <> token)
  unfolding fetch_shared authorize
  fetch_shared-keeps_token url method url' method' body body' token w e ne = rw e (
      get_header-authorize (some token) "Authorization" w.group_headers
      ∙ ground (arith, eq_iff token "", eq_iff "Authorization" "Authorization"))
