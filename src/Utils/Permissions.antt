-- ===== src/Utils/Permissions.antt =====
-- `updatePermissions` of utils.ts, and the token that it reads.
use rdfm.Base.{String, ◌==◌, string_eq, Bool, true, false, Option, none, some, List, ◌∷◌}
use rdfm.Base.{filter, split, Exec}
use rdfm.Utils.Model.{Permission, Shape, Claims}
use rdfm.Utils.Endpoints.{permissions_endpoint}
use rdfm.Utils.World.{Browser, World}
use rdfm.Utils.Fetch.{fetch_get}

-- `token.split('.')[1]`
unfoldable pub payload_part : List String → Option String
payload_part (head ∷ payload ∷ rest) = some payload
payload_part _ = none

module _ (b : Browser) where
  -- `JSON.parse(atob(token.split('.')[1]))`; `none` is an exception, as for a missing part.
  unfoldable pub parse_jwt : String → Option Claims
  unfolding payload_part
  parse_jwt token = elim (payload_part (split b'.' token)) [
    | none ↦ none
    | some payload ↦ b.decode_claims payload
  ]

  -- the callback of `then`; with no data it throws, and the permissions stay
  abbrev pub keep_own : String → Option (List Permission) → World b → World b
  keep_own sub none w = w
  keep_own sub (some ps) w = record w { permissions = filter (λ p. p.user_id == sub) ps }

  -- The claims of the stored token; `none` if there is no token or it cannot be parsed.
  unfoldable pub stored_claims : World b → Option Claims
  unfolding parse_jwt
  stored_claims w = elim w.access_token [ none ↦ none | some token ↦ parse_jwt token ]

  -- False if it throws, which it does before any request.
  unfoldable pub update_permissions : Exec (World b) Bool
  unfolding stored_claims fetch_get
  update_permissions w = elim (stored_claims w) [
    | none ↦ (false, w)
    | some claims ↦
        let r = fetch_get b Shape.permissions (permissions_endpoint b.server_url) w in
        (true, keep_own claims.sub r.0.result r.1)
  ]
