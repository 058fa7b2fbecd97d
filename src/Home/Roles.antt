-- ===== src/Home/Roles.antt =====
-- The user in HomeView.vue: the claims of the token, the roles among them, and what is loaded once
-- the user is known to be logged in.
pub mod Laws
use Prim.Native.String
use Prim.Native.Nat.{Ordering}
use rdfm.Base.{ℕ, String, Bool, true, false, Option, none, some, List, map, filter, sort}
use rdfm.Utils.Model.{Shape, Claims}
use rdfm.Utils.Endpoints.{permissions_endpoint}
use rdfm.Utils.World.{Browser, World}
use rdfm.Utils.Fetch.{fetch_get}
use rdfm.Utils.Resources.{go_to, login_url}
use rdfm.Utils.Permissions.{stored_claims, keep_own}
use rdfm.Home.Colour.{string_to_colour}
use rdfm.Session.{starts_with}

pub record Role : Type 0 where
  pub name : String
  pub colour : String

abbrev no_greater : Ordering → Bool
no_greater Ordering.gt = false
no_greater _ = true

-- `.filter((role) => role.startsWith('rdfm')).sort()`; the order is that of the characters' codes.
pub role_names : List String → List String
unfolding starts_with
role_names roles = sort (λ s t. no_greater (String.compare s t)) (filter (starts_with "rdfm") roles)

-- `codes s` are the UTF-16 codes of the characters of `s`.
module _ (b : Browser) (codes : String → List ℕ) where
  -- `parsedToken`; `none` stands also for a token that cannot be parsed.
  abbrev pub parsed_token : Bool → World b → Option Claims
  parsed_token true w = stored_claims b w
  parsed_token false w = none

  abbrev name_of : Option Claims → Option String
  name_of none = none
  name_of (some claims) = some claims.preferred_username

  unfoldable pub user_name : Bool → World b → Option String
  user_name logged_in w = name_of (parsed_token logged_in w)

  abbrev roles_of : Option Claims → Option (List Role)
  roles_of none = none
  roles_of (some claims) = some (
      map (λ r. record { name = r; colour = string_to_colour (codes r) }) (role_names claims.roles))

  unfoldable pub user_roles : Bool → World b → Option (List Role)
  unfolding role_names
  user_roles logged_in w = roles_of (parsed_token logged_in w)

  -- The watcher of `userRoles`, for the claims of the token.
  pub on_user_roles : Claims → World b → World b
  unfolding role_names
  on_user_roles claims w =
      let v = record w { admin_roles = role_names claims.roles } in
      let r = fetch_get b Shape.permissions (permissions_endpoint b.server_url) v in
      keep_own b claims.sub r.0.result r.1

  -- By the stored token, and its claims if it can be parsed.
  unfoldable pub entered : Option String → Option Claims → World b → World b
  unfolding on_user_roles
  entered none parsed w = go_to b (login_url b) w
  entered (some token) none w = w
  entered (some token) (some claims) w = on_user_roles claims w

  -- `mounted` up to the event stream, with the watchers that it sets off.
  unfoldable pub mounted : World b → World b
  unfolding entered
  mounted w = entered w.access_token (parsed_token true w) w
