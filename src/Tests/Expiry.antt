-- ===== src/Tests/Expiry.antt =====
-- A session that expires, and the login after it.
use rdfm.Base.{
  List, String, ◌<>◌, nat_eq, string_eq, true, none, some, [], ◌∷◌, ◌≡◌, refl, filter, includes,
  split,
}
use rdfm.Utils.Model.{Claims}
use rdfm.Utils.World.{World, Getter, get_header, response}
use rdfm.Utils.Access.{AdminRole, role_name, has_admin_role}
use rdfm.Utils.Fetch.{authorize}
use rdfm.Utils.Resources.{fetch_resources, login_url}
use rdfm.Utils.Resources.Laws.{got}
use rdfm.Utils.Permissions.{parse_jwt, payload_part}
use rdfm.Home.Roles.{mounted}
use rdfm.Session.{Session, or_root, before_each, log_in, start, ends_with, starts_with}
use rdfm.Session.Laws.{is_page, last_of, visit}
use rdfm.Session.Expiry.{IsReloaded, expired-returns}
use rdfm.Tests.Setup.{browser, world_at, fleet, first_stores}

abbrev walk : List String
walk = "/groups" ∷ "/devices/3" ∷ "/auth_data" ∷ []

-- The server answers every request with the status 401.
abbrev expiring : Session browser
expiring = record { world = world_at 401; pushed = [] }

abbrev left : World browser
left = (visit browser walk expiring).world

abbrev reloaded : World browser
reloaded = record (fetch_resources browser Getter.groups left).1 { stores = first_stores }

abbrev user_claims : Claims
user_claims = record { sub = "u"; preferred_username = "user"; roles = [] }

refused : got browser Getter.groups left ≡ response 401 (some (fleet ∷ []))
unfolding visit before_each starts_with
refused = refl

reloaded-IsReloaded : IsReloaded (fetch_resources browser Getter.groups left).1 reloaded
reloaded-IsReloaded = record { same_path = refl; same_token = refl }

at_auth_data : starts_with "/auth_data" "/auth_data#access_token=a.b.c" ≡ true
unfolding starts_with
at_auth_data = refl

from_auth_data : ends_with "/auth_data" "/auth_data" ≡ true
unfolding ends_with
from_auth_data = refl

token_parsed : parse_jwt browser "a.b.c" ≡ some user_claims
unfolding parse_jwt split payload_part
token_parsed = refl

expired-returns_example :
    let arrived : Session browser = record { world = reloaded; pushed = [] } in
    let t =
      log_in browser
        (λ path. true)
        (some "a.b.c")
        (before_each browser "/auth_data#access_token=a.b.c" arrived) in
    let home = mounted browser (λ s. []) t.world in
    ((fetch_resources browser Getter.groups left).1.hrefs ≡ login_url browser ∷ left.hrefs)
    × ((start browser "/auth_data" arrived).0 ≡ true)
    × (t.pushed ≡ or_root (last_of (filter is_page walk) none) ∷ [])
    × (get_header "Authorization" (authorize t.world.access_token [])
        ≡ some ("Bearer token=" <> "a.b.c"))
    × ((r : AdminRole)
        → has_admin_role home.admin_roles home.permissions r
          ≡ includes user_claims.roles (role_name r))
expired-returns_example =
    expired-returns browser (λ s. []) Getter.groups walk (λ path. true) "a.b.c" user_claims
      (some (fleet ∷ [])) expiring reloaded "/auth_data#access_token=a.b.c" "/auth_data" refused
      reloaded-IsReloaded at_auth_data from_auth_data (λ e. cc e) token_parsed
