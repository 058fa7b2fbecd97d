-- ===== src/Utils/Resources.antt =====
-- `resourcesGetter` of utils.ts: `fetchResources` refreshes what one getter holds.
pub mod Laws
pub mod Race
use rdfm.Base.{ℕ, String, ◌==◌, nat_eq, Bool, true, false, Option, none, some, List, ◌∷◌}
use rdfm.Base.{if◌then◌else◌, Exec, modify, ◌>>=◌, pure}
use rdfm.Utils.Model.{Shape, Body}
use rdfm.Utils.Endpoints.{packages_endpoint, groups_endpoint, devices_endpoint, pending_endpoint}
use rdfm.Utils.Endpoints.{login_path, tags_endpoint}
use rdfm.Utils.World.{
  Browser, World, Getter, shape, write, Resource, unreachable_url, active_polling,
}
use rdfm.Utils.Fetch.{Output, fetch_get}

-- `StatusCodes` of http-status-codes.
abbrev pub bad_request : ℕ
bad_request = 400

abbrev pub unauthorized : ℕ
unauthorized = 401

abbrev pub forbidden : ℕ
forbidden = 403

abbrev pub not_found : ℕ
not_found = 404

abbrev pub conflict : ℕ
conflict = 409

-- `code == status`, where `code` may be undefined.
abbrev pub code_is : Option ℕ → ℕ → Bool
code_is none status = false
code_is (some c) status = c == status

-- The argument of each call of `resourcesGetter`.
unfoldable pub getter_url : String → Getter → String
getter_url server Getter.pending_devices = pending_endpoint server
getter_url server Getter.registered_devices = devices_endpoint server
getter_url server Getter.device_groups = groups_endpoint server
getter_url server Getter.packages = packages_endpoint server
getter_url server Getter.package_groups = groups_endpoint server
getter_url server Getter.groups = groups_endpoint server
getter_url server Getter.group_packages = packages_endpoint server
getter_url server Getter.group_devices = devices_endpoint server

module _ (b : Browser) where
  -- `window.location.href = url`
  unfoldable pub go_to : String → World b → World b
  go_to url w = record w { hrefs = url ∷ w.hrefs }

  pub login_url : String
  login_url = login_path b.login_url b.oauth2_client b.frontend_url

  unfoldable pub put_resource : (g : Getter) → Resource (Body (shape g)) → World b → World b
  put_resource g r w = record w { stores = write g r w.stores }

  -- the three branches of `fetchResources`, once the reply is there
  unfoldable pub settle : (g : Getter) → Output (Body (shape g)) → World b → World b
  unfolding go_to login_url put_resource
  settle g out w =
      if out.success
      then put_resource g (record { resources = out.result; polling_status = active_polling }) w
      else if code_is out.code unauthorized
      then go_to login_url w
      else put_resource g (record { resources = none; polling_status = unreachable_url }) w

  unfoldable pub fetch_resources : Getter → Exec (World b) (Unit {0})
  unfolding fetch_get settle getter_url
  fetch_resources g w =
      let r = fetch_get b (shape g) (getter_url b.server_url g) w in (tt, settle g r.0 r.1)
