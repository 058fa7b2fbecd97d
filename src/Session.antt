-- ===== src/Session.antt =====
-- The session of a user: router/index.ts (the guard of the navigation), views/LoginHandler.vue,
-- views/LogoutHandler.vue and the test in main.ts.
pub mod Laws
pub mod Expiry
pub mod Routes
use Prim.Native.Char.{Char, code}
use Prim.Native.String
use rdfm.Base.{
  ℕ, ◌==◌, nat_eq, string_eq, String, Bool, true, false, not, ◌&&◌, ◌||◌, Option, none, some,
}
use rdfm.Base.{List, [], ◌∷◌, if◌then◌else◌}
use rdfm.Utils.World.{Browser, World}
use rdfm.Utils.Form.{is_falsy}
use rdfm.Utils.Resources.{go_to, login_url}

-- `s.startsWith(prefix)` and `s.endsWith(suffix)`
unfoldable pub starts_with : String → String → Bool
starts_with String.[] s = true
starts_with (String.◌∷◌ c prefix) String.[] = false
starts_with (String.◌∷◌ c prefix) (String.◌∷◌ d s) = code c == code d && starts_with prefix s

unfoldable pub ends_with : String → String → Bool
ends_with suffix String.[] = suffix == ""
ends_with suffix (String.◌∷◌ c s) = suffix == String.◌∷◌ c s || ends_with suffix s

-- `localStorage.getItem('current_path') ?? '/'`
abbrev pub or_root : Option String → String
or_root none = "/"
or_root (some path) = path

-- The world, and the paths that the program asked the router for, the latest first.
pub record Session (b : Browser) : Type 0 where
  pub world : World b
  pub pushed : List String

module _ (b : Browser) where
  -- `router.beforeEach`, for the full path of the target
  unfoldable pub before_each : String → Session b → Session b
  unfolding starts_with
  before_each path s =
      if starts_with "/auth_data" path
      then s
      else record s { world = record s.world { current_path = some path } }

  -- `resolves` says of a path that `router.resolve` matches it.
  enter : (String → Bool) → String → Session b → Session b
  enter resolves token s =
      let path = or_root s.world.current_path in
      record s {
        world = record s.world { access_token = some token };
        pushed = (if resolves path then path else "/") ∷ s.pushed;
      }

  -- `mounted` of LoginHandler.vue, for `params.get('access_token')`
  pub log_in : (String → Bool) → Option String → Session b → Session b
  unfolding enter
  log_in resolves none s = record s { world = go_to b (login_url b) s.world }
  log_in resolves (some token) s =
      if token == ""
      then record s { world = go_to b (login_url b) s.world }
      else enter resolves token s

  -- `setup` of LogoutHandler.vue
  pub log_out : Session b → Session b
  log_out s = record s { world = record s.world { access_token = none }; pushed = "/" ∷ s.pushed }

  -- The test in main.ts, for `window.location.pathname`: true if the application is started.
  pub start : String → Session b → Bool × Session b
  start path s =
      if is_falsy s.world.access_token && not (ends_with "/auth_data" path)
      then (false, record s { world = go_to b (login_url b) s.world })
      else (true, s)
