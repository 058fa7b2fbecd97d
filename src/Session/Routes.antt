-- ===== src/Session/Routes.antt =====
-- The table of routes in router/index.ts, and the start of the application in main.ts.
use rdfm.Base.{
  String, ◌<>◌, ◌==◌, string_eq, Bool, true, false, not, ◌&&◌, Option, none, some, List, [], ◌∷◌,
  ◌++◌, map, any, filter, ◌≡◌, refl, if◌then◌else◌,
}
use rdfm.Utils.World.{Browser}
use rdfm.Utils.Form.{is_falsy, text_value}
use rdfm.Utils.Resources.{login_url, go_to}
use rdfm.Home.Tabs.{
  ActiveTab, tab_name, sections, device, devices, packages, groups, Route, section, one_device,
  with_tag, route_name,
}
use rdfm.Session.{Session, start, ends_with}

-- `component`, with the prop `activeTab` of the home view; a redirect has none.
pub data Target : Type 0 where
  home : ActiveTab → Target
  login_handler logout_handler : Target
  redirect : String → Target

pub record RouteRecord : Type 0 where
  pub path : String
  pub name : Option String
  pub target : Target

abbrev section_record : ActiveTab → RouteRecord
section_record tab = record {
  path = "/" <> tab_name tab;
  name = some (tab_name tab);
  target = home tab;
}

pub routes : List RouteRecord
routes =
    record { path = "/"; name = none; target = redirect "/groups" }
    ∷ (map section_record sections
        ++ (record { path = "/devices/:id"; name = some (tab_name device); target = home device }
            ∷ record {
              path = "/devices/tag/:tag";
              name = some (tab_name devices <> " with tag");
              target = home devices;
            }
            ∷ record { path = "/auth_data"; name = some "login"; target = login_handler }
            ∷ record { path = "/logout"; name = some "logout"; target = logout_handler }
            ∷ []))

abbrev has_name : String → RouteRecord → Bool
has_name name r = not (is_falsy r.name) && text_value r.name == name

abbrev leads_home : RouteRecord → Bool
leads_home r = elim r.target [ home tab ↦ true | _ ↦ false ]

-- A route of the home view that the table has: `device` is no section.
abbrev is_listed : Route → Bool
is_listed (section device) = false
is_listed _ = true

-- Each route of the home view has one entry with its name, and that entry shows the home view.
pub routes-route_name :
    (r : Route)
    → is_listed r ≡ true
    → map leads_home (filter (has_name (route_name r)) routes) ≡ true ∷ []
unfolding routes
routes-route_name (section device) h = refl
routes-route_name (section devices) h = refl
routes-route_name (section packages) h = refl
routes-route_name (section groups) h = refl
routes-route_name (one_device id) h = refl
routes-route_name (with_tag tag) h = refl

-- The root leads to a page of the table.
pub redirect-routes :
    any
      (λ r. elim r.target [
        | redirect to ↦ any (λ q. q.path == to && leads_home q) routes
        | _ ↦ false
      ])
      routes
    ≡ true
unfolding routes
redirect-routes = refl

-- What main.ts does to the document.
pub data Effect : Type 0 where
  favicon stylesheet : String → Effect
  mounted : Effect

-- `if (import.meta.env.VITE_…)`: unset or empty, there is nothing to do.
abbrev if_set : (String → Effect) → Option String → List Effect
if_set f value = if is_falsy value then [] else f (text_value value) ∷ []

module _ (b : Browser) (custom_favicon custom_stylesheet : Option String) where
  -- main.ts, for `window.location.pathname`
  pub boot : String → Session b → List Effect × Session b
  unfolding start
  boot path s =
      let r = start b path s in
      (
        if r.0
            then if_set favicon custom_favicon
              ++ (if_set stylesheet custom_stylesheet ++ mounted ∷ [])
            else [],
        r.1,
      )

  -- Without a token and not at the page of the login, nothing is done to the document.
  pub boot-no_token :
      (path : String) (s : Session b)
      → is_falsy s.world.access_token ≡ true
      → ends_with "/auth_data" path ≡ false
      → boot path s ≡ ([], record s { world = go_to b (login_url b) s.world })
  unfolding boot start
  boot-no_token path s e h = rw (e, h) refl
