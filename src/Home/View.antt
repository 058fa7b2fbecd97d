-- ===== src/Home/View.antt =====
-- HomeView.vue: what the template shows, the menu of the account, the clicks, and the request of the
-- event stream.
pub mod Laws
use rdfm.Base.{
  ℕ, String, ◌<>◌, Bool, true, false, Option, none, some, List, [], ◌∷◌, map, if◌then◌else◌,
}
use rdfm.Utils.Model.{Claims}
use rdfm.Utils.Endpoints.{logout_path}
use rdfm.Utils.World.{Browser, World, Headers}
use rdfm.Utils.Resources.{login_url}
use rdfm.Home.Roles.{Role, user_name, user_roles, parsed_token}
use rdfm.Home.Tabs.{ActiveTab, tab_name, sections, Instance, Shown, shown_pages, route_name}
use rdfm.Session.{Session, starts_with}

-- A role in the menu: its name and the style of its tag.
pub record RoleTag : Type 0 where
  pub name : String
  pub border : String
  pub color : String

-- An entry of the navbar: whether it is marked, and the path that a click asks the router for.
pub record NavbarItem : Type 0 where
  pub label : String
  pub is_active : Bool
  pub target : String

-- All below the outer `div`. `login` is the address of the link, if it is shown; the entries of the
-- menu are there also while it is hidden.
pub record Main : Type 0 where
  pub login : Option String
  pub menu_shown : Bool
  pub user_name : String
  pub logout : String
  pub roles : List RoleTag
  pub navbar : List NavbarItem
  pub pages : List Shown

-- `{{ userName }}`: an undefined value is printed as nothing.
abbrev pub or_nothing : Option String → String
or_nothing none = ""
or_nothing (some name) = name

abbrev pub role_tag : Role → RoleTag
role_tag r = record { name = r.name; border = "1px solid" <> r.colour; color = r.colour }

-- `v-for` over an undefined list shows nothing.
abbrev pub role_tags : Option (List Role) → List RoleTag
role_tags none = []
role_tags (some roles) = map role_tag roles

-- `tab.startsWith(route.name)`, and `router.push('/' + tab)`
pub navbar_item : String → ActiveTab → NavbarItem
unfolding starts_with
navbar_item name tab = record {
  label = tab_name tab;
  is_active = starts_with name (tab_name tab);
  target = "/" <> tab_name tab;
}

-- Where a click falls: on the picture, elsewhere in the element `menu`, or outside of it.
pub data Place : Type 0 where
  picture menu outside : Place

abbrev pub is_contained : Place → Bool
is_contained outside = false
is_contained _ = true

-- The handler of the picture, and that of the page, to which the event bubbles.
abbrev on_picture : Place → Bool → Bool
on_picture picture menu_open = true
on_picture _ menu_open = menu_open

abbrev on_main : Place → Bool → Bool
on_main place menu_open = is_contained place

-- `accMenuOpen` after a click, in a page that is shown.
pub click : Place → Bool → Bool
click place menu_open = on_main place (on_picture place menu_open)

pub clicks : List Place → Bool → Bool
unfolding click
clicks [] menu_open = menu_open
clicks (place ∷ places) menu_open = clicks places (click place menu_open)

-- `${accessToken}` of a token that may be null
abbrev pub token_text : Option String → String
token_text none = "null"
token_text (some token) = token

abbrev pub view_by : Option String → Option Claims → Main → Option Main
view_by (some token) (some claims) m = some m
view_by _ _ m = none

module _ (b : Browser) (codes : String → List ℕ) where
  pub main_of : Bool → Bool → Instance → World b → Main
  unfolding navbar_item
  main_of logged_in menu_open i w = record {
    login = if logged_in then none else some (login_url b);
    menu_shown = menu_open;
    user_name = or_nothing (user_name b codes logged_in w);
    logout = logout_path b.logout_url b.oauth2_client b.frontend_url;
    roles = role_tags (user_roles b codes logged_in w);
    navbar = map (navbar_item (route_name i.route)) sections;
    pages = shown_pages i;
  }

  -- The outer `v-if`. A token that cannot be parsed makes the template throw, and nothing is shown.
  unfoldable pub view : Bool → Instance → World b → Option Main
  unfolding main_of
  view menu_open i w =
      view_by w.access_token (parsed_token b codes true w) (main_of true menu_open i w)

  -- The headers with which `mounted` opens the event stream, whether or not there is a token.
  pub stream_headers : World b → Headers
  stream_headers w = ("Authorization", "Bearer token=" <> token_text w.access_token) ∷ []
