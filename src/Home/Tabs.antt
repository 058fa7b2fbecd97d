-- ===== src/Home/Tabs.antt =====
-- The routes of router/index.ts, and which pages and tabs an instance of HomeView.vue shows for them.
pub mod Laws
use rdfm.Base.{
  String, ◌<>◌, ◌==◌, string_eq, Bool, true, false, Option, none, some, List, [], ◌∷◌, ◌++◌, filter,
  if◌then◌else◌,
}
use rdfm.Session.{starts_with}

pub data ActiveTab : Type 0 where
  device devices packages groups : ActiveTab

abbrev pub tab_name : ActiveTab → String
tab_name device = "device"
tab_name devices = "devices"
tab_name packages = "packages"
tab_name groups = "groups"

abbrev pub sections : List ActiveTab
sections = devices ∷ packages ∷ groups ∷ []

-- The routes to `HomeView`: one for each section, one for a device, one for a tag.
pub data Route : Type 0 where
  section : ActiveTab → Route
  one_device : String → Route
  with_tag : String → Route

abbrev pub route_name : Route → String
route_name (section tab) = tab_name tab
route_name (one_device id) = tab_name device
route_name (with_tag tag) = tab_name devices <> " with tag"

-- The prop `tag` of the route.
abbrev pub route_tag : Route → Option String
route_tag (with_tag tag) = some tag
route_tag _ = none

-- An instance of HomeView. `setup` returns a copy of the props, so that the tag in the template is
-- that of the route for which the instance was made; `route` is the current one.
pub record Instance : Type 0 where
  pub tag : Option String
  pub route : Route

abbrev pub set_up : Route → Instance
set_up r = record { tag = route_tag r; route = r }

-- RouterView keeps the instance from one route to HomeView to the next.
pub visit : List Route → Instance → Instance
visit [] i = i
visit (r ∷ rs) i = visit rs (record i { route = r })

-- The components below the navbar.
pub data Shown : Type 0 where
  devices_list : Option String → Shown
  packages_list groups_list device_page : Shown

abbrev tagged_list : Option String → List Shown
tagged_list none = []
tagged_list (some tag) = devices_list (some tag) ∷ []

abbrev if_named : String → ActiveTab → Shown → List Shown
if_named name tab s = if name == tab_name tab then s ∷ [] else []

-- The five `v-if` of the template, in order.
pub shown_pages : Instance → List Shown
shown_pages i =
    let name = route_name i.route in
    tagged_list i.tag
    ++ (if_named name devices (devices_list none)
        ++ (if_named name packages packages_list
            ++ (if_named name groups groups_list ++ if_named name device device_page)))

-- The tabs with the class `active`.
pub active_tabs : String → List ActiveTab
unfolding starts_with
active_tabs name = filter (λ tab. starts_with name (tab_name tab)) sections
