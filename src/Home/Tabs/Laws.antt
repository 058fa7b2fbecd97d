-- ===== src/Home/Tabs/Laws.antt =====
-- The pages that an instance of the home view shows.
use rdfm.Base.{none, some, List, [], ◌∷◌, ◌++◌, ◌≡◌, refl}
use rdfm.Home.Tabs.{
  ActiveTab, device, devices, packages, groups, Route, section, one_device, with_tag, route_name,
  Instance, visit, route_tag, Shown, devices_list, packages_list, groups_list, device_page,
  shown_pages, active_tabs,
}

-- The page that a route stands for.
abbrev pub page_of : Route → Shown
page_of (section devices) = devices_list none
page_of (section packages) = packages_list
page_of (section groups) = groups_list
page_of (section device) = device_page
page_of (one_device id) = device_page
page_of (with_tag tag) = devices_list (some tag)

-- The tabs that stand for it; none does for a tag.
abbrev pub tabs_of : Route → List ActiveTab
tabs_of (section device) = devices ∷ []
tabs_of (section tab) = tab ∷ []
tabs_of (one_device id) = devices ∷ []
tabs_of (with_tag tag) = []

-- The pages that an instance shows which was made for the first route, at the second one: the
-- devices with the first tag stay, and those with another tag are not shown.
abbrev pub pages_of : Route → Route → List Shown
pages_of (with_tag tag) (with_tag other) = devices_list (some tag) ∷ []
pages_of (with_tag tag) r = devices_list (some tag) ∷ page_of r ∷ []
pages_of _ (with_tag other) = []
pages_of _ r = page_of r ∷ []

pub visit-append :
    (rs : List Route) (r : Route) (i : Instance) → visit (rs ++ r ∷ []) i ≡ record i { route = r }
unfolding visit
visit-append [] r i = refl
visit-append (q ∷ rs) r i = visit-append rs r (record i { route = q })

-- The template at the route `r`, in an instance that was made for `first`.
pub shown_pages-instance :
    (first r : Route)
    → (shown_pages (record { tag = route_tag first; route = r }) ≡ pages_of first r)
      × (active_tabs (route_name r) ≡ tabs_of r)
unfolding shown_pages active_tabs
shown_pages-instance (section device) (section device) = (refl, refl)
shown_pages-instance (section device) (section devices) = (refl, refl)
shown_pages-instance (section device) (section packages) = (refl, refl)
shown_pages-instance (section device) (section groups) = (refl, refl)
shown_pages-instance (section device) (one_device id₂) = (refl, refl)
shown_pages-instance (section device) (with_tag tag₂) = (refl, refl)
shown_pages-instance (section devices) (section device) = (refl, refl)
shown_pages-instance (section devices) (section devices) = (refl, refl)
shown_pages-instance (section devices) (section packages) = (refl, refl)
shown_pages-instance (section devices) (section groups) = (refl, refl)
shown_pages-instance (section devices) (one_device id₂) = (refl, refl)
shown_pages-instance (section devices) (with_tag tag₂) = (refl, refl)
shown_pages-instance (section packages) (section device) = (refl, refl)
shown_pages-instance (section packages) (section devices) = (refl, refl)
shown_pages-instance (section packages) (section packages) = (refl, refl)
shown_pages-instance (section packages) (section groups) = (refl, refl)
shown_pages-instance (section packages) (one_device id₂) = (refl, refl)
shown_pages-instance (section packages) (with_tag tag₂) = (refl, refl)
shown_pages-instance (section groups) (section device) = (refl, refl)
shown_pages-instance (section groups) (section devices) = (refl, refl)
shown_pages-instance (section groups) (section packages) = (refl, refl)
shown_pages-instance (section groups) (section groups) = (refl, refl)
shown_pages-instance (section groups) (one_device id₂) = (refl, refl)
shown_pages-instance (section groups) (with_tag tag₂) = (refl, refl)
shown_pages-instance (one_device id) (section device) = (refl, refl)
shown_pages-instance (one_device id) (section devices) = (refl, refl)
shown_pages-instance (one_device id) (section packages) = (refl, refl)
shown_pages-instance (one_device id) (section groups) = (refl, refl)
shown_pages-instance (one_device id) (one_device id₂) = (refl, refl)
shown_pages-instance (one_device id) (with_tag tag₂) = (refl, refl)
shown_pages-instance (with_tag tag) (section device) = (refl, refl)
shown_pages-instance (with_tag tag) (section devices) = (refl, refl)
shown_pages-instance (with_tag tag) (section packages) = (refl, refl)
shown_pages-instance (with_tag tag) (section groups) = (refl, refl)
shown_pages-instance (with_tag tag) (one_device id₂) = (refl, refl)
shown_pages-instance (with_tag tag) (with_tag tag₂) = (refl, refl)
