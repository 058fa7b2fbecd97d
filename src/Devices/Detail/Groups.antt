-- ===== src/Devices/Detail/Groups.antt =====
-- Finding the device of the page in Device.vue, and its groups: the callback of the watcher over the
-- registered devices, as the answers to the two requests of `setup` arrive.
pub mod Laws
pub mod Missing
use rdfm.Base.{
  ℕ, ◌==◌, nat_eq, ◌<>◌, String, Bool, true, false, Option, none, some, List, [], ◌∷◌, find,
  if◌then◌else◌,
}
use rdfm.Utils.Model.{RegisteredDevice, Group}
use rdfm.Utils.World.{Browser, World}
use rdfm.Utils.Notifications.{notify_error}
use rdfm.Groups.Policies.{found_all}
use rdfm.Devices.Route.{Pattern, mac_address, name, id, Found, find_by_route}

-- `groupResources.resources`, the refs of the page, whether the watcher was stopped, and the routes
-- that were pushed.
pub record Search (b : Browser) : Type 0 where
  pub world : World b
  pub known_groups : Option (List Group)
  pub device : Option RegisteredDevice
  pub groups : Option (List Group)
  pub pattern : Option Pattern
  pub is_stopped : Bool
  pub pushed : List String

pub data Arrival : Type 0 where
  groups_arrived : List Group → Arrival
  devices_arrived : List RegisteredDevice → Arrival

abbrev pub group_among : Option (List Group) → ℕ → Option Group
group_among none i = none
group_among (some gs) i = find (λ g. g.id == i) gs

-- `foundDevice?.groups?.map(…).filter(Boolean)`
abbrev pub groups_among : Option (List Group) → Option (List ℕ) → Option (List Group)
groups_among known none = none
groups_among known (some ids) = some (found_all (group_among known) ids)

abbrev pub pattern_text : Pattern → String
pattern_text mac_address = "MAC address"
pattern_text name = "name"
pattern_text id = "id"

module _ (b : Browser) (decode : String → Option String) (number : String → ℕ)
    (route_id : String) where
  -- A callback that throws changes nothing: its promise is rejected.
  abbrev settle_on : Option Found → Search b → Search b
  settle_on none s = s
  settle_on (some (some d, pattern)) s = record s {
    device = some d;
    groups = groups_among s.known_groups d.groups;
    pattern = some pattern;
  }
  settle_on (some (none, pattern)) s = record s {
    world =
        notify_error b
          ("Device with " <> pattern_text pattern <> " '" <> route_id <> "' not found.") none
          s.world;
    is_stopped = true;
    pushed = "devices" ∷ s.pushed;
  }

  -- The watcher does nothing once the device is found.
  look_for : List RegisteredDevice → Option RegisteredDevice → Search b → Search b
  look_for ds (some d) s = s
  look_for ds none s = settle_on (find_by_route decode number route_id ds) s

  pub arrive : Arrival → Search b → Search b
  unfolding look_for
  arrive (groups_arrived gs) s = record s { known_groups = some gs }
  arrive (devices_arrived ds) s = if s.is_stopped then s else look_for ds s.device s

  pub arrive_all : List Arrival → Search b → Search b
  unfolding arrive
  arrive_all [] s = s
  arrive_all (e ∷ es) s = arrive_all es (arrive e s)

  -- `setup`, before any answer.
  abbrev pub started : World b → Search b
  started w = record {
    world = w;
    known_groups = none;
    device = none;
    groups = none;
    pattern = none;
    is_stopped = false;
    pushed = [];
  }
