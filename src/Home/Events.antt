-- ===== src/Home/Events.antt =====
-- The event stream of HomeView.vue: the listeners of `update`, `connect` and `disconnect`, over the
-- maps of devices.ts.
pub mod Laws
use rdfm.Base.{
  ℕ, ◌==◌, nat_eq, string_eq, String, ◌<>◌, Bool, true, false, not, ◌&&◌, Option, none, some,
}
use rdfm.Base.{List, [], ◌∷◌, if◌then◌else◌, lookup, insert, erase, has}
use rdfm.Utils.World.{Browser, World}
use rdfm.Utils.Notifications.{notify_success}

-- `JSON.parse(event.data)`; the progress is a percentage.
pub record Message : Type 0 where
  pub device : String
  pub version : Option String
  pub progress : Option ℕ

pub data Event : Type 0 where
  update : Message → Event
  connect disconnect : String → Event

-- `deviceUpdates`, `deviceVersions`, `deviceConnections`.
pub record Live (b : Browser) : Type 0 where
  pub world : World b
  pub updates : List (String × ℕ)
  pub versions : List (String × String)
  pub connections : List (String × Bool)

-- `if (message.version && !deviceVersions.has(device)) deviceVersions.set(device, version)`
unfoldable pub set_version :
    String → Option String → List (String × String) → List (String × String)
set_version device none versions = versions
set_version device (some version) versions =
    if not (version == "") && not (has device versions)
    then insert device version versions
    else versions

-- `if (message.progress) deviceUpdates.set(device, progress)`
unfoldable pub set_progress : String → Option ℕ → List (String × ℕ) → List (String × ℕ)
set_progress device none updates = updates
set_progress device (some progress) updates =
    if progress == 0 then updates else insert device progress updates

-- `deviceUpdates.get(device) === 100`
unfoldable pub is_full : Option ℕ → Bool
is_full none = false
is_full (some progress) = progress == 100

module _ (b : Browser) where
  unfoldable pub is_idle : String → Live b → Bool
  unfolding has
  is_idle device s = not (has device s.updates) && not (has device s.versions)

  unfoldable pub announce_start : String → Live b → Live b
  unfolding is_idle
  announce_start device s =
      if is_idle device s
      then record s {
        world = notify_success b ("Device " <> device) (some "Device update started") s.world;
      }
      else s

  unfoldable pub announce_end : String → Live b → Live b
  unfolding is_full
  announce_end device s =
      if is_full (lookup device s.updates)
      then record s {
        world = notify_success b ("Device " <> device) (some "Device update finished") s.world;
        updates = erase device s.updates;
        versions = erase device s.versions;
      }
      else s

  unfoldable pub store_message : Message → Live b → Live b
  unfolding set_version set_progress
  store_message m s = record s {
    updates = set_progress m.device m.progress s.updates;
    versions = set_version m.device m.version s.versions;
  }

  unfoldable pub on_update : Message → Live b → Live b
  unfolding announce_start announce_end store_message
  on_update m s = announce_end m.device (store_message m (announce_start m.device s))

  unfoldable pub on_event : Event → Live b → Live b
  unfolding on_update
  on_event (update m) s = on_update m s
  on_event (connect device) s = record s { connections = insert device true s.connections }
  on_event (disconnect device) s = record s { connections = insert device false s.connections }

  unfoldable pub on_events : List Event → Live b → Live b
  on_events [] s = s
  on_events (e ∷ es) s = on_events es (on_event e s)
