-- ===== src/Devices/View.antt =====
-- frontend/src/components/devices/DevicesList.vue: what the template shows and offers, and the jump
-- to the only device of a tag.
pub mod Laws
use Prim.Native.String
use rdfm.Base.{
  ℕ, show, ◌+◌, ◌<>◌, ◌==◌, nat_eq, string_eq, String, Bool, true, false, not, ◌&&◌, Option, none,
  some, List, [], ◌∷◌, map, length, find,
}
use rdfm.Base.{if◌then◌else◌, lookup}
use rdfm.Utils.Model.{Verb, delete, device, Group, RegisteredDevice, PendingDevice, MetaValue, text}
use rdfm.Utils.Form.{is_falsy, text_value, or_text}
use rdfm.Utils.World.{Browser, World}
use rdfm.Utils.Access.{allowed_to, offered, has_admin_role, rw_all}
use rdfm.Components.TitleBar.{Props, UpdateProgress, update_progress}
use rdfm.Components.RemovePopup.{RemovePopup, remove_popup, number_text, irrevocable}
use rdfm.Devices.Page.{
  Page, DevicePopupOpen, remove_device_popup, remove_pending_device_popup, no_popup,
}

-- The blocks of a device's groups. `throws` is the error of rendering a device without the list
-- that `device.groups!` relies on.
pub data GroupsCell : Type 0 where
  throws dash not_loaded : GroupsCell
  blocks : List (String × String) → GroupsCell

pub record DeviceRow : Type 0 where
  pub opens : String
  pub is_connected : Bool
  pub entries : List (String × String)
  pub capabilities : List (String × Bool)
  pub software_version : Option MetaValue
  pub groups : GroupsCell
  pub progress : Option UpdateProgress
  pub remove : Option ℕ

-- The buttons give the MAC address and the public key.
pub record PendingRow : Type 0 where
  pub entries : List (String × String)
  pub device_type : Option MetaValue
  pub software_version : Option MetaValue
  pub public_key : String
  pub register : Option (String × String)
  pub remove : Option (String × String)

pub record View : Type 0 where
  pub title_bar : Props
  pub overview : List (String × String)
  pub registered : Option (List DeviceRow)
  pub pending : Option (List PendingRow)
  pub remove_popup : Option RemovePopup
  pub remove_pending_popup : Option RemovePopup

abbrev is_removing : DevicePopupOpen → Bool
is_removing remove_device_popup = true
is_removing _ = false

abbrev is_removing_pending : DevicePopupOpen → Bool
is_removing_pending remove_pending_device_popup = true
is_removing_pending _ = false

abbrev size : {A : Type 0} → Option (List A) → ℕ
size none = 0
size (some l) = length l

-- The rows, where the count of them is not 0.
abbrev rows_of : {A B : Type 0} → (A → B) → Option (List A) → Option (List B)
rows_of f none = none
rows_of f (some []) = none
rows_of f (some (a ∷ as')) = some (map f (a ∷ as'))

-- `#{{ group?.id }}` and the name of the group, or of none.
pub group_block : Option Group → String × String
group_block none = ("#", "Unknown group")
group_block (some g) =
    ("#" <> show g.id, or_text (lookup "rdfm.group.name" g.metadata) "Unknown group")

abbrev pub find_group : List Group → ℕ → Option Group
find_group gs id = find (λ g. g.id == id) gs

pub groups_cell : Option (List ℕ) → Option (List Group) → GroupsCell
unfolding group_block
groups_cell none groups = throws
groups_cell (some []) groups = dash
groups_cell (some (id ∷ ids)) none = not_loaded
groups_cell (some (id ∷ ids)) (some gs) =
    blocks (map (λ i. group_block (find_group gs i)) (id ∷ ids))

-- `v-if="deviceUpdates.has(mac) && deviceVersions.has(mac)"`
abbrev pub progress_of : Option ℕ → Option String → Option UpdateProgress
progress_of (some progress) (some version) = some (update_progress progress version)
progress_of _ _ = none

-- What `onMounted` pushes to the router, for the page of the tag `tag` and the devices it fetched.
unfoldable pub jump_of : Option String → Option (List RegisteredDevice) → Option String
jump_of tag (some (d ∷ [])) = if is_falsy tag then none else some ("/devices/" <> show d.id)
jump_of tag _ = none

-- `updates` and `versions` are the maps that the event stream fills, and `devices` is what the page
-- lists: the registered devices, or those of its tag.
module _ (b : Browser) (updates : List (String × ℕ)) (versions : List (String × String))
    (devices : Option (List RegisteredDevice)) where
  -- The template gives no groups to `allowedTo`.
  pub device_row : World b → RegisteredDevice → DeviceRow
  unfolding groups_cell
  device_row w d = record {
    opens = "/devices/" <> show d.id;
    is_connected = d.connected;
    entries =
        ("ID", "#" <> show d.id)
        ∷ ("Name", d.name)
        ∷ ("MAC Address", d.mac_address)
        ∷ ("Last Accessed", d.last_access)
        ∷ [];
    capabilities = d.capabilities;
    software_version = lookup "rdfm.software.version" d.metadata;
    groups = groups_cell d.groups w.stores.device_groups.resources;
    progress = progress_of (lookup d.mac_address updates) (lookup d.mac_address versions);
    remove = offered (allowed_to w.admin_roles w.permissions delete device (some d.id) none) d.id;
  }

  -- The keys are ASCII, where a character is a byte.
  pub pending_row : World b → PendingDevice → PendingRow
  pending_row w d =
      let admin = has_admin_role w.admin_roles w.permissions rw_all in
      record {
        entries = ("MAC Address", d.mac_address) ∷ ("Last appeared", d.last_appeared) ∷ [];
        device_type = lookup "rdfm.hardware.devtype" d.metadata;
        software_version = lookup "rdfm.software.version" d.metadata;
        public_key = String.slice d.public_key 0 15 <> "...";
        register = offered admin (d.mac_address, d.public_key);
        remove = offered admin (d.mac_address, d.public_key);
      }

  abbrev overview_of : ℕ → ℕ → List (String × String)
  overview_of registered pending =
      let total = show (pending + registered) in
      ("Total devices", total)
      ∷ ("Registered devices", show registered <> "/" <> total)
      ∷ ("Unregistered devices", show pending <> "/" <> total)
      ∷ []

  pub view : Page b → View
  unfolding device_row pending_row
  view p =
      let pending = p.world.stores.pending_devices.resources in
      record {
        title_bar = record {
          title = "Devices";
          subtitle = some (text "manage your devices");
          action_button_name = none;
          has_callback = false;
          device = none;
          connected = false;
          small_button_name = none;
        };
        overview = overview_of (size devices) (size pending);
        registered = rows_of (device_row p.world) devices;
        pending = rows_of (pending_row p.world) pending;
        remove_popup =
            remove_popup (is_removing p.popup_open)
              (irrevocable ("the device #" <> number_text p.device_to_remove <> "."));
        remove_pending_popup =
            remove_popup (is_removing_pending p.popup_open)
              (irrevocable "the unregistered device.");
      }
