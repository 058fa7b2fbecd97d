-- ===== src/Groups/Page.antt =====
-- frontend/src/components/groups/GroupsList.vue: the state of the page, its popups, the creation and
-- the removal of a group, and the lists to choose from. `Configure` holds `configureGroup`.
use rdfm.Base.{ℕ, zero, suc, nat_eq, String, ◌<>◌, Bool, true, false, not, Option, none, some}
use rdfm.Base.{lookup, List, [], ◌∷◌, map, includes, if◌then◌else◌, Exec, ◌>>◌}
use rdfm.Utils.Model.{RequestOutput, Package, RegisteredDevice, Group}
pub use rdfm.Components.Dropdown.{DataEntry}
use rdfm.Utils.Form.{or_text, set_errors, errors_of}
use rdfm.Utils.World.{Browser, World, Json, num, Getter}
use rdfm.Utils.Resources.{fetch_resources}
use rdfm.Utils.Notifications.{notify_error, notify_success}
use rdfm.Groups.Requests.{NewGroupData, add_group_request, remove_group_request}

pub data GroupPopupOpen : Type 0 where
  add_group_popup remove_group_popup configure_group_popup no_popup : GroupPopupOpen

pub data DropDownOpen : Type 0 where
  packages_dropdown devices_dropdown no_dropdown : DropDownOpen

-- `priority` is a number, or the text that was typed.
pub record GroupConfiguration : Type 0 where
  pub id : Option ℕ
  pub priority : Option Json
  pub policy : Option String
  pub devices : Option (List ℕ)
  pub packages : Option (List ℕ)

pub record InitialGroupConfiguration : Type 0 where
  pub id : ℕ
  pub priority : ℕ
  pub policy : String
  pub devices : List ℕ
  pub packages : List ℕ

pub record Page (b : Browser) : Type 0 where
  pub world : World b
  pub popup_open : GroupPopupOpen
  pub new_group_data : NewGroupData
  pub validation_errors : List (String × String)
  pub group_to_remove : Option ℕ
  pub configuration : GroupConfiguration
  pub initial : Option InitialGroupConfiguration
  pub package_list : List DataEntry
  pub device_list : List DataEntry
  pub open_dropdown : DropDownOpen

abbrev pub no_group_data : NewGroupData
no_group_data = record { name = none; description = none; priority = none }

-- `list.value[i].selected = !list.value[i].selected`; the dropdown gives an index of a row.
unfoldable pub toggle_at : ℕ → List DataEntry → List DataEntry
toggle_at i [] = []
toggle_at zero (e ∷ es) = record e { selected = not e.selected } ∷ es
toggle_at (suc i) (e ∷ es) = e ∷ toggle_at i es

abbrev pub is_dropdown : DropDownOpen → DropDownOpen → Bool
is_dropdown packages_dropdown packages_dropdown = true
is_dropdown devices_dropdown devices_dropdown = true
is_dropdown no_dropdown no_dropdown = true
is_dropdown _ _ = false

-- `${name}` of a string that may be null
abbrev name_text : Option String → String
name_text none = "null"
name_text (some s) = s

-- `metadata[key]` in a template or a column: a missing key is printed as `undefined`.
abbrev pub field_text : Option String → String
field_text none = "undefined"
field_text (some s) = s

pub package_entry : List ℕ → Package → DataEntry
package_entry chosen p = record {
  id = p.id;
  selected = includes chosen p.id;
  columns =
      ("version", field_text (lookup "rdfm.software.version" p.metadata))
      ∷ ("type", field_text (lookup "rdfm.hardware.devtype" p.metadata))
      ∷ [];
}

unfoldable pub device_entry : List ℕ → RegisteredDevice → DataEntry
device_entry chosen d = record {
  id = d.id;
  selected = includes chosen d.id;
  columns = ("mac_address", d.mac_address) ∷ ("name", d.name) ∷ [];
}

-- `resources.value ?? []`
abbrev pub or_empty : {A : Type 0} → Option (List A) → List A
or_empty none = []
or_empty (some l) = l

module _ (b : Browser) where
  -- A function of the other modules, called from the page.
  abbrev pub on_world : {A : Type 0} → Exec (World b) A → Exec (Page b) A
  on_world m p = let r = m p.world in (r.0, record p { world = r.1 })

  abbrev pub notify : (World b → World b) → Page b → Page b
  notify f p = record p { world = f p.world }

  pub open_add_group_popup : Page b → Page b
  open_add_group_popup p = record p { popup_open = add_group_popup; validation_errors = [] }

  pub close_add_group_popup : Page b → Page b
  close_add_group_popup p = record p { new_group_data = no_group_data; popup_open = no_popup }

  -- what follows `addGroupRequest`; a rejected promise ends the handler
  added : Option RequestOutput → Page b → Page b
  unfolding close_add_group_popup set_errors
  added none p = p
  added (some out) p =
      let q = record p {
        validation_errors = set_errors (errors_of out.errors) p.validation_errors;
      } in
      if out.success
      then close_add_group_popup (
          notify
            (notify_success b ("Group " <> name_text q.new_group_data.name <> " was added") none) q)
      else notify
          (notify_error b "Error when adding group:"
            (some (or_text out.message "Adding group failed")))
          q

  pub add_group : Page b → Page b
  unfolding added
  add_group p =
      let q = record p { validation_errors = [] } in
      let r = on_world (add_group_request b q.new_group_data) q in added r.0 r.1

  pub open_remove_group_popup : ℕ → Page b → Page b
  open_remove_group_popup id p = record p {
    group_to_remove = some id;
    popup_open = remove_group_popup;
  }

  pub close_remove_group_popup : Page b → Page b
  close_remove_group_popup p = record p { group_to_remove = none; popup_open = no_popup }

  removed : RequestOutput → Page b → Page b
  removed out p =
      if out.success
      then notify (notify_success b "Group was removed" none) p
      else notify
          (notify_error b "Error when removing group:"
            (some (or_text out.message "Removing group failed")))
          p

  -- The popup is open only with a group to remove.
  pub remove_group : Page b → Page b
  unfolding removed close_remove_group_popup
  remove_group p = elim p.group_to_remove [
    | none ↦ p
    | some id ↦
        let r = on_world (remove_group_request b id) p in close_remove_group_popup (removed r.0 r.1)
  ]

  unfoldable pub open_configure_group_popup : Group → Page b → Page b
  unfolding package_entry device_entry
  open_configure_group_popup g p = record p {
    configuration = record {
      id = some g.id;
      priority = some (num g.priority);
      policy = some g.policy;
      devices = some g.devices;
      packages = some g.packages;
    };
    package_list =
        map (package_entry g.packages) (or_empty p.world.stores.group_packages.resources);
    device_list = map (device_entry g.devices) (or_empty p.world.stores.group_devices.resources);
    initial = some (record {
      id = g.id;
      priority = g.priority;
      policy = g.policy;
      devices = g.devices;
      packages = g.packages;
    });
    popup_open = configure_group_popup;
  }

  pub close_dropdowns : Page b → Page b
  close_dropdowns p = record p { open_dropdown = no_dropdown }

  pub toggle_dropdown : DropDownOpen → Page b → Page b
  toggle_dropdown d p = record p {
    open_dropdown = if is_dropdown p.open_dropdown d then no_dropdown else d;
  }

  -- The policy, the devices and the packages of the configuration stay.
  unfoldable pub close_configure_group_popup : Page b → Page b
  unfolding close_dropdowns
  close_configure_group_popup p = close_dropdowns (record p {
    configuration = record p.configuration { id = none; priority = none };
    initial = none;
    popup_open = no_popup;
  })

  unfoldable pub select_package : ℕ → Page b → Page b
  unfolding toggle_at
  select_package i p = record p { package_list = toggle_at i p.package_list }

  unfoldable pub select_device : ℕ → Page b → Page b
  unfolding toggle_at
  select_device i p = record p { device_list = toggle_at i p.device_list }

  pub fetch_page : Page b → Page b
  fetch_page p =
      (on_world
        (fetch_resources b Getter.group_packages
          >> fetch_resources b Getter.group_devices
          >> fetch_resources b Getter.groups)
        p).1
