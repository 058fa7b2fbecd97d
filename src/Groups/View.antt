-- ===== src/Groups/View.antt =====
-- frontend/src/components/groups/GroupsList.vue: what the template shows and offers.
pub mod Laws
use rdfm.Base.{
  ℕ, show, ◌<>◌, ◌==◌, nat_eq, string_eq, String, Bool, true, false, ◌||◌, ◌&&◌, not, Option, none,
  some, List, [], ◌∷◌, map, length,
}
use rdfm.Base.{if◌then◌else◌, lookup, Exec, ◌>>=◌, ◌>>◌, pure}
use rdfm.Utils.Model.{
  Verb, update, delete, group, Package, Group, RegisteredDevice, MetaValue, text, texts,
  RequestOutput,
}
use rdfm.Utils.Form.{is_falsy, text_value, or_text}
use rdfm.Utils.World.{Browser, World, Json, Getter}
use rdfm.Utils.Access.{allowed_to, offered, has_admin_role, rw_all, create_group}
use rdfm.Components.TitleBar.{Props}
use rdfm.Components.RemovePopup.{RemovePopup, remove_popup, number_text, irrevocable, shown_error}
use rdfm.Components.Dropdown.{Column}
use rdfm.Components.Dropdown.View as Dropdown
use rdfm.Groups.Requests.{find_package, find_device, patch_devices_request}
use rdfm.Groups.Page.{
  Page, GroupPopupOpen, add_group_popup, remove_group_popup, configure_group_popup, no_popup,
  DropDownOpen, packages_dropdown, devices_dropdown, no_dropdown, is_dropdown, on_world,
}
use rdfm.Groups.Policies.{
  PolicyChoice, available_policies, unapplicable_policy_warning, version_of, type_of,
  device_type_of,
}

pub record PackageItem : Type 0 where
  pub version : String
  pub device_type : String

-- `remove` is the list that the button gives to `patchDevicesRequest`.
pub record DeviceItem : Type 0 where
  pub id : ℕ
  pub mac_address : String
  pub device_type : MetaValue
  pub remove : Option (List ℕ)

pub record GroupRow : Type 0 where
  pub entries : List (String × String)
  pub configure : Option Group
  pub remove : Option ℕ
  pub packages_title : String
  pub packages : List PackageItem
  pub devices_title : String
  pub devices : List DeviceItem

pub record AddPopup : Type 0 where
  pub name_error : Option String
  pub description_error : Option String
  pub priority_error : Option String

pub record ConfigurePopup : Type 0 where
  pub title : String
  pub priority : Option Json
  pub packages : Dropdown.View
  pub policies : Option (List PolicyChoice)
  pub has_warning : Bool
  pub devices : Dropdown.View

pub record View : Type 0 where
  pub add_popup : Option AddPopup
  pub remove_popup : Option RemovePopup
  pub configure_popup : Option ConfigurePopup
  pub title_bar : Props
  pub total : ℕ
  pub rows : Option (List GroupRow)

abbrev column : String → String → Column
column id name = record { id = id; name = name }

abbrev pub package_columns : List Column
package_columns = column "id" "ID" ∷ column "version" "Version" ∷ column "type" "Device type" ∷ []

abbrev pub device_columns : List Column
device_columns = column "id" "ID" ∷ column "name" "Name" ∷ column "mac_address" "MAC address" ∷ []

-- `… || ' - '`
abbrev or_dash : Option String → String
or_dash o = or_text o " - "

-- A list is truthy, even without a member.
abbrev value_or_dash : Option MetaValue → MetaValue
value_or_dash none = text " - "
value_or_dash (some (text s)) = if s == "" then text " - " else text s
value_or_dash (some (texts ss)) = texts ss

-- The title of a list: with its length, unless that is one.
abbrev titled : String → String → List ℕ → String
titled one many ids = if length ids == 1 then one else many <> " " <> show (length ids)

abbrev is_adding : GroupPopupOpen → Bool
is_adding add_group_popup = true
is_adding _ = false

abbrev is_removing : GroupPopupOpen → Bool
is_removing remove_group_popup = true
is_removing _ = false

abbrev is_configuring : GroupPopupOpen → Bool
is_configuring configure_group_popup = true
is_configuring _ = false

-- An id that may be undefined, in a template: nothing is printed for it.
abbrev configured : Option ℕ → String
configured none = ""
configured (some id) = show id

-- `groups && groups.length !== 0`
abbrev rows_of : (Group → GroupRow) → Option (List Group) → Option (List GroupRow)
rows_of f none = none
rows_of f (some []) = none
rows_of f (some (g ∷ gs)) = some (map f (g ∷ gs))

abbrev size : {A : Type 0} → Option (List A) → ℕ
size none = 0
size (some l) = length l

-- `findPackage(pckg)?.metadata[…] || ' - '`
package_item_of : Option Package → PackageItem
package_item_of none = record { version = or_dash none; device_type = or_dash none }
package_item_of (some k) = record {
  version = or_dash (version_of k);
  device_type = or_dash (type_of k);
}

-- `{ id: d, ...findDevice(d) }`, with the button to take it out of the group.
device_item_of : Bool → ℕ → Option RegisteredDevice → DeviceItem
device_item_of allowed id none = record {
  id = id;
  mac_address = or_dash none;
  device_type = value_or_dash none;
  remove = offered allowed (id ∷ []);
}
device_item_of allowed id (some d) = record {
  id = d.id;
  mac_address = or_dash (some d.mac_address);
  device_type = value_or_dash (device_type_of d);
  remove = offered allowed (d.id ∷ []);
}

module _ (b : Browser) where
  -- The template gives no groups to `allowedTo`.
  abbrev allowed : World b → Verb → Group → Bool
  allowed w verb g = allowed_to w.admin_roles w.permissions verb group (some g.id) none

  pub device_item : World b → Group → ℕ → DeviceItem
  unfolding device_item_of find_device
  device_item w g id = device_item_of (allowed w update g) id (find_device b id w)

  pub group_row : World b → Group → GroupRow
  unfolding package_item_of find_package device_item
  group_row w g = record {
    entries =
        ("ID", "#" <> show g.id)
        ∷ ("Created", g.created)
        ∷ ("Name", text_value (lookup "rdfm.group.name" g.metadata))
        ∷ ("Description", text_value (lookup "rdfm.group.description" g.metadata))
        ∷ ("Policy", g.policy)
        ∷ ("Priority", show g.priority)
        ∷ [];
    configure = offered (allowed w update g) g;
    remove = offered (allowed w delete g) g.id;
    packages_title = titled "Package" "Packages" g.packages;
    packages = map (λ id. package_item_of (find_package b id w)) g.packages;
    devices_title = titled "Device" "Devices" g.devices;
    devices = map (device_item w g) g.devices;
  }

  -- The click on the button of a device in a group; its result is not looked at.
  pub remove_from_group : ℕ → List ℕ → Page b → Page b
  remove_from_group id devices p = (on_world b (patch_devices_request b id [] devices) p).1

  add_popup_of : Page b → Option AddPopup
  add_popup_of p = offered (is_adding p.popup_open) (record {
    name_error = shown_error "name" p.validation_errors;
    description_error = shown_error "description" p.validation_errors;
    priority_error = shown_error "priority" p.validation_errors;
  })

  -- The entry of the policy is there if the group has one; there is always a policy to choose.
  configure_popup_of : Page b → Option ConfigurePopup
  configure_popup_of p =
      let has_policy = not (is_falsy p.configuration.policy) in
      offered (is_configuring p.popup_open) (record {
        title = "Configure the #" <> configured p.configuration.id <> " group";
        priority = p.configuration.priority;
        packages =
            Dropdown.view "Choose packages" package_columns p.package_list
              (is_dropdown p.open_dropdown packages_dropdown);
        policies = offered has_policy (available_policies b p);
        has_warning = has_policy && unapplicable_policy_warning b p;
        devices =
            Dropdown.view "Choose devices" device_columns p.device_list
              (is_dropdown p.open_dropdown devices_dropdown);
      })

  pub view : Page b → View
  unfolding add_popup_of configure_popup_of group_row
  view p = record {
    add_popup = add_popup_of p;
    remove_popup =
        remove_popup (is_removing p.popup_open)
          (irrevocable ("#" <> number_text p.group_to_remove <> " group."));
    configure_popup = configure_popup_of p;
    title_bar = record {
      title = "Groups";
      subtitle = some (text "manage your groups");
      action_button_name = some "Create new group";
      has_callback =
          has_admin_role p.world.admin_roles p.world.permissions rw_all
          || has_admin_role p.world.admin_roles p.world.permissions create_group;
      device = none;
      connected = false;
      small_button_name = none;
    };
    total = size p.world.stores.groups.resources;
    rows = rows_of (group_row p.world) p.world.stores.groups.resources;
  }
