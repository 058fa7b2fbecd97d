-- ===== src/Devices/Detail/View.antt =====
-- frontend/src/components/devices/Device.vue: what the template shows and offers, once the device
-- is found.
pub mod Laws
use rdfm.Base.{
  ℕ, show, ◌<>◌, ◌==◌, string_eq, String, Bool, true, false, not, ◌&&◌, Option, none, some, List,
  [], ◌∷◌, map, length,
}
use rdfm.Base.{if◌then◌else◌, lookup}
use rdfm.Utils.Model.{Verb, read, update, shell, device, Group, RegisteredDevice, MetaValue}
use rdfm.Utils.Form.{is_falsy, text_value}
use rdfm.Utils.World.{Browser, World}
use rdfm.Utils.Access.{allowed_to, offered}
use rdfm.Components.TitleBar.{Props}
use rdfm.Devices.Detail.{Page, PageAction, PageTask}
use rdfm.Devices.Detail.Selection.{selected_count}

pub record ActionButton : Type 0 where
  pub runs : String
  pub name : String
  pub description : String
  pub is_running : Bool

pub record LogRow : Type 0 where
  pub selected : Bool
  pub entries : List String
  pub download : Option String

-- The three buttons of the popup stand under the same test.
pub record LogPopup : Type 0 where
  pub description : String
  pub selected_count : String
  pub has_buttons : Bool
  pub rows : List LogRow

pub record TerminalBox : Type 0 where
  pub button : String
  pub is_opened : Bool
  pub is_fullscreen : Bool

-- The blocks of the groups: a title, a number and a name each.
pub data GroupsBlock : Type 0 where
  unassigned : GroupsBlock
  assigned : List (String × String × String) → GroupsBlock

pub record View : Type 0 where
  pub title_bar : Props
  pub actions : Option (List ActionButton)
  pub log_popup : Option LogPopup
  pub download : Option Bool
  pub terminal : Option TerminalBox
  pub texts : List (String × String)
  pub tags : List String
  pub device_type : Option MetaValue
  pub software_version : Option MetaValue
  pub capabilities : List (String × Bool)
  pub metadata : List (String × MetaValue)
  pub groups : GroupsBlock

abbrev pub action_button : PageAction → ActionButton
action_button a = record {
  runs = a.action.action_id;
  name = a.action.action_name;
  description = a.action.description;
  is_running = a.running;
}

-- An empty link is falsy.
abbrev log_row : PageTask → LogRow
log_row t = record {
  selected = t.selected;
  entries = t.task.action ∷ t.task.created ∷ t.task.status ∷ [];
  download = offered (not (is_falsy t.task.download_url)) (text_value t.task.download_url);
}

abbrev group_block : Group → String × String × String
group_block g = (
  text_value (lookup "rdfm.group.description" g.metadata),
  "#" <> show g.id,
  text_value (lookup "rdfm.group.name" g.metadata),
)

-- By `device.groups || []`, and the groups that were found for it.
abbrev groups_block : Option (List ℕ) → Option (List Group) → GroupsBlock
groups_block (some (id ∷ ids)) (some gs) = assigned (map group_block gs)
groups_block (some (id ∷ ids)) none = assigned []
groups_block _ gs = unassigned

-- `device?.capabilities.filesystem`
abbrev pub is_true : Option Bool → Bool
is_true none = false
is_true (some x) = x

abbrev pub is_filled : {A : Type 0} → List A → Bool
is_filled [] = false
is_filled (a ∷ as') = true

abbrev or_else : Option Bool → Bool → Bool
or_else none y = y
or_else (some x) y = x

module _ (b : Browser) where
  -- The template gives no groups to `allowedTo`.
  abbrev pub allowed : Verb → Page b → Bool
  allowed verb p =
      allowed_to p.world.admin_roles p.world.permissions verb device (some p.device.id) none

  abbrev pub terminal_box : Page b → TerminalBox
  terminal_box p = record {
    button = if p.is_terminal_opened then "Close device shell" else "Open device shell";
    is_opened = p.is_terminal_opened;
    is_fullscreen = p.is_fullscreen;
  }

  abbrev pub log_popup_of : Page b → LogPopup
  log_popup_of p = record {
    description = "Actions assigned to device " <> p.device.mac_address;
    selected_count = selected_count b p;
    has_buttons = allowed update p;
    rows = map log_row p.tasks;
  }

  -- `connections` is what the event stream says of the devices, and `groups` the groups that were
  -- found for the device.
  pub view : List (String × Bool) → Option (List Group) → Page b → View
  view connections groups p = record {
    title_bar = record {
      title = "Device " <> p.device.mac_address;
      subtitle = lookup "rdfm.software.version" p.device.metadata;
      action_button_name = none;
      has_callback = true;
      device = some p.device.mac_address;
      connected = or_else (lookup p.device.mac_address connections) p.device.connected;
      small_button_name = some "Open action log";
    };
    actions = offered (is_filled p.actions && allowed update p) (map action_button p.actions);
    log_popup = offered p.showing_action_log (log_popup_of p);
    download =
        offered (is_true (lookup "filesystem" p.device.capabilities) && allowed read p)
          p.empty_path_error;
    terminal =
        offered (is_true (lookup "shell" p.device.capabilities) && allowed shell p)
          (terminal_box p);
    texts = ("MAC Address", p.device.mac_address) ∷ ("Last Access", p.device.last_access) ∷ [];
    tags = p.tags;
    device_type = lookup "rdfm.hardware.devtype" p.device.metadata;
    software_version = lookup "rdfm.software.version" p.device.metadata;
    capabilities = p.device.capabilities;
    metadata = p.device.metadata;
    groups = groups_block p.device.groups groups;
  }
