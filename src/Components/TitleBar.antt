-- ===== src/Components/TitleBar.antt =====
-- frontend/src/components/TitleBar.vue, with Status.vue and UpdateProgress.vue, which it shows.
pub mod Laws
use rdfm.Base.{
  ℕ, show, String, ◌<>◌, Bool, true, false, not, ◌&&◌, Option, none, some, List, [], ◌∷◌, ◌++◌,
}
use rdfm.Base.{if◌then◌else◌, lookup}
use rdfm.Utils.Model.{MetaValue}
use rdfm.Utils.Form.{is_falsy, text_value}

-- The props; the callback of the buttons is there or not.
pub record Props : Type 0 where
  pub title : String
  pub subtitle : Option MetaValue
  pub action_button_name : Option String
  pub has_callback : Bool
  pub device : Option String
  pub connected : Bool
  pub small_button_name : Option String

-- `props.actionButtonName && props.buttonCallback`
abbrev pub display_button : Props → Bool
display_button p = not (is_falsy p.action_button_name) && p.has_callback

-- The names on the buttons that are shown.
abbrev pub shown_buttons : Props → List String
shown_buttons p =
    (if is_falsy p.small_button_name then [] else text_value p.small_button_name ∷ [])
    ++ (if display_button p then text_value p.action_button_name ∷ [] else [])

-- Status.vue
abbrev pub status_text : Bool → String
status_text connected = if connected then "Connected" else "Disconnected"

-- UpdateProgress.vue: its header, its percentage and the width of its bar.
pub record UpdateProgress : Type 0 where
  pub version : String
  pub percentage : String
  pub width : String

abbrev pub update_progress : ℕ → String → UpdateProgress
update_progress progress version = record {
  version = "Updating to " <> version <> "...";
  percentage = show progress <> "%";
  width = show progress <> "%";
}

-- What stands below the title.
pub data Update : Type 0 where
  no_device no_update : Update
  underway : ℕ → String → Update

unfoldable pub underway_or : Option ℕ → Option String → Update
underway_or (some progress) (some version) = underway progress version
underway_or _ _ = no_update

unfoldable pub shown_update : Props → List (String × ℕ) → List (String × String) → Update
unfolding underway_or
shown_update p updates versions =
    if is_falsy p.device
    then no_device
    else underway_or (lookup (text_value p.device) updates) (lookup (text_value p.device) versions)
