-- ===== src/Devices/Detail.antt =====
-- frontend/src/components/devices/Device.vue: the page of one device, once the device is found: its
-- actions, its action log, the download of a file and the terminal.
pub mod Actions
pub mod Loading
pub mod Selection
pub mod Groups
pub mod View
pub mod Shell
use rdfm.Base.{
  sort, insert, lookup, ℕ, ℤ, pos, negsuc, ◌==◌, nat_eq, string_eq, String, ◌<>◌, show_int, Bool,
  true, false, not,
}
use rdfm.Base.{◌&&◌, Option, none, some, List, [], ◌∷◌, map, filter, find, any, if◌then◌else◌, Exec}
use rdfm.Utils.Model.{RegisteredDevice, Action, Task, RequestOutput, DataOutput}
use rdfm.Utils.World.{Browser, World}
use rdfm.Utils.Notifications.{notify_success, notify_error}
use rdfm.Devices.Requests.{
  is_zero, get_device_tags, get_device_actions, exec_action, get_device_action_log,
  clear_device_action_log, remove_pending_device_actions, remove_selected_device_actions,
  download_device_file,
}

-- `Action & { running?: boolean }`, and a task with its field `selected`.
pub record PageAction : Type 0 where
  pub action : Action
  pub running : Bool

pub record PageTask : Type 0 where
  pub task : Task
  pub selected : Bool

pub record Page (b : Browser) : Type 0 where
  pub world : World b
  pub device : RegisteredDevice
  pub actions : List PageAction
  pub tags : List String
  -- `deviceActions` of devices.ts, by MAC address
  pub device_actions : List (String × List Action)
  pub tasks : List PageTask
  pub showing_action_log : Bool
  pub file_to_download : String
  pub empty_path_error : Bool
  pub is_terminal_opened : Bool
  pub is_fullscreen : Bool

abbrev pub not_running : Action → PageAction
not_running a = record { action = a; running = false }

unfoldable pub is_running : String → List PageAction → Bool
is_running id actions = any (λ a. a.action.action_id == id && a.running) actions

unfoldable pub set_running : String → Bool → List PageAction → List PageAction
set_running id running actions =
    map (λ a. if a.action.action_id == id then record a { running = running } else a) actions

unfoldable pub find_action : String → List PageAction → Option PageAction
find_action id actions = find (λ a. a.action.action_id == id) actions

-- `if (task.status === '0') … if (task.status === '-1') …`, with the row not selected.
pub page_task : Task → PageTask
page_task t = record {
  task = record t {
    status = if t.status == "0" then "success" else if t.status == "-1" then "error" else t.status;
  };
  selected = false;
}

abbrev list_of : {A : Type 0} → Option (List A) → List A
list_of none = []
list_of (some l) = l

pub selected_tasks : List PageTask → List String
selected_tasks tasks = map (λ t. t.task.id) (filter (λ t. t.selected) tasks)

-- `out.success && out.data`
abbrev pub result_of : {A : Type 0} → DataOutput A → Option A
result_of out = if out.success then out.result else none

module _ (b : Browser) where
  abbrev say : (World b → World b) → Page b → Page b
  say f p = record p { world = f p.world }

  abbrev headline : PageAction → Page b → String
  headline a p = p.device.name <> " — " <> a.action.action_name

  -- the effect that fetches the tags
  pub load_tags : Page b → Page b
  load_tags p =
      let r = get_device_tags b p.device.id p.world in
      let q = record p { world = r.1 } in
      if r.0.success then elim r.0.result [ none ↦ q | some tags ↦ record q { tags = tags } ] else q

  pub by_name : List Action → List Action
  by_name actions = sort (λ a₁ a₂. b.locale_le a₁.action_name a₂.action_name) actions

  -- by what was fetched, and what was fetched before
  abbrev pub show_actions : Option (List Action) → Option (List Action) → Page b → Page b
  show_actions (some fetched) before p = record p {
    actions = map not_running (by_name fetched);
    device_actions = insert p.device.mac_address (by_name fetched) p.device_actions;
  }
  show_actions none (some kept) p = record p { actions = map not_running kept }
  show_actions none none p = p

  -- what follows `getDeviceActions`
  pub store_actions : DataOutput (List Action) → Page b → Page b
  unfolding by_name
  store_actions out p =
      show_actions (result_of out) (lookup p.device.mac_address p.device_actions) p

  -- the effect that fetches the actions, until there are some
  pub load_actions : Page b → Page b
  unfolding store_actions
  load_actions p = elim p.actions [
    | a ∷ as' ↦ p
    | [] ↦
        let r = get_device_actions b p.device.mac_address p.world in
        store_actions r.0 (record p { world = r.1 })
  ]

  -- `runAction` up to its `await`: the action to execute, if the function goes that far. For an
  -- action that is not listed it throws.
  unfoldable pub start_action : String → Page b → Option PageAction × Page b
  unfolding is_running set_running find_action
  start_action id p =
      if is_running id p.actions
      then (none, p)
      else let q = record p { actions = set_running id true p.actions } in
        elim (find_action id q.actions) [
          | none ↦ (none, q)
          | some a ↦ (some a, say (notify_success b (headline a q) (some "Action started")) q)
        ]

  abbrev announce_code : String → ℤ → World b → World b
  announce_code headline code =
      if is_zero code
      then notify_success b headline (some "Action finished successfully")
      else notify_error b headline
          (some ("Action finished with non-zero exit code: " <> show_int code))

  announce : String → DataOutput ℤ → World b → World b
  announce headline outcome =
      if outcome.success
      then elim outcome.result [
        | none ↦ notify_success b headline outcome.message
        | some code ↦ announce_code headline code
      ]
      else notify_error b headline (some "Action failed to execute")

  -- `runAction` after its `await`
  pub finish_action : PageAction → String → DataOutput ℤ → Page b → Page b
  unfolding set_running announce
  finish_action a id outcome p =
      say (announce (headline a p) outcome) (record p { actions = set_running id false p.actions })

  -- `runAction` with nothing else happening while it waits.
  pub run_action : String → Page b → Page b
  unfolding start_action finish_action
  run_action id p =
      let (o, q) = start_action id p in
      elim o [
        | none ↦ q
        | some a ↦
            let r = exec_action b q.device.mac_address id q.world in
            finish_action a id r.0 (record q { world = r.1 })
      ]

  pub fetch_action_log : Page b → Page b
  unfolding page_task
  fetch_action_log p =
      let r = get_device_action_log b p.device.mac_address p.world in
      let q = record p { world = r.1 } in
      if r.0.success
      then record q { tasks = map page_task (list_of r.0.result); showing_action_log = true }
      else say (notify_error b (q.device.name <> " action log") (some "Failed to fetch action log"))
          q

  -- the common end of the three functions below
  abbrev then_refetch : String → Exec (World b) RequestOutput → Page b → Page b
  then_refetch failure m p =
      let r = m p.world in
      let q = record p { world = r.1 } in
      if r.0.success
      then fetch_action_log q
      else say (notify_error b (q.device.name <> " action log") (some failure)) q

  pub clear_action_log : Page b → Page b
  unfolding fetch_action_log
  clear_action_log p =
      then_refetch "Failed to clear action log" (clear_device_action_log b p.device.mac_address) p

  pub remove_pending_actions : Page b → Page b
  unfolding fetch_action_log
  remove_pending_actions p =
      then_refetch "Failed to remove pending actions"
        (remove_pending_device_actions b p.device.mac_address) p

  pub remove_selected_actions : Page b → Page b
  unfolding fetch_action_log selected_tasks
  remove_selected_actions p =
      then_refetch "Failed to remove actions"
        (remove_selected_device_actions b p.device.mac_address (selected_tasks p.tasks)) p

  pub close_action_log_popup : Page b → Page b
  close_action_log_popup p = record p { showing_action_log = false }

  -- An empty path is marked, and the request is made all the same.
  pub download_file : Page b → Page b
  download_file p =
      let q = if p.file_to_download == "" then record p { empty_path_error = true } else p in
      let r = download_device_file b q.device.id q.file_to_download q.world in
      let s = record q { world = r.1 } in
      if r.0.success
      then s
      else record (say
          (notify_error b (s.device.name <> " download") (some "Failed to download file")) s) {
            empty_path_error = true;
          }

  pub toggle_terminal : Page b → Page b
  toggle_terminal p = record p {
    is_terminal_opened = not p.is_terminal_opened;
    is_fullscreen = false;
  }

  pub terminal_fullscreen : Page b → Page b
  terminal_fullscreen p = record p { is_fullscreen = not p.is_fullscreen }

  pub disconnect : Page b → Page b
  unfolding toggle_terminal
  disconnect p =
      let q = toggle_terminal p in record q { device = record q.device { connected = false } }
