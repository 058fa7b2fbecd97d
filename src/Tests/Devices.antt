-- ===== src/Tests/Devices.antt =====
-- devices.ts and Device.vue.
use rdfm.Base.{List, true, false, none, some, [], ◌∷◌, ◌≡◌, refl}
use rdfm.Utils.Model.{DataOutput, Action}
use rdfm.Utils.Command.{Keeps, sent_by}
use rdfm.Devices.Requests.Commands.{
  DeviceCommand, device_command, run_device, run_device-Keeps, send, Executed, sent_action,
}
use rdfm.Devices.Route.{
  find_by_route, by_mac_or_name, or_by_id, is_mac, is_mac_from, is_hex, is_separator,
}
use rdfm.Devices.Detail.Loading.{store_actions-kept}
use rdfm.Devices.Detail.{
  store_actions, Page, PageAction, start_action, is_running, set_running, find_action,
}
use rdfm.Devices.Detail.Actions.{Steps, click, ignored, IsTracked, Steps-IsTracked}
use rdfm.Base.{map, lookup, ◌≢◌, ◌↔◌}
use rdfm.Utils.Model.{Verb, Kind}
use rdfm.Utils.Access.Granted.{Direct}
use rdfm.Devices.Detail.View.{view, action_button, terminal_box}
use rdfm.Devices.Detail.View.Laws.{view-Direct}
use rdfm.Devices.Detail.Groups.{
  Arrival, groups_arrived, devices_arrived, arrive_all, started, group_among,
}
use rdfm.Devices.Requests.{exec_action}
use rdfm.Devices.Detail.Groups.Laws.{arrive_all-order, device_found}
use rdfm.Groups.Policies.{found_all}
use rdfm.Base.{String, not, ◌&&◌}
use rdfm.Components.Terminal.{ready, closed}
use rdfm.Devices.Detail.Shell.{Shell, toggle, happen, shell_of}
use rdfm.Devices.Detail.Shell.Laws.{Reached, start, toggled, got_ready, happen-shown}
use rdfm.Tests.Setup.{browser, first_world, world_at, board, fleet}

run_device-Keeps_example :
    ((c : DeviceCommand)
      → let spec = device_command "https://server" c in
        Keeps browser
          (run_device browser c (world_at 202))
          (sent_by browser (send browser) spec (world_at 202))
          spec.explain
          spec.refreshes)
    × ((mac action_id : String)
        → Executed
            (exec_action browser mac action_id (world_at 202)).0
            (sent_action browser mac action_id (world_at 202)).0
          × ((exec_action browser mac action_id (world_at 202)).1
              ≡ (sent_action browser mac action_id (world_at 202)).1))
run_device-Keeps_example = run_device-Keeps browser (world_at 202)

abbrev reboot : Action
reboot = record { action_id = "r"; action_name = "reboot"; command = []; description = "" }

abbrev detail_page : Page browser
detail_page = record {
  world = first_world;
  device = board;
  actions = record { action = reboot; running = false } ∷ [];
  tags = [];
  device_actions = [];
  tasks = [];
  showing_action_log = false;
  file_to_download = "";
  empty_path_error = false;
  is_terminal_opened = false;
  is_fullscreen = false;
}

abbrev clicked : Page browser
clicked = (start_action browser "r" detail_page).1

abbrev running_reboot : PageAction
running_reboot = record { action = reboot; running = true }

first_click : (start_action browser "r" detail_page).0 ≡ some running_reboot
unfolding start_action is_running set_running find_action
first_click = refl

second_click : (start_action browser "r" clicked).0 ≡ none
unfolding start_action is_running set_running find_action
second_click = refl

-- Two clicks on the action, of which the second finds it running.
Steps-IsTracked_example : IsTracked ("r" ∷ []) (start_action browser "r" clicked).1
Steps-IsTracked_example =
    Steps-IsTracked browser
      (ignored "r" (click "r" running_reboot (Steps.start detail_page) first_click) second_click)

abbrev halt : Action
halt = record { action_id = "h"; action_name = "halt"; command = []; description = "" }

abbrev answered : DataOutput (List Action)
answered = record { success = true; message = none; result = some (reboot ∷ halt ∷ []) }

abbrev unanswered : DataOutput (List Action)
unanswered = record { success = false; message = some "no answer"; result = none }

store_actions-kept_example :
    (store_actions browser unanswered
      (record (store_actions browser answered detail_page) { actions = [] })).actions
    ≡ (store_actions browser answered detail_page).actions
store_actions-kept_example =
    store_actions-kept browser answered (reboot ∷ halt ∷ []) refl refl detail_page [] unanswered
      refl

-- A board with a shell, and a user who has one role for all.
abbrev shell_page : Page browser
shell_page = record detail_page {
  world = record first_world { admin_roles = "rdfm_admin_rw" ∷ [] };
  device = record board { capabilities = ("shell", true) ∷ [] };
}

view-Direct_example :
    let v = view browser [] none shell_page in
    ((v.actions ≡ some (map action_button shell_page.actions))
      ↔ ((shell_page.actions ≢ []) × Direct ("rdfm_admin_rw" ∷ []) [] Verb.update Kind.device 3))
    × ((v.download ≡ some false) ↔ (
        (lookup "filesystem" shell_page.device.capabilities ≡ some true)
        × Direct ("rdfm_admin_rw" ∷ []) [] Verb.read Kind.device 3))
    × ((v.terminal ≡ some (terminal_box browser shell_page)) ↔ (
        (lookup "shell" shell_page.device.capabilities ≡ some true)
        × Direct ("rdfm_admin_rw" ∷ []) [] Verb.shell Kind.device 3))
view-Direct_example = view-Direct browser [] none shell_page

-- The board is found by its MAC address.
board_found :
    device_found (find_by_route some (λ s. 0) "00:11:22:aa:bb:cc" (board ∷ [])) ≡ some board
unfolding find_by_route by_mac_or_name or_by_id is_mac is_mac_from is_hex is_separator
board_found = refl

arrive_all-order_example :
    let known = groups_arrived (fleet ∷ []) in
    let found = devices_arrived (board ∷ []) in
    let finish = λ (es : List Arrival).
      arrive_all browser some
        (λ s. 0)
        "00:11:22:aa:bb:cc"
        es
        (started browser some (λ s. 0) "00:11:22:aa:bb:cc" first_world) in
    ((finish (known ∷ found ∷ known ∷ [])).groups
      ≡ some (found_all (group_among (some (fleet ∷ []))) (7 ∷ [])))
    × ((finish (found ∷ known ∷ [])).groups ≡ some [])
arrive_all-order_example =
    arrive_all-order browser some (λ s. 0) "00:11:22:aa:bb:cc" first_world (board ∷ []) board
      (7 ∷ []) (fleet ∷ []) (groups_arrived (fleet ∷ []) ∷ []) board_found refl

-- The terminal was opened by its button, and got ready.
abbrev in_use : Shell browser
in_use = happen browser ready (toggle browser (shell_of browser shell_page))

in_use-Reached : Reached browser in_use
in_use-Reached = got_ready (toggled (start shell_page refl))

happen-shown_example :
    let t = happen browser (closed "bye") in_use in
    let ends = true && (in_use.terminal.has_listener && not in_use.terminal.is_unmounted) in
    (t.page.is_terminal_opened ≡ (in_use.page.is_terminal_opened && not ends))
    × (t.page.device.connected ≡ (in_use.page.device.connected && not ends))
happen-shown_example = happen-shown browser (closed "bye") in_use-Reached refl
