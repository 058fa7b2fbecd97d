-- ===== src/Devices/Requests/Commands.antt =====
-- The requests of devices.ts that change something, as commands, and the execution of an action.
use rdfm.Base.{
  ℕ, ℤ, String, ◌<>◌, show_code, Option, none, some, true, false, List, [], ◌∷◌, ◌≡◌, ap, refl,
  arith, Exec, Bool-cases, inl, inr,
}
use rdfm.Utils.Model.{RequestOutput, Shape, DataOutput, data_failed}
use rdfm.Utils.Endpoints.{
  register_device_endpoint, pending_endpoint, delete_device_endpoint, device_action_log_endpoint,
  device_pending_actions_endpoint, device_remove_actions_endpoint, device_actions_exec_endpoint,
}
use rdfm.Utils.World.{Browser, World, json, strs, obj, end, field, Getter}
use rdfm.Utils.Fetch.{Output, fetch_once, fetch_get}
use rdfm.Utils.Resources.{code_is}
use rdfm.Utils.Command.{Command, perform, refresh_all, Send, Keeps, perform-Keeps, sent_by}
use rdfm.Devices.Requests.{
  json_headers, registration, register_message, action_message, register_device_request,
  remove_pending_device_request, remove_device_request, clear_device_action_log,
  remove_pending_device_actions, remove_selected_device_actions, exec_action, action_outcome,
}

pub data DeviceCommand : Type 0 where
  register_device remove_pending_device : String → String → DeviceCommand
  remove_device : ℕ → DeviceCommand
  clear_log remove_pending_actions : String → DeviceCommand
  remove_selected_actions : String → List String → DeviceCommand

-- The method, the endpoint and the body of each, and what is refreshed afterwards.
pub device_command : String → DeviceCommand → Command
unfolding register_message
device_command server (register_device mac key) = record {
  url = register_device_endpoint server;
  method = "POST";
  body = json (registration mac key);
  explain = register_message;
  refreshes = Getter.pending_devices ∷ Getter.registered_devices ∷ [];
}
device_command server (remove_pending_device mac key) = record {
  url = pending_endpoint server;
  method = "DELETE";
  body = json (registration mac key);
  explain = action_message;
  refreshes = Getter.pending_devices ∷ Getter.registered_devices ∷ [];
}
device_command server (remove_device id) = record {
  url = delete_device_endpoint server id;
  method = "DELETE";
  body = json (obj end);
  explain = action_message;
  refreshes = Getter.pending_devices ∷ Getter.registered_devices ∷ [];
}
device_command server (clear_log mac) = record {
  url = device_action_log_endpoint mac;
  method = "DELETE";
  body = json (obj end);
  explain = λ code. "Failed to clear device action log. Got a response code of " <> show_code code;
  refreshes = [];
}
device_command server (remove_pending_actions mac) = record {
  url = device_pending_actions_endpoint mac;
  method = "DELETE";
  body = json (obj end);
  explain =
      λ code. "Failed to remove pending device actions. Got a response code of " <> show_code code;
  refreshes = [];
}
device_command server (remove_selected_actions mac ids) = record {
  url = device_remove_actions_endpoint mac;
  method = "POST";
  body = json (obj (field "actions" (strs ids) end));
  explain =
      λ code. "Failed to remove selected device actions. Got a response code of " <> show_code code;
  refreshes = [];
}

-- How the execution of an action ends, after the result of its request.
pub data Executed (m : DataOutput ℤ) (o : Output ℤ) : Type 0 where
  queued :
      o.code ≡ some 202
      → m ≡ record {
        success = true;
        message = some "Device not connected. Queued action execution.";
        result = none;
      }
      → Executed m o
  executed :
      ¬ (o.code ≡ some 202)
      → o.success ≡ true
      → m ≡ record { success = true; message = none; result = o.result }
      → Executed m o
  refused_action :
      ¬ (o.code ≡ some 202)
      → o.success ≡ false
      → m ≡ data_failed (action_message o.code)
      → Executed m o

code_is-some : (o : Option ℕ) (n : ℕ) → code_is o n ≡ true → o ≡ some n
code_is-some none n h = cc
code_is-some (some m) n h = let e : m ≡ n = ground arith in ap some e

code_is-not : (o : Option ℕ) (n : ℕ) → code_is o n ≡ false → ¬ (o ≡ some n)
code_is-not none n h e = cc
code_is-not (some m) n h e = ground (arith, e)

module _ (b : Browser) where
  pub run_device : DeviceCommand → Exec (World b) RequestOutput
  run_device (register_device mac key) = register_device_request b mac key
  run_device (remove_pending_device mac key) = remove_pending_device_request b mac key
  run_device (remove_device id) = remove_device_request b id
  run_device (clear_log mac) = clear_device_action_log b mac
  run_device (remove_pending_actions mac) = remove_pending_device_actions b mac
  run_device (remove_selected_actions mac ids) = remove_selected_device_actions b mac ids

  -- The common way to send: with headers of its own.
  abbrev pub send : Send b
  send url method body = fetch_once b Shape.ignored url method json_headers body

  run_device-perform :
      (c : DeviceCommand) (w : World b)
      → run_device c w ≡ perform b send (device_command b.server_url c) w
  unfolding run_device device_command perform refresh_all register_device_request
      remove_pending_device_request remove_device_request clear_device_action_log
      remove_pending_device_actions remove_selected_device_actions
  run_device-perform (register_device mac key) w = ground arith
  run_device-perform (remove_pending_device mac key) w = ground arith
  run_device-perform (remove_device id) w = ground arith
  run_device-perform (clear_log mac) w = ground arith
  run_device-perform (remove_pending_actions mac) w = ground arith
  run_device-perform (remove_selected_actions mac ids) w = ground arith

  -- The request that executes an action.
  abbrev pub sent_action : String → String → World b → Output ℤ × World b
  sent_action mac action_id w =
      fetch_get b Shape.executed (device_actions_exec_endpoint mac action_id) w

  action_outcome-Executed : (o : Output ℤ) → Executed (action_outcome o) o
  unfolding action_outcome
  action_outcome-Executed o = elim (Bool-cases (code_is o.code 202)) [
    | inl waits ↦ queued (code_is-some o.code 202 waits) (rw waits refl)
    | inr other ↦ elim (Bool-cases o.success) [
      | inl fine ↦ executed (code_is-not o.code 202 other) fine (rw (other, fine) refl)
      | inr bad ↦ refused_action (code_is-not o.code 202 other) bad (rw (other, bad) refl)
    ]
  ]

  -- The requests of devices.ts that change something. Those that register a device, remove one,
  -- refuse a registration, clear the action log or remove queued actions send their command, once
  -- and with headers of their own. They report success exactly when the server accepted the request;
  -- then both lists of devices are refreshed where the command changes them. A failure has the
  -- message for its code, and nothing is refreshed or changed after the reply. The execution of an
  -- action sends one GET and changes nothing else; its result says that the action is queued for
  -- the code 202, else it has the data of the reply after success, and the message for the code after
  -- a failure.
  pub run_device-Keeps :
      (w : World b)
      → ((c : DeviceCommand)
          → let spec = device_command b.server_url c in
            Keeps b (run_device c w) (sent_by b send spec w) spec.explain spec.refreshes)
        × ((mac action_id : String)
            → Executed (exec_action b mac action_id w).0 (sent_action mac action_id w).0
              × ((exec_action b mac action_id w).1 ≡ (sent_action mac action_id w).1))
  unfolding exec_action
  run_device-Keeps w = (
    λ c. rw (run_device-perform c w) (perform-Keeps b send (device_command b.server_url c) w),
    λ mac action_id. (action_outcome-Executed (sent_action mac action_id w).0, refl),
  )
