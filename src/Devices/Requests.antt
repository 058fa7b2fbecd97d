-- ===== src/Devices/Requests.antt =====
-- frontend/src/components/devices/devices.ts: one function for each request about devices.
pub mod Commands
use rdfm.Base.{
  ℕ, ℤ, ◌==◌, nat_eq, String, ◌<>◌, Bool, true, false, Option, none, some, List, [], ◌∷◌,
}
use rdfm.Base.{show_code, if◌then◌else◌, Exec, ◌>>=◌, ◌>>◌, pure, modify, pos, negsuc}
use rdfm.Utils.Model.{
  RequestOutput, succeeded, failed, DataOutput, data_failed, Shape, Action, Task,
}
use rdfm.Utils.Endpoints.{
  register_device_endpoint, pending_endpoint, delete_device_endpoint, device_actions_exec_endpoint,
  device_actions_endpoint, device_tags_endpoint, device_action_log_endpoint,
  device_pending_actions_endpoint, device_remove_actions_endpoint, device_download_file_endpoint,
}
use rdfm.Utils.World.{Browser, World, Headers, json, Json, str, strs, obj, end, field, Getter}
use rdfm.Utils.Fetch.{Output, fetch_once, fetch_post, fetch_get}
use rdfm.Utils.Resources.{fetch_resources, code_is, unauthorized, forbidden, not_found}

-- `headers.set('Content-type', …); headers.set('Accept', …)` on new headers
abbrev pub json_headers : Headers
json_headers =
    ("Content-type", "application/json") ∷ ("Accept", "application/json, text/javascript") ∷ []

abbrev pub registration : String → String → Json
registration mac key = obj (field "mac_address" (str mac) (field "public_key" (str key) end))

-- the switch on the code
pub register_message : Option ℕ → String
register_message code =
    if code_is code unauthorized
    then "User did not provide authorization data, or the authorization has expired."
    else if code_is code forbidden
    then "User was authorized, but did not have permission to change device registration status"
    else if code_is code not_found
    then "The specified registration request does not exist"
    else "Failed to register device. Got a response code of " <> show_code code

abbrev pub action_message : Option ℕ → String
action_message code = "Failed to execute action. Got a response code of " <> show_code code

-- `if (!out.success) return { success: false, message: … + out.code }; return { success: true }`
report : {A : Type 0} → String → Output A → RequestOutput
report failure out = if out.success then succeeded else failed (failure <> show_code out.code)

-- the tests on the result of the request, in order: 202, then failure
pub action_outcome : Output ℤ → DataOutput ℤ
action_outcome out =
    if code_is out.code 202
    then record {
      success = true;
      message = some "Device not connected. Queued action execution.";
      result = none;
    }
    else if out.success
    then record { success = true; message = none; result = out.result }
    else data_failed (action_message out.code)

-- the common shape of the three getters below
data_outcome : {A : Type 0} → String → Output A → DataOutput A
data_outcome failure out =
    if out.success
    then record { success = true; message = none; result = out.result }
    else data_failed (failure <> show_code out.code)

abbrev pub is_zero : ℤ → Bool
is_zero (pos n) = n == 0
is_zero (negsuc n) = false

-- The address to open: there is one if the answer's status is 0.
file_url : Option (ℤ × String) → Option String
file_url none = none
file_url (some (status, url)) = if is_zero status then some url else none

module _ (b : Browser) where
  -- what follows `if (!out.success) return …` in the first three requests
  abbrev refetch_devices : Exec (World b) RequestOutput
  refetch_devices = do
    fetch_resources b Getter.pending_devices
    fetch_resources b Getter.registered_devices
    pure succeeded

  pub register_device_request : String → String → Exec (World b) RequestOutput
  unfolding fetch_post register_message
  register_device_request mac key = do
    out ←
        fetch_post b Shape.ignored (register_device_endpoint b.server_url) json_headers
          (json (registration mac key))
    if out.success then refetch_devices else pure (failed (register_message out.code))

  pub remove_pending_device_request : String → String → Exec (World b) RequestOutput
  unfolding fetch_once
  remove_pending_device_request mac key = do
    out ←
        fetch_once b Shape.ignored (pending_endpoint b.server_url) "DELETE" json_headers
          (json (registration mac key))
    if out.success then refetch_devices else pure (failed (action_message out.code))

  pub remove_device_request : ℕ → Exec (World b) RequestOutput
  unfolding fetch_once
  remove_device_request id = do
    out ←
        fetch_once b Shape.ignored (delete_device_endpoint b.server_url id) "DELETE" json_headers
          (json (obj end))
    if out.success then refetch_devices else pure (failed (action_message out.code))

  pub clear_device_action_log : String → Exec (World b) RequestOutput
  unfolding fetch_once report
  clear_device_action_log mac = do
    out ←
        fetch_once b Shape.ignored (device_action_log_endpoint mac) "DELETE" json_headers
          (json (obj end))
    pure (report "Failed to clear device action log. Got a response code of " out)

  pub remove_pending_device_actions : String → Exec (World b) RequestOutput
  unfolding fetch_once report
  remove_pending_device_actions mac = do
    out ←
        fetch_once b Shape.ignored (device_pending_actions_endpoint mac) "DELETE" json_headers
          (json (obj end))
    pure (report "Failed to remove pending device actions. Got a response code of " out)

  pub remove_selected_device_actions : String → List String → Exec (World b) RequestOutput
  unfolding fetch_once report
  remove_selected_device_actions mac actions = do
    out ←
        fetch_once b Shape.ignored (device_remove_actions_endpoint mac) "POST" json_headers
          (json (obj (field "actions" (strs actions) end)))
    pure (report "Failed to remove selected device actions. Got a response code of " out)

  pub exec_action : String → String → Exec (World b) (DataOutput ℤ)
  unfolding fetch_get action_outcome
  exec_action mac action_id = do
    out ← fetch_get b Shape.executed (device_actions_exec_endpoint mac action_id)
    pure (action_outcome out)

  pub get_device_actions : String → Exec (World b) (DataOutput (List Action))
  unfolding fetch_get data_outcome
  get_device_actions mac = do
    out ← fetch_get b Shape.actions (device_actions_endpoint b.server_url mac)
    pure (data_outcome "Failed to obtain device actions. Got a response code of " out)

  pub get_device_tags : ℕ → Exec (World b) (DataOutput (List String))
  unfolding fetch_get data_outcome
  get_device_tags id = do
    out ← fetch_get b Shape.tags (device_tags_endpoint b.server_url id)
    pure (data_outcome "Failed to obtain device tags. Got a response code of " out)

  pub get_device_action_log : String → Exec (World b) (DataOutput (List Task))
  unfolding fetch_get data_outcome
  get_device_action_log mac = do
    out ← fetch_get b Shape.tasks (device_action_log_endpoint mac)
    pure (data_outcome "Failed to obtain device action log. Got a response code of " out)

  abbrev open_window : String → World b → World b
  open_window url w = record w { windows = url ∷ w.windows }

  -- After `if (!out.success)` there is data.
  abbrev open_file : Option String → Exec (World b) RequestOutput
  open_file none = pure (failed "Failed to download file. It does not exist.")
  open_file (some url) = do modify (open_window url); pure succeeded

  pub download_device_file : ℕ → String → Exec (World b) RequestOutput
  unfolding fetch_once file_url
  download_device_file id file = do
    out ←
        fetch_once b Shape.stored (device_download_file_endpoint id) "POST" json_headers
          (json (obj (field "file" (str file) end)))
    if out.success
        then open_file (file_url out.result)
        else pure
            (failed ("Failed to download file. Got a response code of " <> show_code out.code))
