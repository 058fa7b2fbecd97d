-- ===== src/Utils/Endpoints/Distinct.antt =====
-- The endpoints that name a resource by its id: one id, one URL.
use text.Mathlib.TextLemmas.{append_cancel_left, append_cancel_right}
use rdfm.Base.{ℕ, String, ◌<>◌, ◌≡◌, show, show_inj}
use rdfm.Utils.Endpoints.{
  packages_endpoint, delete_package_endpoint, download_package_endpoint, devices_endpoint,
  delete_device_endpoint, device_tags_endpoint, groups_endpoint, delete_group_endpoint,
  update_group_priority_endpoint, update_group_policy_endpoint, patch_devices_in_group_endpoint,
  assign_package_in_group_endpoint, device_download_file_endpoint,
}

pub data IdEndpoint : Type 0 where
  delete_package download_package delete_device device_tags download_file : IdEndpoint
  delete_group update_priority update_policy patch_devices assign_packages : IdEndpoint

-- An id between two texts.
tagged_inj :
    (before after : String) (i j : ℕ)
    → before <> (show i <> after) ≡ before <> (show j <> after)
    → i ≡ j
tagged_inj before after i j e = show_inj i j (
    append_cancel_right (show i) (show j) after
      (append_cancel_left before (show i <> after) (show j <> after) e))

last_inj : (before : String) (i j : ℕ) → before <> show i ≡ before <> show j → i ≡ j
last_inj before i j e = show_inj i j (append_cancel_left before (show i) (show j) e)

module _ (server : String) where
  pub endpoint_of : IdEndpoint → ℕ → String
  endpoint_of delete_package = delete_package_endpoint server
  endpoint_of download_package = download_package_endpoint server
  endpoint_of delete_device = delete_device_endpoint server
  endpoint_of device_tags = device_tags_endpoint server
  endpoint_of download_file = device_download_file_endpoint
  endpoint_of delete_group = delete_group_endpoint server
  endpoint_of update_priority = update_group_priority_endpoint server
  endpoint_of update_policy = update_group_policy_endpoint server
  endpoint_of patch_devices = patch_devices_in_group_endpoint server
  endpoint_of assign_packages = assign_package_in_group_endpoint server

  -- A request about one package, device or group never goes to the URL of another: at each endpoint
  -- that has the id in its path, equal URLs have equal ids.
  pub endpoint_of_inj : (e : IdEndpoint) (i j : ℕ) → endpoint_of e i ≡ endpoint_of e j → i ≡ j
  unfolding endpoint_of delete_package_endpoint download_package_endpoint delete_device_endpoint
      device_tags_endpoint device_download_file_endpoint delete_group_endpoint
      update_group_priority_endpoint update_group_policy_endpoint patch_devices_in_group_endpoint
      assign_package_in_group_endpoint
  endpoint_of_inj delete_package i j h =
      last_inj "/" i j (append_cancel_left (packages_endpoint server) _ _ h)
  endpoint_of_inj download_package i j h =
      tagged_inj "/" "/download" i j (append_cancel_left (packages_endpoint server) _ _ h)
  endpoint_of_inj delete_device i j h =
      last_inj "/" i j (append_cancel_left (devices_endpoint server) _ _ h)
  endpoint_of_inj device_tags i j h =
      tagged_inj "/api/v2/devices/" "/tags" i j (append_cancel_left server _ _ h)
  endpoint_of_inj download_file i j h = tagged_inj "/api/v2/devices/" "/fs/file" i j h
  endpoint_of_inj delete_group i j h =
      last_inj "/" i j (append_cancel_left (groups_endpoint server) _ _ h)
  endpoint_of_inj update_priority i j h =
      tagged_inj "/" "/priority" i j (append_cancel_left (groups_endpoint server) _ _ h)
  endpoint_of_inj update_policy i j h =
      tagged_inj "/" "/policy" i j (append_cancel_left (groups_endpoint server) _ _ h)
  endpoint_of_inj patch_devices i j h =
      tagged_inj "/" "/devices" i j (append_cancel_left (groups_endpoint server) _ _ h)
  endpoint_of_inj assign_packages i j h =
      tagged_inj "/" "/package" i j (append_cancel_left (groups_endpoint server) _ _ h)
