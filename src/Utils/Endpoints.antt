-- ===== src/Utils/Endpoints.antt =====
-- The endpoints of the server's API in utils.ts. `server` is SERVER_URL, which the build and the
-- browser's location give.
pub mod Distinct
use rdfm.Base.{ℕ, String, ◌<>◌, show}

module _ (server : String) where
  pub packages_endpoint : String
  packages_endpoint = server <> "/api/v1/packages"

  pub delete_package_endpoint : ℕ → String
  delete_package_endpoint id = packages_endpoint <> "/" <> show id

  pub download_package_endpoint : ℕ → String
  download_package_endpoint id = packages_endpoint <> "/" <> show id <> "/download"

  pub devices_endpoint : String
  devices_endpoint = server <> "/api/v2/devices"

  pub pending_endpoint : String
  pending_endpoint = server <> "/api/v1/auth/pending"

  pub permissions_endpoint : String
  permissions_endpoint = server <> "/api/v1/permissions"

  pub register_device_endpoint : String
  register_device_endpoint = server <> "/api/v1/auth/register"

  pub delete_device_endpoint : ℕ → String
  delete_device_endpoint id = devices_endpoint <> "/" <> show id

  pub device_actions_endpoint : String → String
  device_actions_endpoint mac = server <> "/api/v2/devices/" <> mac <> "/action/list"

  pub device_tags_endpoint : ℕ → String
  device_tags_endpoint id = server <> "/api/v2/devices/" <> show id <> "/tags"

  pub device_add_tag_endpoint : ℕ → String → String
  device_add_tag_endpoint id tag = server <> "/api/v2/devices/" <> show id <> "/tag/" <> tag

  pub tags_endpoint : String → String
  tags_endpoint tag = server <> "/api/v2/tags/" <> tag

  pub groups_endpoint : String
  groups_endpoint = server <> "/api/v2/groups"

  pub delete_group_endpoint : ℕ → String
  delete_group_endpoint id = groups_endpoint <> "/" <> show id

  pub update_group_priority_endpoint : ℕ → String
  update_group_priority_endpoint id = groups_endpoint <> "/" <> show id <> "/priority"

  pub update_group_policy_endpoint : ℕ → String
  update_group_policy_endpoint id = groups_endpoint <> "/" <> show id <> "/policy"

  pub patch_devices_in_group_endpoint : ℕ → String
  patch_devices_in_group_endpoint id = groups_endpoint <> "/" <> show id <> "/devices"

  pub assign_package_in_group_endpoint : ℕ → String
  assign_package_in_group_endpoint id = groups_endpoint <> "/" <> show id <> "/package"

-- These are relative to the page.
pub device_actions_exec_endpoint : String → String → String
device_actions_exec_endpoint mac action_id =
    "/api/v2/devices/" <> mac <> "/action/exec/" <> action_id

pub device_action_log_endpoint : String → String
device_action_log_endpoint mac = "/api/v2/devices/" <> mac <> "/action/log"

pub device_pending_actions_endpoint : String → String
device_pending_actions_endpoint mac = "/api/v2/devices/" <> mac <> "/action/pending"

pub device_remove_actions_endpoint : String → String
device_remove_actions_endpoint mac = "/api/v2/devices/" <> mac <> "/action/remove"

pub device_shell_endpoint : String → String → String
device_shell_endpoint mac token = "/api/v1/devices/" <> mac <> "/shell?token=" <> token

pub device_download_file_endpoint : ℕ → String
device_download_file_endpoint id = "/api/v2/devices/" <> show id <> "/fs/file"

-- The paths of the login and logout pages of the identity provider.
pub login_path : String → String → String → String
login_path login_url client frontend =
    login_url <> "?response_type=token&client_id=" <> client <> "&redirect_uri=" <> frontend
    <> "/auth_data"

pub logout_path : String → String → String → String
logout_path logout_url client frontend =
    logout_url <> "?client_id=" <> client <> "&post_logout_redirect_uri=" <> frontend <> "/logout"
