-- ===== src/Groups/Requests.antt =====
-- frontend/src/components/groups/groups.ts: one function for each request about groups.
pub mod Messages
pub mod Commands
pub mod Policy
pub mod SharedHeaders
use rdfm.Base.{ℕ, ◌==◌, nat_eq, string_eq, String, ◌<>◌, Bool, true, false, not, ◌||◌, Option, none}
use rdfm.Base.{some, List, [], ◌∷◌, ◌++◌, show_code, if◌then◌else◌, Exec, ◌>>=◌, ◌>>◌, pure, modify}
use rdfm.Base.{length, has_char, split, find}
use rdfm.Utils.Model.{RequestOutput, succeeded, failed, Shape, Body, Package, RegisteredDevice}
use rdfm.Utils.Endpoints.{
  groups_endpoint, delete_group_endpoint, update_group_priority_endpoint,
  update_group_policy_endpoint, patch_devices_in_group_endpoint, assign_package_in_group_endpoint,
}
use rdfm.Utils.Form.{is_falsy, is_falsy_number, text_value, number_value, error_if}
use rdfm.Utils.World.{
  Browser, World, Headers, RequestBody, json, Json, str, num, nums, obj, end, field, Getter, read,
}
use rdfm.Utils.Fetch.{Output, fetch_wrapper, fetch_delete}
use rdfm.Utils.Resources.{fetch_resources}
use rdfm.Utils.Permissions.{update_permissions}
use rdfm.Groups.Requests.Messages.{
  patch_message, packages_message, policy_message, priority_message, add_message, remove_message,
}

pub record NewGroupData : Type 0 where
  pub name : Option String
  pub description : Option String
  pub priority : Option ℕ

pub new_group_errors : NewGroupData → List (String × String)
new_group_errors new =
    error_if (is_falsy new.name) "name" "No group name provided"
    ++ (error_if (is_falsy new.description) "description" "No group description provided"
        ++ error_if (is_falsy_number new.priority) "priority" "No group priority provided")

abbrev pub new_group_body : NewGroupData → Json
new_group_body new = obj (
    field "priority" (num (number_value new.priority)) (
      field "metadata"
        (obj (
          field "rdfm.group.name" (str (text_value new.name))
            (field "rdfm.group.description" (str (text_value new.description)) end)))
        end))

-- The module's one `Headers` object, as it is made.
abbrev pub first_headers : Headers
first_headers =
    ("Content-type", "application/json") ∷ ("Accept", "application/json, text/javascript") ∷ []

-- `!policy.includes(',') || policy.split(',').length !== 2`
unfoldable pub is_malformed : String → Bool
unfolding has_char split
is_malformed policy = not (has_char b',' policy) || not (length (split b',' policy) == 2)

module _ (b : Browser) where
  -- `findPackage` and `findDevice`
  unfoldable pub find_package : ℕ → World b → Option Package
  find_package id w = elim w.stores.group_packages.resources [
    | none ↦ none
    | some ps ↦ find (λ p. p.id == id) ps
  ]

  unfoldable pub find_device : ℕ → World b → Option RegisteredDevice
  find_device id w = elim w.stores.group_devices.resources [
    | none ↦ none
    | some ds ↦ find (λ d. d.id == id) ds
  ]

  -- A request with the module's one `Headers` object, which `fetchWrapper` changes.
  unfoldable pub fetch_shared : String → String → RequestBody → Exec (World b) (Output (Unit {0}))
  unfolding fetch_wrapper
  fetch_shared url method body w =
      let r = fetch_wrapper b Shape.ignored url method w.group_headers body w in
      (r.0.0, record r.1 { group_headers = r.0.1 })

  -- `await groupResources.fetchResources(); return { success: true }`
  abbrev refetch_groups : Exec (World b) RequestOutput
  refetch_groups = do fetch_resources b Getter.groups; pure succeeded

  unfoldable pub patch_devices_request : ℕ → List ℕ → List ℕ → Exec (World b) RequestOutput
  unfolding fetch_shared
  patch_devices_request id added removed = do
    out ←
        fetch_shared (patch_devices_in_group_endpoint b.server_url id) "PATCH"
          (json (obj (field "add" (nums added) (field "remove" (nums removed) end))))
    if out.success then refetch_groups else pure (failed (patch_message out.code))

  unfoldable pub update_packages_request : ℕ → List ℕ → Exec (World b) RequestOutput
  unfolding fetch_shared
  update_packages_request id packages = do
    out ←
        fetch_shared (assign_package_in_group_endpoint b.server_url id) "POST"
          (json (obj (field "packages" (nums packages) end)))
    if out.success then refetch_groups else pure (failed (packages_message out.code))

  -- what follows the test of the format
  unfoldable pub post_policy : ℕ → String → Exec (World b) RequestOutput
  unfolding fetch_shared
  post_policy id policy = do
    out ←
        fetch_shared (update_group_policy_endpoint b.server_url id) "POST"
          (json (obj (field "policy" (str policy) end)))
    if out.success then refetch_groups else pure (failed (policy_message out.code))

  unfoldable pub update_policy_request : ℕ → String → Exec (World b) RequestOutput
  unfolding post_policy is_malformed
  update_policy_request id policy =
      if is_malformed policy
      then pure (failed ("Invalid policy format: " <> policy))
      else post_policy id policy

  -- The type says that the priority is a number; the text field of the page gives a string.
  unfoldable pub update_priority_request : ℕ → Json → Exec (World b) RequestOutput
  unfolding fetch_shared
  update_priority_request id priority = do
    out ←
        fetch_shared (update_group_priority_endpoint b.server_url id) "POST"
          (json (obj (field "priority" priority end)))
    if out.success then refetch_groups else pure (failed (priority_message out.code))

  pub remove_group_request : ℕ → Exec (World b) RequestOutput
  unfolding fetch_delete
  remove_group_request id = do
    out ← fetch_delete b Shape.ignored (delete_group_endpoint b.server_url id)
    if out.success then refetch_groups else pure (failed (remove_message out.code))

  -- Every result but one carries the map of errors, which is empty once the form is valid; `none`
  -- is a rejected promise, if `updatePermissions` throws.
  abbrev after_add : Exec (World b) (Option RequestOutput)
  after_add = do
    fetch_resources b Getter.groups
    done ← update_permissions b
    pure (if done then some (record succeeded { errors = some [] }) else none)

  add_valid : NewGroupData → Exec (World b) (Option RequestOutput)
  unfolding fetch_shared update_permissions
  add_valid new = do
    out ← fetch_shared (groups_endpoint b.server_url) "POST" (json (new_group_body new))
    if out.success then after_add else pure (some (add_message out.code))

  abbrev add_checked : List (String × String) → NewGroupData → Exec (World b) (Option RequestOutput)
  add_checked [] new = add_valid new
  add_checked (e ∷ es) new =
      pure (some (record { success = false; message = none; errors = some (e ∷ es) }))

  pub add_group_request : NewGroupData → Exec (World b) (Option RequestOutput)
  unfolding add_valid new_group_errors
  add_group_request new = add_checked (new_group_errors new) new
