-- ===== src/Packages/Requests.antt =====
-- frontend/src/components/packages/packages.ts: one function for each request about packages.
pub mod Laws
use rdfm.Base.{
  ℕ, ◌==◌, string_eq, String, ◌<>◌, Bool, true, false, Option, none, some, List, [], ◌∷◌,
}
use rdfm.Base.{◌++◌, show_code, if◌then◌else◌, Exec, ◌>>=◌, ◌>>◌, pure}
use rdfm.Utils.Model.{RequestOutput, succeeded, failed, Shape}
use rdfm.Utils.Endpoints.{packages_endpoint, delete_package_endpoint, download_package_endpoint}
use rdfm.Utils.Form.{is_falsy, text_value, error_if}
use rdfm.Utils.World.{Browser, World, form, Getter}
use rdfm.Utils.Fetch.{Output, fetch_post, fetch_delete, fetch_get}
use rdfm.Utils.Resources.{
  fetch_resources, code_is, bad_request, unauthorized, forbidden, not_found, conflict,
}
use rdfm.Utils.Permissions.{update_permissions}

pub record NewPackageData : Type 0 where
  pub version : Option String
  pub device_type : Option String

abbrev no_files : List String → Bool
no_files [] = true
no_files (f ∷ fs) = false

abbrev pub first_file : List String → String
first_file [] = ""
first_file (f ∷ fs) = f

-- The errors of the form, by field.
pub upload_errors : List String → NewPackageData → List (String × String)
upload_errors files new =
    error_if (no_files files) "file" "No file provided"
    ++ (error_if (is_falsy new.version) "version" "No package version provided"
        ++ error_if (is_falsy new.device_type) "deviceType" "No device type provided")

pub upload_message : Option ℕ → String
upload_message code =
    if code_is code bad_request
    then "Provided metadata contains keys reserved by RDFM or a file was not provided."
    else if code_is code unauthorized
    then "User did not provide authorization data, or the authorization has expired"
    else if code_is code forbidden
    then "User was authorized, but did not have permission to upload packages"
    else "Failed to upload a package. Got a response code of " <> show_code code

pub remove_message : Option ℕ → String
remove_message code =
    if code_is code unauthorized
    then "User did not provide authorization data, or the authorization has expired"
    else if code_is code forbidden
    then "User was authorized, but did not have permission to delete packages"
    else if code_is code not_found
    then "Specified package does not exist"
    else if code_is code conflict
    then "Package is assigned to a group and cannot be deleted"
    else "Failed to delete package. Got a response code of " <> show_code code

pub download_message : Option ℕ → String
download_message code =
    if code_is code unauthorized
    then "User did not provide authorization data, or the authorization has expired"
    else if code_is code forbidden
    then "User was authorized, but did not have permission to download packages"
    else if code_is code not_found
    then "Specified package does not exist"
    else "Failed to download package. Got a response code of " <> show_code code

module _ (b : Browser) where
  -- `updatePermissions(); return output`: `none` if the call throws, which rejects the promise.
  pub with_permissions : RequestOutput → Exec (World b) (Option RequestOutput)
  unfolding update_permissions
  with_permissions output = do
    done ← update_permissions b
    pure (if done then some output else none)

  abbrev after_upload : Exec (World b) (Option RequestOutput)
  after_upload = do fetch_resources b Getter.packages; with_permissions succeeded

  -- what follows the validation; `files![0]` is the file
  upload_valid : List String → NewPackageData → Exec (World b) (Option RequestOutput)
  unfolding fetch_post upload_message with_permissions
  upload_valid files new = do
    out ← fetch_post b Shape.ignored (packages_endpoint b.server_url) [] (
        form (
          ("file", first_file files)
          ∷ ("rdfm.software.version", text_value new.version)
          ∷ ("rdfm.hardware.devtype", text_value new.device_type)
          ∷ []))
    if out.success then after_upload else pure (some (failed (upload_message out.code)))

  abbrev upload_checked :
      List (String × String) → List String → NewPackageData → Exec (World b) (Option RequestOutput)
  upload_checked [] files new = upload_valid files new
  upload_checked (e ∷ es) files new =
      pure (some (record { success = false; message = none; errors = some (e ∷ es) }))

  pub upload_package_request : List String → NewPackageData → Exec (World b) (Option RequestOutput)
  unfolding upload_valid upload_errors
  upload_package_request files new = upload_checked (upload_errors files new) files new

  abbrev after_remove : Exec (World b) RequestOutput
  after_remove = do fetch_resources b Getter.packages; pure succeeded

  pub remove_package_request : ℕ → Exec (World b) RequestOutput
  unfolding fetch_delete remove_message
  remove_package_request id = do
    out ← fetch_delete b Shape.ignored (delete_package_endpoint b.server_url id)
    if out.success then after_remove else pure (failed (remove_message out.code))

  pub download_package_request : ℕ → Exec (World b) RequestOutput
  unfolding fetch_get download_message
  download_package_request id = do
    out ← fetch_get b Shape.link (download_package_endpoint b.server_url id)
    pure (
        if out.success
        then record { success = true; message = out.result; errors = none }
        else failed (download_message out.code))
