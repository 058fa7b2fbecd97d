-- ===== src/Groups/Requests/Messages.antt =====
-- The messages of groups.ts for the codes of a failed request: the switch of each function.
use rdfm.Base.{ℕ, nat_eq, String, ◌<>◌, false, Option, some, [], show_code}
use rdfm.Base.{if◌then◌else◌}
use rdfm.Utils.Model.{RequestOutput, failed}
use rdfm.Utils.Resources.{code_is, bad_request, unauthorized, forbidden, not_found, conflict}

-- `patchDevicesRequest`
pub patch_message : Option ℕ → String
patch_message code =
    if code_is code unauthorized
    then "User did not provide authorization data, or the authorization has expired"
    else if code_is code forbidden
    then "User was authorized, but did not have permission to update groups"
    else if code_is code not_found
    then "Group does not exist"
    else if code_is code conflict
    then "<p>One of the conflict described below has occurred</p><ul>"
      <> "<li> Any device identifier which does not match a registered device</li>"
      <> "<li> Any device identifier in additions which already has an assigned group which has the same priority as the group specified by identifier (even if the group is the same as specified by identifier</li>"
      <> "<li> Any device identifier in removals which is not currently assigned to the specified group</li></ul>"
    else "Failed to update group devices. Got a response code of " <> show_code code

-- `updatePackagesRequest`
pub packages_message : Option ℕ → String
packages_message code =
    if code_is code bad_request
    then "Invalid request schema"
    else if code_is code unauthorized
    then "User did not provide authorization data, or the authorization has expired"
    else if code_is code forbidden
    then "User was authorized, but did not have permission to assign packages"
    else if code_is code conflict
    then "The package/group was modified or deleted during the operation"
    else if code_is code not_found
    then "The specified package or group does not exist"
    else "Failed to update group packages. Got a response code of " <> show_code code

-- `updatePolicyRequest`
pub policy_message : Option ℕ → String
policy_message code =
    if code_is code bad_request
    then "Invalid request schema, or an invalid policy schema was requested"
    else if code_is code unauthorized
    then "User did not provide authorization data, or the authorization has expired"
    else if code_is code forbidden
    then "User was authorized, but did not have permission to modify groups"
    else if code_is code not_found
    then "The specified group does not exist"
    else "Failed to update group policy. Got a response code of " <> show_code code

-- `updatePriorityRequest`
pub priority_message : Option ℕ → String
priority_message code =
    if code_is code unauthorized
    then "User did not provide authorization data, or the authorization has expired"
    else if code_is code forbidden
    then "User was authorized, but did not have permission to modify groups"
    else if code_is code conflict
    then "At least one device which is assigned to this group is also assigned to another group with the requested priority"
    else if code_is code not_found
    then "The specified group does not exist"
    else "Failed to update group priority. Got a response code of " <> show_code code

-- `removeGroupRequest`
pub remove_message : Option ℕ → String
remove_message code =
    if code_is code unauthorized
    then "User did not provide authorization data, or the authorization has expired"
    else if code_is code forbidden
    then "User was authorized, but did not have permission to delete groups"
    else if code_is code conflict
    then "At least one device or package is still assigned to the group"
    else if code_is code not_found
    then "The specified group does not exist"
    else "Failed to remove a group. Got a response code of " <> show_code code

abbrev failed_valid : String → RequestOutput
failed_valid message = record { success = false; message = some message; errors = some [] }

-- `addGroupRequest`: all but the result for 404 carry the empty map of errors.
pub add_message : Option ℕ → RequestOutput
add_message code =
    if code_is code unauthorized
    then failed_valid "User did not provide authorization data, or the authorization has expired"
    else if code_is code forbidden
    then failed_valid "User was authorized, but did not have permission to create groups"
    else if code_is code not_found
    then failed "The specified group does not exist"
    else failed_valid ("Failed to create a group. Got a response code of " <> show_code code)
