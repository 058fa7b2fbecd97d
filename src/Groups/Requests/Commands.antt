-- ===== src/Groups/Requests/Commands.antt =====
-- The requests of groups.ts that change something, as commands, and the submission of a new group.
use rdfm.Base.{ℕ, String, ◌<>◌, string_eq, List, count_char}
use rdfm.Base.{[], ◌∷◌, ◌≡◌, ◌↔◌, refl, arith, Bool-cases, inl, inr, Exec}
use rdfm.Utils.Model.{RequestOutput, failed, Shape}
use rdfm.Utils.Endpoints.{
  groups_endpoint, delete_group_endpoint, update_group_priority_endpoint,
  update_group_policy_endpoint, patch_devices_in_group_endpoint, assign_package_in_group_endpoint,
}
use rdfm.Utils.Form.{HasText, HasNumber, is_falsy-false_iff, is_falsy_number-false_iff}
use rdfm.Utils.World.{Browser, World, empty, json, Json, str, nums, obj, end, field, Getter}
use rdfm.Utils.Fetch.{Output, fetch_delete}
use rdfm.Groups.Requests.Policy.{is_malformed_iff}
use rdfm.Utils.Command.{Command, Keeps, perform, perform-Keeps, refresh_all, sent_by, Send}
use rdfm.Groups.Requests.Messages.{
  patch_message, packages_message, policy_message, priority_message, remove_message,
}
use rdfm.Groups.Requests.{
  NewGroupData, new_group_errors, new_group_body, fetch_shared, patch_devices_request,
  update_packages_request, update_priority_request, remove_group_request, post_policy,
  update_policy_request, is_malformed,
}

pub data GroupCommand : Type 0 where
  patch_devices : ℕ → List ℕ → List ℕ → GroupCommand
  update_packages : ℕ → List ℕ → GroupCommand
  update_priority : ℕ → Json → GroupCommand
  post_policy_of : ℕ → String → GroupCommand
  remove_group : ℕ → GroupCommand

unfoldable pub group_command : String → GroupCommand → Command
group_command server (patch_devices id added removed) = record {
  url = patch_devices_in_group_endpoint server id;
  method = "PATCH";
  body = json (obj (field "add" (nums added) (field "remove" (nums removed) end)));
  explain = patch_message;
  refreshes = Getter.groups ∷ [];
}
group_command server (update_packages id packages) = record {
  url = assign_package_in_group_endpoint server id;
  method = "POST";
  body = json (obj (field "packages" (nums packages) end));
  explain = packages_message;
  refreshes = Getter.groups ∷ [];
}
group_command server (update_priority id priority) = record {
  url = update_group_priority_endpoint server id;
  method = "POST";
  body = json (obj (field "priority" priority end));
  explain = priority_message;
  refreshes = Getter.groups ∷ [];
}
group_command server (post_policy_of id policy) = record {
  url = update_group_policy_endpoint server id;
  method = "POST";
  body = json (obj (field "policy" (str policy) end));
  explain = policy_message;
  refreshes = Getter.groups ∷ [];
}
group_command server (remove_group id) = record {
  url = delete_group_endpoint server id;
  method = "DELETE";
  body = empty;
  explain = remove_message;
  refreshes = Getter.groups ∷ [];
}

-- A policy is sent if it has exactly one comma; the other commands always are.
abbrev pub IsSendable : GroupCommand → Type 0
IsSendable (post_policy_of id policy) = count_char b',' policy ≡ 1
IsSendable _ = Unit {0}

module _ (b : Browser) where
  unfoldable pub run_group : GroupCommand → Exec (World b) RequestOutput
  run_group (patch_devices id added removed) = patch_devices_request b id added removed
  run_group (update_packages id packages) = update_packages_request b id packages
  run_group (update_priority id priority) = update_priority_request b id priority
  run_group (post_policy_of id policy) = update_policy_request b id policy
  run_group (remove_group id) = remove_group_request b id

  -- A DELETE has headers of its own; the others share the module's.
  unfoldable pub send : GroupCommand → Send b
  send (remove_group id) url method body = fetch_delete b Shape.ignored url
  send _ url method body = fetch_shared b url method body

  run_group-perform :
      (c : GroupCommand) (w : World b)
      → IsSendable c
      → run_group c w ≡ perform b (send c) (group_command b.server_url c) w
  unfolding run_group group_command perform refresh_all send patch_devices_request
      update_packages_request update_priority_request post_policy remove_group_request
      update_policy_request
  run_group-perform (patch_devices id added removed) w h = ground arith
  run_group-perform (update_packages id packages) w h = ground arith
  run_group-perform (update_priority id priority) w h = ground arith
  run_group-perform (post_policy_of id policy) w h = ground (arith, is_malformed_iff policy)
  run_group-perform (remove_group id) w h = ground arith

  pub sendable-Keeps :
      (c : GroupCommand) (w : World b)
      → IsSendable c
      → let spec = group_command b.server_url c in
        Keeps b (run_group c w) (sent_by b (send c) spec w) spec.explain spec.refreshes
  sendable-Keeps c w h =
      rw (run_group-perform c w h) (perform-Keeps b (send c) (group_command b.server_url c) w)

  -- What a request that changes a group does: it sends its command, or it is a policy that cannot be
  -- sent, and nothing happens but a failure that quotes the policy.
  pub data Runs (c : GroupCommand) (w : World b) : Type 0 where
    sent :
        IsSendable c
        → Keeps b
            (run_group c w)
            (sent_by b (send c) (group_command b.server_url c) w)
            (group_command b.server_url c).explain
            (group_command b.server_url c).refreshes
        → Runs c w
    unsent :
        (id : ℕ) (policy : String)
        → c ≡ post_policy_of id policy
        → ¬ (count_char b',' policy ≡ 1)
        → run_group c w ≡ (failed ("Invalid policy format: " <> policy), w)
        → Runs c w

  policy-Runs : (id : ℕ) (policy : String) (w : World b) → Runs (post_policy_of id policy) w
  unfolding run_group update_policy_request
  policy-Runs id policy w = elim (Bool-cases (is_malformed policy)) [
    | inl bad ↦
        unsent id policy refl (λ e. ground (arith, is_malformed_iff policy, e)) (rw bad refl)
    | inr fine ↦
        let one = (is_malformed_iff policy).0 fine in
        sent one (sendable-Keeps (post_policy_of id policy) w one)
  ]

  -- The five requests of groups.ts that change the devices, the packages, the priority or the policy
  -- of a group, or remove it: each sends its command once, but a policy that does not have exactly
  -- one comma is not sent: it fails with a message that quotes it, and nothing is changed. A request
  -- that is sent reports success exactly when the server accepted it, and then refreshes the
  -- groups. A failure has the message for its code, and nothing is refreshed or changed after the
  -- reply.
  pub run_group-Keeps : (c : GroupCommand) (w : World b) → Runs c w
  run_group-Keeps (patch_devices id added removed) w =
      sent tt (sendable-Keeps (patch_devices id added removed) w tt)
  run_group-Keeps (update_packages id packages) w =
      sent tt (sendable-Keeps (update_packages id packages) w tt)
  run_group-Keeps (update_priority id priority) w =
      sent tt (sendable-Keeps (update_priority id priority) w tt)
  run_group-Keeps (post_policy_of id policy) w = policy-Runs id policy w
  run_group-Keeps (remove_group id) w = sent tt (sendable-Keeps (remove_group id) w tt)

-- The form is complete: a name and a description, not empty, and a priority other than 0.
pub record IsComplete (new : NewGroupData) : Type 0 where
  pub has_name : HasText new.name
  pub has_description : HasText new.description
  pub has_priority : HasNumber new.priority

-- The form of a new group has no errors exactly when it is complete: a name and a description
-- that are not empty, and a priority other than 0.
pub new_group_errors-nil_iff : (new : NewGroupData) → (new_group_errors new ≡ []) ↔ IsComplete new
unfolding new_group_errors
new_group_errors-nil_iff new =
    let name = is_falsy-false_iff new.name in
    let description = is_falsy-false_iff new.description in
    let priority = is_falsy_number-false_iff new.priority in
    (
      λ e. record {
        has_name = name.0 (ground arith);
        has_description = description.0 (ground arith);
        has_priority = priority.0 (ground arith);
      },
      λ c.
          ground
            (arith, name.1 c.has_name, description.1 c.has_description, priority.1 c.has_priority),
    )

module _ (b : Browser) where
  -- The POST of the form.
  abbrev pub post_group : NewGroupData → World b → Output (Unit {0}) × World b
  post_group new = fetch_shared b (groups_endpoint b.server_url) "POST" (json (new_group_body new))
