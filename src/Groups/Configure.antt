-- ===== src/Groups/Configure.antt =====
-- `configureGroup` of GroupsList.vue, and what it compares: the selection of the user, the group as
-- it was when the popup was opened, and the group as it is now.
pub mod Diff
pub mod Plan
pub mod Stages
pub mod Outcomes
pub mod Steps
pub mod Server
pub mod Made
pub mod Chosen
pub mod Reached
use rdfm.Base.{
  ℕ, ◌==◌, nat_eq, string_eq, String, Bool, true, false, not, ◌&&◌, ◌||◌, Option, none, some,
}
use rdfm.Base.{List, [], ◌∷◌, map, filter, find, includes, if◌then◌else◌, Exec}
use rdfm.Utils.Model.{RequestOutput, Group}
use rdfm.Utils.Form.{or_text}
use rdfm.Utils.World.{Browser, World, Json, num}
use rdfm.Utils.Notifications.{notify_error, notify_success}
use rdfm.Groups.Requests.{
  update_priority_request, patch_devices_request, update_packages_request, update_policy_request,
}
use rdfm.Groups.Page.{
  Page, DataEntry, InitialGroupConfiguration, on_world, notify, close_configure_group_popup,
}

-- `JSON.stringify(a) === JSON.stringify(b)` for lists of numbers
unfoldable pub same_numbers : List ℕ → List ℕ → Bool
same_numbers [] [] = true
same_numbers (m ∷ ms) (n ∷ ns) = m == n && same_numbers ms ns
same_numbers _ _ = false

unfoldable pub was_group_modified : Group → InitialGroupConfiguration → Bool
unfolding same_numbers
was_group_modified original initial = not (
    original.id == initial.id
    && (original.priority == initial.priority
        && (original.policy == initial.policy
            && (same_numbers original.packages initial.packages
                && same_numbers original.devices initial.devices))))

-- `list.value.filter(({ selected }) => selected).map(({ id }) => id)`
unfoldable pub selected_ids : List DataEntry → List ℕ
selected_ids entries = map (λ e. e.id) (filter (λ e. e.selected) entries)

unfoldable pub removed_devices : List ℕ → List ℕ → List ℕ
removed_devices before after = filter (λ d. not (includes after d)) before

unfoldable pub added_devices : List ℕ → List ℕ → List ℕ
added_devices before after = filter (λ d. not (includes before d)) after

-- `priority! !== initial.priority`; what is no number differs.
abbrev priority_differs : Option Json → ℕ → Bool
priority_differs (some (num n)) m = not (n == m)
priority_differs _ m = true

-- `priority!` in a body; null stays null.
abbrev priority_json : Option Json → Json
priority_json none = Json.null
priority_json (some j) = j

-- `JSON.stringify(policy) != JSON.stringify(initial)`
abbrev policy_differs : Option String → String → Bool
policy_differs none old = true
policy_differs (some new) old = not (new == old)

abbrev is_empty : List ℕ → Bool
is_empty [] = true
is_empty (x ∷ xs) = false

-- Where `configureGroup` returns. `thrown`: the group is gone, and reading its `id` throws.
pub data Outcome : Type 0 where
  thrown modified priority_refused devices_refused packages_refused : Outcome
  policy_missing policy_refused updated : Outcome

-- Go on with the value of `requestWasMade`, or return.
pub data Flow : Type 0 where
  go : Bool → Flow
  stop : Outcome → Flow

module _ (b : Browser) where
  abbrev Stage : Type 0
  Stage = Page b → Flow × Page b

  -- `if (!success) { notifyError(…); return; }`
  abbrev after_request : RequestOutput → String → String → Outcome → Bool → Stage
  after_request out headline text refused made p =
      if out.success
      then (go made, p)
      else (stop refused, notify b (notify_error b headline (some (or_text out.message text))) p)

  abbrev request : Exec (World b) RequestOutput → String → String → Outcome → Bool → Stage
  request m headline text refused made p =
      let r = on_world b m p in after_request r.0 headline text refused made r.1

  unfoldable pub priority_stage : ℕ → InitialGroupConfiguration → Stage
  priority_stage id initial p =
      if priority_differs p.configuration.priority initial.priority
      then request (update_priority_request b id (priority_json p.configuration.priority))
          "Error when updating group priority:" "Updating group priority failed" priority_refused
          true p
      else (go false, p)

  unfoldable pub devices_stage : ℕ → InitialGroupConfiguration → Bool → Stage
  unfolding removed_devices added_devices selected_ids
  devices_stage id initial made p =
      let new = selected_ids p.device_list in
      let removed = removed_devices initial.devices new in
      let added = added_devices initial.devices new in
      if not (is_empty removed) || not (is_empty added)
      then request (patch_devices_request b id added removed) "Error when updating group devices:"
          "Updating group devices failed" devices_refused true p
      else (go made, p)

  unfoldable pub packages_stage : ℕ → InitialGroupConfiguration → Bool → Stage
  unfolding same_numbers selected_ids
  packages_stage id initial made p =
      let new = selected_ids p.package_list in
      if not (same_numbers initial.packages new)
      then request (update_packages_request b id new) "Error when updating group packages:"
          "Updating group packages failed" packages_refused true p
      else (go made, p)

  -- The flag stays as it is.
  unfoldable pub post_policy_stage : ℕ → Option String → Bool → Stage
  post_policy_stage id none made p = (
    stop policy_missing,
    notify b
        (notify_error b "Error when updating group policy:" (some "Policy is a required field")) p,
  )
  post_policy_stage id (some policy) made p =
      if policy == ""
      then (
        stop policy_missing,
        notify b
            (notify_error b "Error when updating group policy:" (some "Policy is a required field"))
            p,
      )
      else request (update_policy_request b id policy) "Error when updating group update policy"
          "Updating group update policy failed" policy_refused made p

  unfoldable pub policy_stage : ℕ → InitialGroupConfiguration → Bool → Stage
  unfolding post_policy_stage
  policy_stage id initial made p =
      if policy_differs p.configuration.policy initial.policy
      then post_policy_stage id p.configuration.policy made p
      else (go made, p)

  infixl 5 ◌then_stage◌
  abbrev ◌then_stage◌ : Flow × Page b → (Bool → Stage) → Flow × Page b
  ◌then_stage◌ (go made, p) k = k made p
  ◌then_stage◌ (stop o, p) k = (stop o, p)

  abbrev pub finish : Flow × Page b → Outcome × Page b
  finish (stop o, p) = (o, p)
  finish (go true, p) = (
    updated,
    close_configure_group_popup b
        (notify b (notify_success b "Group configuration was updated" none) p),
  )
  finish (go false, p) = (updated, close_configure_group_popup b p)

  -- The stages, in order, once no modification was found.
  unfoldable pub stages : ℕ → InitialGroupConfiguration → Page b → Outcome × Page b
  unfolding priority_stage devices_stage packages_stage policy_stage
  stages id initial p = finish (
      priority_stage id initial p
      then_stage devices_stage id initial
      then_stage packages_stage id initial
      then_stage policy_stage id initial)

  abbrev checked : Option Group → Option InitialGroupConfiguration → ℕ → Page b → Outcome × Page b
  checked (some g) (some initial) id p =
      if was_group_modified g initial
      then (
        modified,
        notify b
            (notify_error b "Modification detected during configuration! Configuration is aborted."
              none)
            p,
      )
      else stages id initial p
  checked _ _ id p = (thrown, p)

  -- `groupResources.resources.value!.find((group) => group.id === groupConfiguration.id!)`
  unfoldable pub group_to_modify : ℕ → Page b → Option Group
  group_to_modify id p = elim p.world.stores.groups.resources [
    | none ↦ none
    | some groups ↦ find (λ g. g.id == id) groups
  ]

  abbrev configure_by : Option ℕ → Page b → Outcome × Page b
  configure_by none p = (thrown, p)
  configure_by (some id) p = checked (group_to_modify id p) p.initial id p

  unfoldable pub configure_group : Page b → Outcome × Page b
  unfolding group_to_modify stages was_group_modified
  configure_group p = configure_by p.configuration.id p
