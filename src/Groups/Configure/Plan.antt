-- ===== src/Groups/Configure/Plan.antt =====
-- `configureGroup` against a plan: the list of the changes that the user made, sent in order until
-- one is refused. `Stages` proves that the code follows the plan.
use rdfm.Base.{ℕ, String, ◌==◌, string_eq, nat_eq, Bool, true, false, not, ◌||◌, Option, none}
use rdfm.Base.{some, List, [], ◌∷◌, ◌++◌}
use rdfm.Base.{if◌then◌else◌}
use rdfm.Utils.Model.{RequestOutput, failed}
use rdfm.Utils.World.{Browser, World, Json}
use rdfm.Groups.Requests.{
  update_priority_request, patch_devices_request, update_packages_request, update_policy_request,
}
use rdfm.Groups.Page.{Page, InitialGroupConfiguration}
use rdfm.Groups.Configure.{
  removed_devices, added_devices, selected_ids, same_numbers, is_empty, priority_differs,
  policy_differs, priority_json,
}

pub data Change : Type 0 where
  set_priority : Json → Change
  patch_devices : List ℕ → List ℕ → Change
  set_packages : List ℕ → Change
  set_policy : String → Change
  -- the policy was cleared
  no_policy : Change

abbrev pub planned_if : Bool → Change → List Change
planned_if true c = c ∷ []
planned_if false c = []

abbrev pub policy_change : Option String → Change
policy_change none = no_policy
policy_change (some policy) = if policy == "" then no_policy else set_policy policy

module _ (b : Browser) (initial : InitialGroupConfiguration) (p : Page b) where
  unfoldable pub plan_priority : List Change
  plan_priority =
      planned_if (priority_differs p.configuration.priority initial.priority)
        (set_priority (priority_json p.configuration.priority))

  unfoldable pub plan_devices : List Change
  plan_devices =
      let removed = removed_devices initial.devices (selected_ids p.device_list) in
      let added = added_devices initial.devices (selected_ids p.device_list) in
      planned_if (not (is_empty removed) || not (is_empty added)) (patch_devices added removed)

  unfoldable pub plan_packages : List Change
  plan_packages =
      planned_if (not (same_numbers initial.packages (selected_ids p.package_list)))
        (set_packages (selected_ids p.package_list))

  unfoldable pub plan_policy : List Change
  plan_policy =
      planned_if (policy_differs p.configuration.policy initial.policy)
        (policy_change p.configuration.policy)

  -- What differs from the initial configuration, in the order of the requests.
  unfoldable pub plan : List Change
  unfolding plan_priority plan_devices plan_packages plan_policy
  plan = ((plan_priority ++ plan_devices) ++ plan_packages) ++ plan_policy

module _ (b : Browser) (id : ℕ) where
  -- The request for a change; a missing policy is refused without one.
  unfoldable pub send_change : Change → World b → RequestOutput × World b
  send_change (set_priority j) = update_priority_request b id j
  send_change (patch_devices added removed) = patch_devices_request b id added removed
  send_change (set_packages packages) = update_packages_request b id packages
  send_change (set_policy policy) = update_policy_request b id policy
  send_change no_policy = λ w. (failed "", w)

  -- True if all changes were accepted.
  unfoldable pub send_all : List Change → World b → Bool × World b
  unfolding send_change
  send_all [] w = (true, w)
  send_all (c ∷ cs) w =
      let r = send_change c w in
      let rest = send_all cs r.1 in if r.0.success then rest else (false, r.1)
