-- ===== src/Tests/Configure.antt =====
-- `configureGroup` with other events while it waits.
use rdfm.Base.{◌≡◌, refl, arith, some, List, [], ◌∷◌, ◌++◌, map, get_elem?, set, true}
use mathlib.Core.List.{Memᴰ}
use rdfm.Utils.Model.{succeeded, failed, Group}
use rdfm.Utils.World.{num, active_polling}
use rdfm.Groups.Page.{
  Page, open_configure_group_popup, close_configure_group_popup, select_device, toggle_at,
  device_entry,
}
use rdfm.Groups.Configure.{
  Outcome, thrown, removed_devices, added_devices, updated, group_to_modify, was_group_modified,
  same_numbers, selected_ids,
}
use rdfm.Groups.Configure.Diff.{was_group_modified_iff}
use rdfm.Groups.Configure.Plan.{patch_devices, Change, set_priority, plan}
use rdfm.Groups.Configure.Steps.{
  Happening, event, configure, cancel, open_group, click_device, answered, Run, Call, happen_all,
  happen, handle, idle, first_turn, next_turn, accepted_turn, priority_turn, devices_turn, waits,
  ends, priority_part,
}
use rdfm.Groups.View.{group_row}
use rdfm.Groups.View.Laws.{group_row-Granted}
use rdfm.Utils.Access.Granted.{Granted, on_resource, as_admin}
use rdfm.Groups.Page.{no_popup}
use rdfm.Groups.Configure.Steps.{type_priority}
use rdfm.Utils.World.{World, str}
use rdfm.Utils.Model.{update, group}
use rdfm.Base.{ℕ, none}
use rdfm.Groups.Configure.Steps.Safety.{calls-own, calls-Granted}
use rdfm.Groups.Configure.Steps.Ends.{four_answers-over}
use rdfm.Groups.Configure.Steps.Follows.{call_of}
use rdfm.Groups.Configure.Steps.Planned.{calls-planned}
use rdfm.Tests.Setup.{browser, fleet, board}
use rdfm.Tests.Groups.{initial, page_with, found_fleet, fleet-IsSame, loaded}

-- Both the priority and the policy of the group are changed.
abbrev changed_page : Page browser
changed_page = page_with 5 "exact_match,2"

calls-planned_example :
    let r =
      happen_all browser
        (event configure ∷ event (answered 0 succeeded) ∷ [])
        (idle browser changed_page) in
    (sent : List Change) × (left : List Change) × (plan browser initial changed_page ≡ sent ++ left)
    × (r.calls ≡ map (call_of browser initial changed_page) sent)
    × (get_elem? 0 r.invocations ≡ some (ends updated) → left ≡ [])
calls-planned_example =
    calls-planned browser initial changed_page refl 7 fleet refl (found_fleet "exact_match,2" 5)
      ((was_group_modified_iff fleet initial).1 fleet-IsSame) (event (answered 0 succeeded) ∷ [])
      (tt, tt)

abbrev stocked_page : Page browser
stocked_page = record changed_page {
  world = record loaded {
    stores = record loaded.stores {
      group_devices = record { resources = some (board ∷ []); polling_status = active_polling };
    };
  };
}

abbrev priority_call : Call
priority_call = record { group = some 7; change = set_priority (num 5) }

-- The popup is closed while the first request is under way.
abbrev cancelled : List (Happening browser)
cancelled = event configure ∷ event cancel ∷ event (answered 0 succeeded) ∷ []

first_call : Memᴰ priority_call (happen_all browser cancelled (idle browser changed_page)).calls
unfolding happen_all happen handle first_turn priority_turn group_to_modify was_group_modified
    same_numbers next_turn accepted_turn get_elem? set close_configure_group_popup
first_call = Memᴰ.head refl

calls-own_example : priority_call.group ≡ some 7
calls-own_example =
    calls-own browser 7 cancelled changed_page (λ i e. refl) (tt, (tt, (tt, tt))) priority_call
      first_call

-- An administrator opens the popup of the group, types a priority and clicks on Configure.
abbrev admin_world : World browser
admin_world = record loaded { admin_roles = "rdfm_admin_rw" ∷ [] }

abbrev closed_page : Page browser
closed_page = record changed_page { world = admin_world; initial = none; popup_open = no_popup }

abbrev visit : List (Happening browser)
visit = event (open_group fleet) ∷ event (type_priority "5") ∷ event configure ∷ []

abbrev typed_call : Call
typed_call = record { group = some 7; change = set_priority (str "5") }

typed_first : Memᴰ typed_call (happen_all browser visit (idle browser closed_page)).calls
unfolding happen_all happen handle first_turn priority_turn group_to_modify was_group_modified
    same_numbers open_configure_group_popup
typed_first = Memᴰ.head refl

fleet_offered : (group_row browser admin_world fleet).configure ≡ some fleet
fleet_offered =
    (group_row-Granted browser admin_world fleet []).0.1 (on_resource (as_admin (Memᴰ.head refl)))

calls-Granted_example :
    (id : ℕ) × (typed_call.group ≡ some id) × Granted ("rdfm_admin_rw" ∷ []) [] [] update group id
calls-Granted_example =
    calls-Granted browser admin_world [] visit closed_page refl (fleet_offered, (tt, (tt, tt)))
      typed_call typed_first

abbrev asked : Run browser
asked = record {
  page = changed_page;
  calls = priority_call ∷ [];
  invocations = waits priority_part true ∷ [];
}

abbrev four_answers : List (Happening browser)
four_answers =
    event (answered 0 succeeded)
    ∷ event cancel
    ∷ event (open_group fleet)
    ∷ event (answered 0 succeeded)
    ∷ event (answered 0 (failed ""))
    ∷ event (answered 0 succeeded)
    ∷ []

four_answers-over_example :
    (o : Outcome) × (get_elem? 0 (happen_all browser four_answers asked).invocations
      ≡ some (ends o))
unfolding get_elem?
four_answers-over_example =
    four_answers-over browser 0 four_answers (waits priority_part true) asked refl (omega arith)

-- While the first request is under way, the popup is closed and opened for another group.
abbrev other : Group
other = record fleet { id = 8; devices = []; packages = []; policy = "no_update," }

abbrev reopened : List (Happening browser)
reopened =
    event configure
    ∷ event cancel
    ∷ event (open_group other)
    ∷ event (click_device 0)
    ∷ event (answered 0 succeeded)
    ∷ []

-- The rest of the call sends what was chosen for the other group, which nobody has confirmed.
reopened_run :
    (happen_all browser reopened (idle browser stocked_page)).calls
    ≡ priority_call ∷ record { group = some 8; change = patch_devices (3 ∷ []) [] } ∷ []
unfolding happen_all happen handle first_turn priority_turn group_to_modify was_group_modified
    same_numbers next_turn accepted_turn get_elem? set close_configure_group_popup
    open_configure_group_popup select_device toggle_at devices_turn selected_ids removed_devices
    added_devices device_entry
reopened_run = refl

-- If the popup stays closed, the rest of the call throws, and the other changes are lost.
cancelled_run :
    get_elem? 0 (happen_all browser cancelled (idle browser changed_page)).invocations
    ≡ some (ends thrown)
unfolding happen_all happen handle first_turn priority_turn group_to_modify was_group_modified
    same_numbers next_turn accepted_turn get_elem? set close_configure_group_popup
cancelled_run = refl
