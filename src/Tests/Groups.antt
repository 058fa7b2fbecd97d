-- ===== src/Tests/Groups.antt =====
-- groups.ts and GroupsList.vue.
use rdfm.Base.{ℕ, String, true, none, some, [], ◌∷◌, ◌≡◌, ◌≢◌, ◌↔◌}
use rdfm.Base.{refl, nat_eq, string_eq, has_char, split}
use rdfm.Utils.Model.{Group}
use rdfm.Utils.Fetch.{fetch_wrapper, output, fetch_get, fetch_once}
use rdfm.Utils.Resources.{fetch_resources, settle, put_resource}
use rdfm.Utils.World.{World, num, empty, active_polling}
use rdfm.Groups.Requests.{
  NewGroupData, is_malformed, update_policy_request, fetch_shared, post_policy,
}
use rdfm.Groups.Requests.Commands.{GroupCommand, patch_devices, Runs, run_group-Keeps}
use rdfm.Groups.Requests.SharedHeaders.{sent_header, forget_token, fetch_shared-keeps_token}
use rdfm.Groups.Page.{
  Page, DataEntry, InitialGroupConfiguration, configure_group_popup, no_dropdown, no_group_data,
  close_configure_group_popup,
}
use rdfm.Groups.Configure.{selected_ids, updated, configure_group, group_to_modify, stages}
use rdfm.Groups.Configure.Diff.{IsSame, patch_exact}
use rdfm.Groups.Configure.{added_devices, removed_devices}
use rdfm.Base.{List, includes, not, ◌&&◌, ◌||◌, false}
use rdfm.Groups.Configure.Plan.{plan, send_all}
use rdfm.Groups.Configure.Stages.{stages-send_all}
use rdfm.Groups.Configure.Outcomes.{configure_group-IsSame, IsSelected, configure_group-silent}
use rdfm.Tests.Setup.{browser, first_world, world_at, fleet, first_stores}

abbrev move : GroupCommand
move = patch_devices 7 (4 ∷ []) (3 ∷ [])

run_group-Keeps_example : Runs browser move (world_at 409)
run_group-Keeps_example = run_group-Keeps browser move (world_at 409)

abbrev first_group : NewGroupData
first_group = record { name = some "fleet"; description = some "boards"; priority = some 2 }

abbrev pub initial : InitialGroupConfiguration
initial = record {
  id = 7;
  priority = 2;
  policy = "no_update,";
  devices = 3 ∷ [];
  packages = 4 ∷ [];
}

-- The page with the popup of the group open, the priority and the policy as given.
abbrev pub row : ℕ → DataEntry
row id = record { id = id; selected = true; columns = [] }

abbrev pub loaded : World browser
loaded = record first_world {
  stores = record first_stores {
    groups = record { resources = some (fleet ∷ []); polling_status = active_polling };
  };
}

abbrev pub page_with : ℕ → String → Page browser
page_with priority policy = record {
  world = loaded;
  popup_open = configure_group_popup;
  new_group_data = no_group_data;
  validation_errors = [];
  group_to_remove = none;
  configuration = record {
    id = some 7;
    priority = some (num priority);
    policy = some policy;
    devices = some (3 ∷ []);
    packages = some (4 ∷ []);
  };
  initial = some initial;
  package_list = row 4 ∷ [];
  device_list = row 3 ∷ [];
  open_dropdown = no_dropdown;
}

stages-send_all_example :
    let p = page_with 5 "exact_match,2" in
    let r = send_all browser 7 (plan browser initial p) p.world in
    let s = stages browser 7 initial p in
    ((s.0 ≡ updated) ↔ (r.0 ≡ true)) × (s.1.world.sent ≡ r.1.sent) × (s.1.world.stores ≡ r.1.stores)
stages-send_all_example = stages-send_all browser 7 initial (page_with 5 "exact_match,2")

fetch_shared-keeps_token_example :
    sent_header "Authorization"
      (fetch_shared browser "/b" "POST" empty
        (forget_token browser (fetch_shared browser "/a" "POST" empty first_world).1)).1.sent
    ≡ some "Bearer token=a.b.c"
fetch_shared-keeps_token_example =
    fetch_shared-keeps_token browser "/a" "POST" "/b" "POST" empty empty "a.b.c" first_world refl
      (λ e. cc e)

pub fleet-IsSame : IsSame fleet initial
fleet-IsSame = record {
  same_id = refl;
  same_priority = refl;
  same_policy = refl;
  same_packages = refl;
  same_devices = refl;
}

abbrev unchanged_page : Page browser
unchanged_page = page_with 2 "no_update,"

abbrev policy_page : Page browser
policy_page = page_with 2 "exact_match,2"

unchanged-IsSelected : IsSelected browser unchanged_page initial
unfolding selected_ids
unchanged-IsSelected = record {
  same_priority = refl;
  same_devices = λ d. refl;
  same_packages = refl;
}

policy-IsSelected : IsSelected browser policy_page initial
unfolding selected_ids
policy-IsSelected = record { same_priority = refl; same_devices = λ d. refl; same_packages = refl }

pub found_fleet :
    (policy : String) (priority : ℕ)
    → group_to_modify browser 7 (page_with priority policy) ≡ some fleet
unfolding group_to_modify
found_fleet policy priority = refl

policy_accepted : (update_policy_request browser 7 "exact_match,2" loaded).0.success ≡ true
unfolding update_policy_request is_malformed post_policy fetch_shared fetch_wrapper has_char split
    output
policy_accepted = refl

configure_group-silent_example : configure_group browser policy_page ≡ (
  updated,
  close_configure_group_popup browser
      (record policy_page { world = (update_policy_request browser 7 "exact_match,2" loaded).1 }),
)
configure_group-silent_example =
    configure_group-silent browser policy_page 7 fleet initial refl (found_fleet "exact_match,2" 2)
      refl fleet-IsSame "exact_match,2" policy-IsSelected refl (λ e. cc e) (λ e. cc e)
      policy_accepted

policy_run : configure_group browser policy_page ≡ (
  updated,
  close_configure_group_popup browser
      (record policy_page { world = (update_policy_request browser 7 "exact_match,2" loaded).1 }),
)
policy_run =
    configure_group-silent browser policy_page 7 fleet initial refl (found_fleet "exact_match,2" 2)
      refl fleet-IsSame "exact_match,2" policy-IsSelected refl (λ e. cc e) (λ e. cc e)
      policy_accepted

policy_sent : (configure_group browser policy_page).1.world.sent ≢ loaded.sent
unfolding close_configure_group_popup update_policy_request is_malformed post_policy fetch_shared
    fetch_wrapper has_char split output fetch_resources fetch_get fetch_once settle put_resource
policy_sent = λ e. let e' = rw policy_run at e in cc e'

configure_group-IsSame_example :
    (id : ℕ) × (g : Group) × (i : InitialGroupConfiguration) × (policy_page.configuration.id
      ≡ some id)
    × (group_to_modify browser id policy_page ≡ some g)
    × (policy_page.initial ≡ some i)
    × IsSame g i
configure_group-IsSame_example = configure_group-IsSame browser policy_page policy_sent

abbrev old_devices : List ℕ
old_devices = 3 ∷ 9 ∷ []

abbrev new_devices : List ℕ
new_devices = 5 ∷ 9 ∷ []

patch_exact_example :
    let added = added_devices old_devices new_devices in
    let removed = removed_devices old_devices new_devices in
    (includes new_devices 5
      ≡ ((includes old_devices 5 || includes added 5) && not (includes removed 5)))
    × ((includes added 5 && includes old_devices 5) ≡ false)
    × ((includes removed 5 && not (includes old_devices 5)) ≡ false)
    × ((includes added 5 && includes removed 5) ≡ false)
patch_exact_example = patch_exact old_devices new_devices 5
