-- ===== src/Tests/Server.antt =====
-- A server with one group, which makes every change that it can read, and a configuration that
-- reaches it.
use rdfm.Base.{
  ℕ, ◌==◌, string_eq, nat_eq, Bool, true, false, not, ◌&&◌, ◌||◌, Option, none, some, List, [], ◌∷◌,
  ◌++◌, ◌≡◌, ◌∙◌, sym, ap, subst, refl, arith, filter, includes, includes-filter, length,
}
use rdfm.Utils.Model.{Group, Shape, Body}
use rdfm.Utils.World.{
  Browser, World, Json, Fields, num, str, nums, obj, end, field, RequestBody, json, empty, Request,
  Reply, response, rejected, Toast, active_polling,
}
use rdfm.Utils.Fetch.{output}
use rdfm.Groups.Requests.Commands.{GroupCommand, group_command}
use rdfm.Groups.Configure.Plan.{Change, set_priority, set_packages, set_policy, no_policy}
use rdfm.Groups.Configure.Server.{IsServer, Applied, command_of}
use rdfm.Base.{has_char, split}
use rdfm.Utils.Fetch.{fetch_wrapper, fetch_get, fetch_once}
use rdfm.Utils.Resources.{fetch_resources, settle, put_resource}
use rdfm.Groups.Requests.{
  first_headers, update_priority_request, patch_devices_request, update_packages_request,
  update_policy_request, is_malformed, post_policy, fetch_shared,
}
use rdfm.Groups.Page.{
  Page, configure_group_popup, no_dropdown, no_group_data, close_configure_group_popup,
}
use rdfm.Groups.Configure.{
  updated, configure_group, group_to_modify, was_group_modified, same_numbers, stages,
  priority_stage, devices_stage, packages_stage, policy_stage, post_policy_stage, selected_ids,
  removed_devices, added_devices,
}
use rdfm.Groups.Configure.Diff.{was_group_modified_iff}
use rdfm.Groups.Configure.Chosen.{IsChosen}
use rdfm.Groups.Configure.Reached.{configure_group-IsChosen}
use rdfm.Tests.Groups.{initial, row, fleet-IsSame}
use rdfm.Tests.Setup.{browser, fleet, first_stores}

pub record Desk : Type 0 where
  pub toasts : List Toast
  pub group : Group

abbrev pub read_priority : Json → Option ℕ
read_priority (num n) = some n
read_priority _ = none

abbrev without : List ℕ → List ℕ → List ℕ
without removed devices = filter (λ d. not (includes removed d)) devices

abbrev if_named : Bool → Group → Option Group
if_named true g = some g
if_named false g = none

-- The group after a request, if the server can read it.
abbrev effect : Fields → Group → Option Group
effect (field name (nums added) (field other (nums removed) end)) g =
    if_named (name == "add") (record g { devices = without removed (g.devices ++ added) })
effect (field name (nums packages) end) g =
    if_named (name == "packages") (record g { packages = packages })
effect (field name (str policy) end) g = if_named (name == "policy") (record g { policy = policy })
effect (field name (num n) end) g = if_named (name == "priority") (record g { priority = n })
effect _ g = none

abbrev effect_of : RequestBody → Group → Option Group
effect_of (json (obj fields)) g = effect fields g
effect_of _ g = none

abbrev respond : Option Group → Desk → Reply (Unit {0}) × Desk
respond none s = (response 400 none, s)
respond (some g) s = (response 200 (some tt), record s { group = g })

abbrev answer : (s : Shape) → Request → Desk → Reply (Body s) × Desk
answer Shape.groups req s = (response 200 (some (s.group ∷ [])), s)
answer Shape.ignored req s = respond (effect_of req.body s.group) s
answer _ req s = (rejected, s)

abbrev pub desk_browser : Browser
desk_browser = record {
  State = Desk;
  fetch = answer;
  count_toasts = λ s. length s.toasts;
  open_toast = λ t s. record s { toasts = t ∷ s.toasts };
  decode_claims = browser.decode_claims;
  locale_le = browser.locale_le;
  server_url = "https://server";
  login_url = "https://login";
  logout_url = "https://logout";
  oauth2_client = "client";
  frontend_url = "https://front";
}

abbrev pub desk_group : ℕ → Desk → Option Group
desk_group id s = some s.group

includes-append :
    (xs ys : List ℕ) (n : ℕ) → includes (xs ++ ys) n ≡ (includes xs n || includes ys n)
includes-append [] ys n = refl
includes-append (x ∷ xs) ys n = ground (arith, includes-append xs ys n)

includes-patched :
    (devices added removed : List ℕ) (n : ℕ)
    → includes (without removed (devices ++ added)) n
      ≡ ((includes devices n || includes added n) && not (includes removed n))
includes-patched devices added removed n =
    includes-filter (λ d. not (includes removed d)) (devices ++ added) n
    ∙ ap (λ x. x && not (includes removed n)) (includes-append devices added n)

-- The body of a command.
abbrev body_by : Option GroupCommand → RequestBody
body_by none = empty
body_by (some k) = (group_command "https://server" k).body

-- The server's answer to a change.
abbrev answered_by : RequestBody → Desk → Reply (Unit {0}) × Desk
answered_by body s = respond (effect_of body s.group) s

change-Applied :
    (id : ℕ) (c : Change) (s : Desk)
    → let r = answered_by (body_by (command_of id c)) s in
      (output r.0).success ≡ true → Applied read_priority c s.group r.1.group
unfolding output group_command
change-Applied id (set_priority (num n)) s done = record {
  same_id = refl;
  same_created = refl;
  same_metadata = refl;
  priority_after = refl;
  policy_after = refl;
  packages_after = refl;
  devices_after = refl;
}
change-Applied id (set_priority Json.null) s done = cc
change-Applied id (set_priority (str t)) s done = cc
change-Applied id (set_priority (Json.strs l)) s done = cc
change-Applied id (set_priority (nums l)) s done = cc
change-Applied id (set_priority (obj f)) s done = cc
change-Applied id (Change.patch_devices added removed) s done = record {
  same_id = refl;
  same_created = refl;
  same_metadata = refl;
  priority_after = refl;
  policy_after = refl;
  packages_after = refl;
  devices_after = λ n. includes-patched s.group.devices added removed n;
}
change-Applied id (set_packages packages) s done = record {
  same_id = refl;
  same_created = refl;
  same_metadata = refl;
  priority_after = refl;
  policy_after = refl;
  packages_after = λ n. refl;
  devices_after = refl;
}
change-Applied id (set_policy policy) s done = record {
  same_id = refl;
  same_created = refl;
  same_metadata = refl;
  priority_after = refl;
  policy_after = refl;
  packages_after = refl;
  devices_after = refl;
}
change-Applied id no_policy s done = cc

or_else : {A : Type 0} → A → Option A → A
or_else a none = a
or_else a (some x) = x

desk-IsServer : IsServer desk_browser read_priority desk_group
unfolding or_else
desk-IsServer = record {
  applies = λ id c k headers s g e is_read there done.
      let body = ap body_by e in
      let made =
        change-Applied id c s
          (subst (λ x. (output (answered_by x s).0).success ≡ true) (sym body) done) in
      let old : s.group ≡ g = ap (or_else s.group) there in
      (
        (answered_by (body_by (some k)) s).1.group,
        refl,
        subst (λ x. Applied read_priority c x (answered_by (body_by (some k)) s).1.group) old
            (subst (λ x. Applied read_priority c s.group (answered_by x s).1.group) body made),
      );
  reads_number = λ n. refl;
  reads = λ id headers s. refl;
  shows = λ id t s. refl;
}

abbrev desk_world : World desk_browser
desk_world = record {
  ext = record { toasts = []; group = fleet };
  sent = [];
  access_token = some "a.b.c";
  current_path = none;
  hrefs = [];
  windows = [];
  admin_roles = [];
  permissions = [];
  stores = record first_stores {
    groups = record { resources = some (fleet ∷ []); polling_status = active_polling };
  };
  enqueued = [];
  group_headers = first_headers;
}

-- All four parts are changed: the device 5 comes and the device 3 goes.
abbrev desk_page : Page desk_browser
desk_page = record {
  world = desk_world;
  popup_open = configure_group_popup;
  new_group_data = no_group_data;
  validation_errors = [];
  group_to_remove = none;
  configuration = record {
    id = some 7;
    priority = some (num 5);
    policy = some "exact_match,2";
    devices = some (3 ∷ []);
    packages = some (4 ∷ []);
  };
  initial = some initial;
  package_list = row 4 ∷ row 6 ∷ [];
  device_list = record (row 3) { selected = false } ∷ row 5 ∷ [];
  open_dropdown = no_dropdown;
}

desk_found : group_to_modify desk_browser 7 desk_page ≡ some fleet
unfolding group_to_modify
desk_found = refl

desk_updated : (configure_group desk_browser desk_page).0 ≡ updated
unfolding configure_group group_to_modify was_group_modified same_numbers stages priority_stage
    devices_stage packages_stage policy_stage post_policy_stage selected_ids removed_devices
    added_devices update_priority_request patch_devices_request update_packages_request
    update_policy_request is_malformed post_policy fetch_shared fetch_wrapper output has_char split
    fetch_resources fetch_get fetch_once settle put_resource close_configure_group_popup
desk_updated = refl

configure_group-IsChosen_example :
    (h : Group) × (desk_group 7 (configure_group desk_browser desk_page).1.world.ext ≡ some h)
    × IsChosen desk_browser read_priority desk_page fleet h
configure_group-IsChosen_example =
    configure_group-IsChosen desk_browser read_priority desk_group desk-IsServer 7 desk_page initial
      fleet refl refl desk_found ((was_group_modified_iff fleet initial).1 fleet-IsSame) refl
      (5, refl) desk_updated
