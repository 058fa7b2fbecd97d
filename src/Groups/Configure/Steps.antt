-- ===== src/Groups/Configure/Steps.antt =====
-- `configureGroup` of GroupsList.vue as it runs: at each `await` the page goes on, and the code reads
-- it again afterwards. A run is any sequence of clicks, answers and refreshes.
pub mod Kept
pub mod Safety
pub mod Ends
pub mod Follows
pub mod Planned
pub mod Driven
use rdfm.Base.{
  ℕ, String, ◌==◌, string_eq, Bool, true, false, not, ◌||◌, Option, none, some, List, [], ◌∷◌, ◌++◌,
  if◌then◌else◌, get_elem?, set,
}
use rdfm.Utils.Model.{RequestOutput, Group}
use rdfm.Utils.Form.{or_text}
use rdfm.Utils.World.{Browser, World, str}
use rdfm.Utils.Notifications.{notify_error}
use rdfm.Groups.Page.{
  Page, InitialGroupConfiguration, notify, close_configure_group_popup, open_configure_group_popup,
  select_package, select_device,
}
use rdfm.Groups.Configure.{
  Outcome, thrown, modified, priority_refused, devices_refused, packages_refused, policy_missing,
  policy_refused, go, was_group_modified, selected_ids, removed_devices, added_devices,
  same_numbers, is_empty, priority_differs, policy_differs, priority_json, finish, group_to_modify,
}
use rdfm.Groups.Configure.Plan.{Change, set_priority, patch_devices, set_packages, set_policy}

-- The four requests.
pub data Part : Type 0 where
  priority_part devices_part packages_part policy_part : Part

-- Where one call of `configureGroup` is: at the `await` of a request, with the value of
-- `requestWasMade`, or over.
pub data Progress : Type 0 where
  waits : Part → Bool → Progress
  ends : Outcome → Progress

-- A request: the group's id, `groupConfiguration.id!`, and what it changes.
pub record Call : Type 0 where
  pub group : Option ℕ
  pub change : Change

-- What the code does up to its next `await`, or to its end.
pub record Turn (b : Browser) : Type 0 where
  pub page : Page b
  pub call : Option Call
  pub progress : Progress

abbrev pub headline_of : Part → String
headline_of priority_part = "Error when updating group priority:"
headline_of devices_part = "Error when updating group devices:"
headline_of packages_part = "Error when updating group packages:"
headline_of policy_part = "Error when updating group update policy"

abbrev pub default_of : Part → String
default_of priority_part = "Updating group priority failed"
default_of devices_part = "Updating group devices failed"
default_of packages_part = "Updating group packages failed"
default_of policy_part = "Updating group update policy failed"

abbrev pub refusal_of : Part → Outcome
refusal_of priority_part = priority_refused
refusal_of devices_part = devices_refused
refusal_of packages_part = packages_refused
refusal_of policy_part = policy_refused

-- What a user does, the answer to the request of the `k`-th call of `configureGroup`, and a
-- refresh, after which the state that the modules share is any. No handler is left out because a
-- popup hides its button, so that there are more runs here than on the page.
pub data Event : Type 0 where
  configure cancel : Event
  open_group : Group → Event
  type_priority choose_policy : String → Event
  click_package click_device : ℕ → Event
  answered : ℕ → RequestOutput → Event

pub data Happening (b : Browser) : Type 0 where
  event : Event → Happening b
  refreshed : World b → Happening b

module _ (b : Browser) where
  abbrev over : Outcome → Page b → Turn b
  over o p = record { page = p; call = none; progress = ends o }

  abbrev asks : Part → Bool → Change → Page b → Turn b
  asks part made c p = record {
    page = p;
    call = some (record { group = p.configuration.id; change = c });
    progress = waits part made;
  }

  -- The last lines: the notification, if `requestWasMade`, and the end of the popup.
  pub end_turn : Bool → Page b → Turn b
  end_turn made p = let r = finish b (go made, p) in over r.0 r.1

  abbrev missing_turn : Page b → Turn b
  missing_turn p = over policy_missing (
      notify b
        (notify_error b "Error when updating group policy:" (some "Policy is a required field")) p)

  pub ask_policy : Option String → Bool → Page b → Turn b
  ask_policy none made p = missing_turn p
  ask_policy (some policy) made p =
      if policy == "" then missing_turn p else asks policy_part made (set_policy policy) p

  pub policy_turn : InitialGroupConfiguration → Bool → Page b → Turn b
  unfolding ask_policy end_turn
  policy_turn i made p =
      if policy_differs p.configuration.policy i.policy
      then ask_policy p.configuration.policy made p
      else end_turn made p

  pub packages_turn : InitialGroupConfiguration → Bool → Page b → Turn b
  unfolding policy_turn selected_ids
  packages_turn i made p =
      let new = selected_ids p.package_list in
      if not (same_numbers i.packages new)
      then asks packages_part true (set_packages new) p
      else policy_turn i made p

  unfoldable pub devices_turn : InitialGroupConfiguration → Bool → Page b → Turn b
  unfolding packages_turn selected_ids
  devices_turn i made p =
      let new = selected_ids p.device_list in
      let removed = removed_devices i.devices new in
      let added = added_devices i.devices new in
      if not (is_empty removed) || not (is_empty added)
      then asks devices_part true (patch_devices added removed) p
      else packages_turn i made p

  unfoldable pub priority_turn : InitialGroupConfiguration → Page b → Turn b
  unfolding devices_turn
  priority_turn i p =
      if priority_differs p.configuration.priority i.priority
      then asks priority_part true (set_priority (priority_json p.configuration.priority)) p
      else devices_turn i false p

  abbrev check_turn : Option Group → Option InitialGroupConfiguration → Page b → Turn b
  check_turn (some g) (some i) p =
      if was_group_modified g i
      then over modified (
          notify b
            (notify_error b "Modification detected during configuration! Configuration is aborted."
              none)
            p)
      else priority_turn i p
  check_turn _ _ p = over thrown p

  abbrev first_turn_by : Option ℕ → Page b → Turn b
  first_turn_by none p = over thrown p
  first_turn_by (some id) p = check_turn (group_to_modify b id p) p.initial p

  -- From the click on Configure.
  unfoldable pub first_turn : Page b → Turn b
  unfolding priority_turn
  first_turn p = first_turn_by p.configuration.id p

  -- `initialGroupConfiguration!` is read anew: the code throws if it is null by now.
  abbrev pub reads_initial :
      (InitialGroupConfiguration → Page b → Turn b)
      → Option InitialGroupConfiguration
      → Page b
      → Turn b
  reads_initial k none p = over thrown p
  reads_initial k (some i) p = k i p

  unfoldable pub accepted_turn : Part → Bool → Page b → Turn b
  unfolding devices_turn packages_turn policy_turn end_turn
  accepted_turn priority_part made p = reads_initial (λ i. devices_turn i made) p.initial p
  accepted_turn devices_part made p = reads_initial (λ i. packages_turn i made) p.initial p
  accepted_turn packages_part made p = reads_initial (λ i. policy_turn i made) p.initial p
  accepted_turn policy_part made p = end_turn made p

  -- From the answer to a request.
  unfoldable pub next_turn : Part → Bool → RequestOutput → Page b → Turn b
  unfolding accepted_turn
  next_turn part made out p =
      if out.success
      then accepted_turn part made p
      else over (refusal_of part) (
          notify b
            (notify_error b (headline_of part) (some (or_text out.message (default_of part)))) p)

-- The page, the requests sent, the first one first, and the calls of `configureGroup`.
pub record Run (b : Browser) : Type 0 where
  pub page : Page b
  pub calls : List Call
  pub invocations : List Progress

abbrev pub called : Option Call → List Call
called none = []
called (some c) = c ∷ []

module _ (b : Browser) where
  abbrev pub on_page : (Page b → Page b) → Run b → Run b
  on_page f r = record r { page = f r.page }

  abbrev pub started : Turn b → Run b → Run b
  started t r = record {
    page = t.page;
    calls = r.calls ++ called t.call;
    invocations = r.invocations ++ (t.progress ∷ []);
  }

  abbrev pub continued : ℕ → Turn b → Run b → Run b
  continued k t r = record {
    page = t.page;
    calls = r.calls ++ called t.call;
    invocations = set k t.progress r.invocations;
  }

  abbrev pub resumed : ℕ → RequestOutput → Option Progress → Run b → Run b
  resumed k out (some (waits part made)) r = continued k (next_turn b part made out r.page) r
  resumed k out _ r = r

  unfoldable pub handle : Event → Run b → Run b
  unfolding first_turn next_turn
  handle configure r = started (first_turn b r.page) r
  handle cancel r = on_page (close_configure_group_popup b) r
  handle (open_group g) r = on_page (open_configure_group_popup b g) r
  handle (type_priority s) r =
      on_page (λ p. record p { configuration = record p.configuration { priority = some (str s) } })
        r
  handle (choose_policy s) r =
      on_page (λ p. record p { configuration = record p.configuration { policy = some s } }) r
  handle (click_package i) r = on_page (select_package b i) r
  handle (click_device i) r = on_page (select_device b i) r
  handle (answered k out) r = resumed k out (get_elem? k r.invocations) r

  unfoldable pub happen : Happening b → Run b → Run b
  unfolding handle
  happen (event e) r = handle e r
  happen (refreshed w) r = on_page (λ p. record p { world = w }) r

  unfoldable pub happen_all : List (Happening b) → Run b → Run b
  unfolding happen
  happen_all [] r = r
  happen_all (h ∷ hs) r = happen_all hs (happen h r)

  -- The page before the click.
  abbrev pub idle : Page b → Run b
  idle p = record { page = p; calls = []; invocations = [] }
