-- ===== src/Groups/Configure/Server.antt =====
-- What the server is documented to do with the requests of `configureGroup`, as hypotheses, and what
-- follows for the requests of groups.ts.
use rdfm.Base.{
  ℕ, String, string_eq, nat_eq, true, false, not, ◌&&◌, ◌||◌, Option, none, some, [], ◌∷◌, ◌≡◌, ◌∙◌,
  sym, ap, refl, arith, Bool-cases, inl, inr, includes,
}
use rdfm.Utils.Model.{Group, Shape, Body, RequestOutput}
use rdfm.Utils.Endpoints.{groups_endpoint}
use rdfm.Utils.World.{Browser, World, Headers, Json, num, Toast, empty, Getter, shape}
use rdfm.Utils.Fetch.{Output, output, authorize, fetch_get, fetch_once, fetch_wrapper}
use rdfm.Utils.Resources.{fetch_resources, settle, getter_url, go_to, put_resource}
use rdfm.Utils.Resources.Laws.{got, after_get}
use rdfm.Utils.Command.{Command, sent_by, refresh_all, Keeps, refused, accepted}
use rdfm.Utils.Notifications.{notify_success, enqueue, call}
use rdfm.Groups.Requests.{fetch_shared, is_malformed, update_policy_request}
use rdfm.Groups.Requests.Commands.{
  GroupCommand, patch_devices, update_packages, update_priority, post_policy_of, group_command,
  run_group, sendable-Keeps, send,
}
use rdfm.Groups.Requests.Policy.{is_malformed_iff}
use rdfm.Groups.Configure.Plan.{
  Change, set_priority, set_packages, set_policy, no_policy, send_change,
}

-- What an accepted change does to the group `g`, which is `h` afterwards. The order of the lists is
-- not documented. `read_priority` is the number that the server reads from the JSON of a priority,
-- if it reads one that is not negative: a group has no other here.
module _ (read_priority : Json → Option ℕ) where
  abbrev PriorityAfter : Change → Group → Group → Type 0
  PriorityAfter (set_priority j) g h = read_priority j ≡ some h.priority
  PriorityAfter _ g h = h.priority ≡ g.priority

  abbrev PolicyAfter : Change → Group → Group → Type 0
  PolicyAfter (set_policy policy) g h = h.policy ≡ policy
  PolicyAfter no_policy g h = ⊥
  PolicyAfter _ g h = h.policy ≡ g.policy

  abbrev PackagesAfter : Change → Group → Group → Type 0
  PackagesAfter (set_packages packages) g h = (n : ℕ) → includes h.packages n ≡ includes packages n
  PackagesAfter _ g h = h.packages ≡ g.packages

  -- Additions are evaluated first, followed by the removals.
  abbrev DevicesAfter : Change → Group → Group → Type 0
  DevicesAfter (Change.patch_devices added removed) g h =
      (n : ℕ)
      → includes h.devices n
        ≡ ((includes g.devices n || includes added n) && not (includes removed n))
  DevicesAfter _ g h = h.devices ≡ g.devices

  -- A priority that is sent is read as a number that is not negative.
  abbrev pub IsRead : Change → Type 0
  IsRead (set_priority j) = (n : ℕ) × (read_priority j ≡ some n)
  IsRead _ = Unit {0}

  pub record Applied (c : Change) (g h : Group) : Type 0 where
    pub same_id : h.id ≡ g.id
    pub same_created : h.created ≡ g.created
    pub same_metadata : h.metadata ≡ g.metadata
    pub priority_after : PriorityAfter c g h
    pub policy_after : PolicyAfter c g h
    pub packages_after : PackagesAfter c g h
    pub devices_after : DevicesAfter c g h

-- The command of a change; a missing policy is none.
abbrev pub command_of : ℕ → Change → Option GroupCommand
command_of id (set_priority j) = some (update_priority id j)
command_of id (Change.patch_devices added removed) = some (patch_devices id added removed)
command_of id (set_packages packages) = some (update_packages id packages)
command_of id (set_policy policy) = some (post_policy_of id policy)
command_of id no_policy = none

-- `group_of id` is the group that the server has under the number, if its priority is not negative.
pub record IsServer (b : Browser) (read_priority : Json → Option ℕ)
    (group_of : ℕ → b.State → Option Group) : Type 0 where
  -- A change that is accepted is made.
  pub applies :
      (id : ℕ) (c : Change) (k : GroupCommand) (headers : Headers) (s : b.State) (g : Group)
      → command_of id c ≡ some k
      → IsRead read_priority c
      → group_of id s ≡ some g
      → let r =
          b.fetch Shape.ignored
            (record {
              url = (group_command b.server_url k).url;
              method = (group_command b.server_url k).method;
              headers = headers;
              body = (group_command b.server_url k).body;
            })
            s in
        (output r.0).success ≡ true
        → (h : Group) × (group_of id r.1 ≡ some h) × Applied read_priority c g h
  pub reads_number : (n : ℕ) → read_priority (num n) ≡ some n
  -- Reading the groups changes none.
  pub reads :
      (id : ℕ) (headers : Headers) (s : b.State)
      → group_of id
          (b.fetch Shape.groups
            (record {
              url = groups_endpoint b.server_url;
              method = "GET";
              headers = headers;
              body = empty;
            })
            s).1
        ≡ group_of id s
  -- A toast on the screen is no matter of the server.
  pub shows : (id : ℕ) (t : Toast) (s : b.State) → group_of id (b.open_toast t s) ≡ group_of id s

module _ (b : Browser) (read_priority : Json → Option ℕ) (group_of : ℕ → b.State → Option Group)
    (server : IsServer b read_priority group_of) (id : ℕ) where
  -- The server's group in a world.
  abbrev pub group_in : World b → Option Group
  group_in w = group_of id w.ext

  pub settle-ext :
      (g : Getter) (out : Output (Body (shape g))) (w : World b) → (settle b g out w).ext ≡ w.ext
  unfolding settle go_to put_resource
  settle-ext g out w = ground arith

  refreshed-group : (w : World b) → group_in (fetch_resources b Getter.groups w).1 ≡ group_in w
  unfolding fetch_resources fetch_get fetch_once fetch_wrapper getter_url
  refreshed-group w =
      ap (group_of id)
        (settle-ext Getter.groups (output (got b Getter.groups w)) (after_get b Getter.groups w))
      ∙ server.reads id (authorize w.access_token []) w.ext

  module _ (c : Change) (k : GroupCommand) (w : World b) (g : Group)
      (of_change : command_of id c ≡ some k) (is_read : IsRead read_priority c)
      (there : group_in w ≡ some g) where
    spec : Command
    spec = group_command b.server_url k

    -- The request of a command, with the headers that the module shares.
    shared : Output (Unit {0}) × World b
    unfolding spec
    shared = sent_by b (fetch_shared b) spec w

    shared-Applied :
        shared.0.success ≡ true
        → (h : Group) × (group_in shared.1 ≡ some h) × Applied read_priority c g h
    unfolding shared fetch_shared fetch_wrapper
    shared-Applied done =
        server.applies id c k (authorize w.access_token w.group_headers) w.ext g of_change is_read
          there done

    kept-Applied :
        (m : RequestOutput × World b)
        → Keeps b m shared spec.explain (Getter.groups ∷ [])
        → m.0.success ≡ true
        → (h : Group) × (group_in m.1 ≡ some h) × Applied read_priority c g h
    unfolding refresh_all
    kept-Applied m (refused bad e) done =
        let no : false ≡ true = ap (λ x. x.0.success) (sym e) ∙ done in cc
    kept-Applied m (accepted fine e) done =
        let (h, there', applied) = shared-Applied fine in
        (h, ap (λ x. group_in x.1) e ∙ refreshed-group shared.1 ∙ there', applied)

  -- The request of a change reports success only if the server has made it.
  pub send_change-Applied :
      (c : Change) (w : World b) (g : Group)
      → IsRead read_priority c
      → group_in w ≡ some g
      → (send_change b id c w).0.success ≡ true
      → (h : Group) × (group_in (send_change b id c w).1 ≡ some h) × Applied read_priority c g h
  unfolding send_change update_policy_request run_group send spec shared group_command
  send_change-Applied (set_priority j) w g is_read there done =
      kept-Applied (set_priority j) (update_priority id j) w g refl is_read there _
        (sendable-Keeps b (update_priority id j) w tt) done
  send_change-Applied (Change.patch_devices added removed) w g is_read there done =
      kept-Applied (Change.patch_devices added removed) (patch_devices id added removed) w g refl
        is_read there _ (sendable-Keeps b (patch_devices id added removed) w tt) done
  send_change-Applied (set_packages packages) w g is_read there done =
      kept-Applied (set_packages packages) (update_packages id packages) w g refl is_read there _
        (sendable-Keeps b (update_packages id packages) w tt) done
  send_change-Applied (set_policy policy) w g is_read there done =
      elim (Bool-cases (is_malformed policy)) [
        | inl bad ↦ let no : false ≡ true = rw bad at done in cc
        | inr fine ↦
            kept-Applied (set_policy policy) (post_policy_of id policy) w g refl is_read there _
              (sendable-Keeps b (post_policy_of id policy) w ((is_malformed_iff policy).0 fine))
              done
      ]
  send_change-Applied no_policy w g is_read there done = cc

  enqueue-group : (t : Toast) (w : World b) → group_in (enqueue b t w) ≡ group_in w
  unfolding enqueue call
  enqueue-group t w = ground (arith, server.shows id t w.ext)

  pub notify_success-group :
      (headline : String) (msg : Option String) (w : World b)
      → group_in (notify_success b headline msg w) ≡ group_in w
  unfolding notify_success
  notify_success-group headline msg w = enqueue-group _ w
