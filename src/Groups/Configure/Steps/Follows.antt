-- ===== src/Groups/Configure/Steps/Follows.antt =====
-- Each turn of `configureGroup` sends what is due by the plan of changes.
use rdfm.Base.{
  subst, String, ◌==◌, string_eq, Bool, true, false, Option, none, some, List, [], ◌∷◌, ◌++◌, map,
  ◌≡◌, ◌≢◌, sym, refl, Bool-cases, inl, inr, ◌||◌, not, if◌then◌else◌,
}
use rdfm.Utils.Model.{RequestOutput}
use rdfm.Utils.World.{Browser, World}
use rdfm.Groups.Page.{Page, InitialGroupConfiguration}
use rdfm.Groups.Configure.{
  Outcome, updated, selected_ids, removed_devices, added_devices, same_numbers, is_empty,
  priority_differs, policy_differs,
}
use rdfm.Groups.Configure.Plan.{
  Change, set_policy, no_policy, planned_if, policy_change, plan_priority, plan_devices,
  plan_packages, plan_policy,
}
use rdfm.Groups.Configure.Steps.{
  Part, priority_part, devices_part, packages_part, policy_part, Progress, waits, ends, Call, Turn,
  end_turn, ask_policy, policy_turn, packages_turn, devices_turn, priority_turn, accepted_turn,
  next_turn, called, refusal_of, reads_initial,
}

module _ (b : Browser) (i : InitialGroupConfiguration) (p : Page b) where
  -- The page at the click, with another world.
  abbrev with_world : World b → Page b
  with_world w = record p { world = w }

  abbrev pub call_of : Change → Call
  call_of c = record { group = p.configuration.id; change = c }

  -- What is left of the plan after a request.
  abbrev pub rest_of : Part → List Change
  rest_of priority_part = plan_devices b i p ++ (plan_packages b i p ++ plan_policy b i p)
  rest_of devices_part = plan_packages b i p ++ plan_policy b i p
  rest_of packages_part = plan_policy b i p
  rest_of policy_part = []

  abbrev pub Leaves : Progress → List Change → Page b → Type 0
  Leaves (waits part made) left q = (left ≡ rest_of part) × (q ≡ with_world q.world)
  Leaves (ends o) left q = o ≡ updated → left ≡ []

  -- A turn sends the first of the changes that are left, or nothing.
  pub record Follows (t : Turn b) (todo : List Change) : Type 0 where
    pub sent : List Change
    pub left : List Change
    pub split : todo ≡ sent ++ left
    pub calls : map call_of sent ≡ called t.call
    pub leaves : Leaves t.progress left t.page

  module _ (w : World b) where
    policy_change-Follows :
        (policy : Option String) (made : Bool)
        → Follows (ask_policy b policy made (with_world w)) (policy_change policy ∷ [])
    unfolding ask_policy
    policy_change-Follows none made = record {
      sent = [];
      left = no_policy ∷ [];
      split = refl;
      calls = refl;
      leaves = λ e. cc;
    }
    policy_change-Follows (some policy) made = elim (Bool-cases (policy == "")) [
      | inl cleared ↦ rw cleared (record {
        sent = [];
        left = no_policy ∷ [];
        split = refl;
        calls = refl;
        leaves = λ e. cc;
      })
      | inr given ↦ rw given (record {
        sent = set_policy policy ∷ [];
        left = [];
        split = refl;
        calls = refl;
        leaves = (refl, refl);
      })
    ]

    end_turn-Follows : (made : Bool) → Follows (end_turn b made (with_world w)) []
    unfolding end_turn
    end_turn-Follows made = record {
      sent = [];
      left = [];
      split = refl;
      calls = refl;
      leaves = λ e. refl;
    }

    policy_turn-Follows :
        (made : Bool) → Follows (policy_turn b i made (with_world w)) (plan_policy b i p)
    unfolding policy_turn plan_policy
    policy_turn-Follows made = elim (Bool-cases (policy_differs p.configuration.policy i.policy)) [
      | inl new ↦ rw new (policy_change-Follows p.configuration.policy made)
      | inr same ↦ rw same (end_turn-Follows made)
    ]

    -- A stage that asks if its part of the plan has a change, and goes on with the rest otherwise.
    stage-Follows :
        (t : Bool) (c : Change) (part : Part) (made : Bool) (next : Turn b)
        → Follows next (rest_of part)
        → Follows
            (if t
              then record {
                page = with_world w;
                call = some (call_of c);
                progress = waits part made;
              }
              else next)
            (planned_if t c ++ rest_of part)
    stage-Follows true c part made next h = record {
      sent = c ∷ [];
      left = rest_of part;
      split = refl;
      calls = refl;
      leaves = (refl, refl);
    }
    stage-Follows false c part made next h = h

    packages_turn-Follows :
        (made : Bool) → Follows (packages_turn b i made (with_world w)) (rest_of devices_part)
    unfolding packages_turn plan_packages
    packages_turn-Follows made =
        stage-Follows (not (same_numbers i.packages (selected_ids p.package_list))) _ packages_part
          true _ (policy_turn-Follows made)

    devices_turn-Follows :
        (made : Bool) → Follows (devices_turn b i made (with_world w)) (rest_of priority_part)
    unfolding devices_turn plan_devices
    devices_turn-Follows made =
        stage-Follows
          (not (is_empty (removed_devices i.devices (selected_ids p.device_list)))
            || not (is_empty (added_devices i.devices (selected_ids p.device_list))))
          _ devices_part true _ (packages_turn-Follows made)

    pub priority_turn-Follows :
        Follows (priority_turn b i (with_world w)) (plan_priority b i p ++ rest_of priority_part)
    unfolding priority_turn plan_priority
    priority_turn-Follows =
        stage-Follows (priority_differs p.configuration.priority i.priority) _ priority_part true _
          (devices_turn-Follows false)

  refused-Follows :
      (o : Outcome) (q : Page b) (todo : List Change)
      → o ≢ updated
      → Follows (record { page = q; call = none; progress = ends o }) todo
  refused-Follows o q todo ne = record {
    sent = [];
    left = todo;
    split = refl;
    calls = refl;
    leaves = λ e. absurd (ne e);
  }

  refusal-updated : (part : Part) → refusal_of part ≢ updated
  refusal-updated priority_part = λ e. cc e
  refusal-updated devices_part = λ e. cc e
  refusal-updated packages_part = λ e. cc e
  refusal-updated policy_part = λ e. cc e

  module _ (opened : p.initial ≡ some i) where
    reads_initial-Follows :
        (w : World b) (k : InitialGroupConfiguration → Page b → Turn b) {todo : List Change}
        → Follows (k i (with_world w)) todo
        → Follows (reads_initial b k p.initial (with_world w)) todo
    reads_initial-Follows w k {todo} h =
        subst (λ o. Follows (reads_initial b k o (with_world w)) todo) (sym opened) h

    accepted_turn-Follows :
        (part : Part) (made : Bool) (w : World b)
        → Follows (accepted_turn b part made (with_world w)) (rest_of part)
    unfolding accepted_turn
    accepted_turn-Follows priority_part made w =
        reads_initial-Follows w (λ j. devices_turn b j made) (devices_turn-Follows w made)
    accepted_turn-Follows devices_part made w =
        reads_initial-Follows w (λ j. packages_turn b j made) (packages_turn-Follows w made)
    accepted_turn-Follows packages_part made w =
        reads_initial-Follows w (λ j. policy_turn b j made) (policy_turn-Follows w made)
    accepted_turn-Follows policy_part made w = end_turn-Follows w made

    pub next_turn-Follows :
        (part : Part) (made : Bool) (out : RequestOutput) (w : World b)
        → Follows (next_turn b part made out (with_world w)) (rest_of part)
    unfolding next_turn
    next_turn-Follows part made out w = elim (Bool-cases out.success) [
      | inl done ↦ rw done (accepted_turn-Follows part made w)
      | inr bad ↦ rw bad (refused-Follows (refusal_of part) _ (rest_of part) (refusal-updated part))
    ]
