-- ===== src/Groups/Configure/Stages.antt =====
-- The stages of `configureGroup` do what the plan says.
use rdfm.Base.{ℕ, String, ◌==◌, string_eq, nat_eq, Bool, true, false, Option, none}
use rdfm.Base.{some, List, [], ◌∷◌, ◌++◌, ◌≡◌, ◌≢◌, ◌↔◌, refl, ap, arith, Bool-cases, inl, inr}
use rdfm.Base.{if◌then◌else◌}
use rdfm.Utils.World.{Browser, World}
use rdfm.Utils.Notifications.{notify_error}
use rdfm.Utils.Notifications.Laws.{notify_error-sent, notify_error-stores, notify_success-sent}
use rdfm.Utils.Notifications.Laws.{notify_success-stores}
use rdfm.Groups.Page.{Page, notify, close_configure_group_popup, InitialGroupConfiguration}
use rdfm.Groups.Configure.{
  Outcome, updated, policy_missing, policy_refused, Flow, go, stop, policy_differs, priority_stage,
  devices_stage, packages_stage, policy_stage, request, post_policy_stage, ◌then_stage◌, finish,
  stages,
}
use rdfm.Groups.Configure.Plan.{
  Change, set_priority, patch_devices, set_packages, set_policy, no_policy, planned_if,
  policy_change, plan_priority, plan_devices, plan_packages, plan_policy, plan, send_change,
  send_all,
}

module _ (b : Browser) (id : ℕ) where
  -- A stage of the code does what a part of the plan says: it goes on with the world after the
  -- requests, or it stops, with a notification over that world.
  pub record Refines (p : Page b) (f : Flow × Page b) (r : Bool × World b) : Type 0 where
    pub goes : r.0 ≡ true → (made : Bool) × (f ≡ (go made, record p { world = r.1 }))
    pub stops : r.0 ≡ false → (o : Outcome) × (f.0 ≡ stop o) × (o ≢ updated)
    pub sends : f.1.world.sent ≡ r.1.sent
    pub stores : f.1.world.stores ≡ r.1.stores

  send_all-append :
      (xs ys : List Change) (w : World b)
      → send_all b id (xs ++ ys) w ≡ (
          if (send_all b id xs w).0
          then send_all b id ys (send_all b id xs w).1
          else send_all b id xs w)
  unfolding send_all
  send_all-append [] ys w = refl
  send_all-append (x ∷ xs) ys w = ground (arith, send_all-append xs ys (send_change b id x w).1)

  send_all-accepted :
      (c : Change) (w : World b)
      → (send_change b id c w).0.success ≡ true
      → send_all b id (c ∷ []) w ≡ (true, (send_change b id c w).1)
  unfolding send_all
  send_all-accepted c w h = rw (h, send_all)

  send_all-refused :
      (c : Change) (w : World b)
      → (send_change b id c w).0.success ≡ false
      → send_all b id (c ∷ []) w ≡ (false, (send_change b id c w).1)
  unfolding send_all
  send_all-refused c w h = rw (h, send_all)

  -- One request with its notification, for a change `c`.
  request-Refines :
      (c : Change) (headline text : String) (refused : Outcome) (made : Bool) (p : Page b)
      → refused ≢ updated
      → Refines p
          (request b (send_change b id c) headline text refused made p)
          (send_all b id (c ∷ []) p.world)
  request-Refines c headline text refused made p ne =
      elim (Bool-cases (send_change b id c p.world).0.success) [
        | inl done ↦
            rw (send_all-accepted c p.world done, done)
              (record { goes = λ e. (made, refl); stops = λ e. cc; sends = refl; stores = refl })
        | inr bad ↦
            rw (send_all-refused c p.world bad, bad)
              (record {
                goes = λ e. cc;
                stops = λ e. (refused, refl, ne);
                sends = notify_error-sent b headline _ (send_change b id c p.world).1;
                stores = notify_error-stores b headline _ (send_change b id c p.world).1;
              })
      ]

  skip-Refines : (made : Bool) (p : Page b) → Refines p (go made, p) (send_all b id [] p.world)
  unfolding send_all
  skip-Refines made p = record {
    goes = λ e. (made, refl);
    stops = λ e. cc;
    sends = refl;
    stores = refl;
  }

  optional-Refines :
      (t : Bool) (c : Change) (headline text : String) (refused : Outcome) (made made' : Bool)
      (p : Page b)
      → refused ≢ updated
      → Refines p
          (if t then request b (send_change b id c) headline text refused made p else (go made', p))
          (send_all b id (planned_if t c) p.world)
  optional-Refines true c headline text refused made made' p ne =
      request-Refines c headline text refused made p ne
  optional-Refines false c headline text refused made made' p ne = skip-Refines made' p

  missing-Refines :
      (p : Page b) (headline : String) (msg : Option String)
      → Refines p
          (stop policy_missing, notify b (notify_error b headline msg) p)
          (send_all b id (no_policy ∷ []) p.world)
  unfolding send_all
  missing-Refines p headline msg = record {
    goes = λ e. cc;
    stops = λ e. (policy_missing, refl, λ q. cc q);
    sends = notify_error-sent b headline msg p.world;
    stores = notify_error-stores b headline msg p.world;
  }

  module _ (initial : InitialGroupConfiguration) where
    priority_stage-Refines :
        (p : Page b)
        → Refines p
            (priority_stage b id initial p)
            (send_all b id (plan_priority b initial p) p.world)
    unfolding priority_stage plan_priority send_change
    priority_stage-Refines p = optional-Refines _ (set_priority _) _ _ _ _ _ p (λ e. cc e)

    devices_stage-Refines :
        (made : Bool) (p : Page b)
        → Refines p
            (devices_stage b id initial made p)
            (send_all b id (plan_devices b initial p) p.world)
    unfolding devices_stage plan_devices send_change
    devices_stage-Refines made p = optional-Refines _ (patch_devices _ _) _ _ _ _ _ p (λ e. cc e)

    packages_stage-Refines :
        (made : Bool) (p : Page b)
        → Refines p
            (packages_stage b id initial made p)
            (send_all b id (plan_packages b initial p) p.world)
    unfolding packages_stage plan_packages send_change
    packages_stage-Refines made p = optional-Refines _ (set_packages _) _ _ _ _ _ p (λ e. cc e)

    post_policy_stage-Refines :
        (policy : Option String) (made : Bool) (p : Page b)
        → Refines p
            (post_policy_stage b id policy made p)
            (send_all b id (policy_change policy ∷ []) p.world)
    unfolding post_policy_stage send_change
    post_policy_stage-Refines none made p = missing-Refines p _ _
    post_policy_stage-Refines (some policy) made p = elim (Bool-cases (policy == "")) [
      | inl cleared ↦ rw cleared (missing-Refines p _ _)
      | inr given ↦
          rw given (request-Refines (set_policy policy) _ _ policy_refused made p (λ e. cc e))
    ]

    policy_stage-Refines :
        (made : Bool) (p : Page b)
        → Refines p
            (policy_stage b id initial made p)
            (send_all b id (plan_policy b initial p) p.world)
    unfolding policy_stage plan_policy
    policy_stage-Refines made p =
        elim (Bool-cases (policy_differs p.configuration.policy initial.policy)) [
          | inl new ↦ rw new (post_policy_stage-Refines p.configuration.policy made p)
          | inr same ↦ rw same (skip-Refines made p)
        ]

  then_stage-stop :
      (f : Flow × Page b) (k : Bool → Page b → Flow × Page b) {o : Outcome}
      → f.0 ≡ stop o
      → ◌then_stage◌ b f k ≡ f
  then_stage-stop (stop o, p) k e = refl
  then_stage-stop (go made, p) k e = cc

  -- A stage after a stage, for a plan after a plan.
  then-Refines :
      (p : Page b) (f : Flow × Page b) (xs ys : List Change) (k : Bool → Page b → Flow × Page b)
      → Refines p f (send_all b id xs p.world)
      → ((made : Bool) (w : World b)
          → Refines (record p { world = w }) (k made (record p { world = w })) (send_all b id ys w))
      → Refines p (◌then_stage◌ b f k) (send_all b id (xs ++ ys) p.world)
  then-Refines p f xs ys k rf rk = elim (Bool-cases (send_all b id xs p.world).0) [
    | inl done ↦
        let (made, e) = rf.goes done in
        let h = rk made (send_all b id xs p.world).1 in
        rw (e, send_all-append xs ys p.world, done)
          (record { goes = h.goes; stops = h.stops; sends = h.sends; stores = h.stores })
    | inr bad ↦
        let (o, e, ne) = rf.stops bad in
        rw (send_all-append xs ys p.world, bad, then_stage-stop f k e)
          (record { goes = λ t. cc; stops = λ _. (o, e, ne); sends = rf.sends; stores = rf.stores })
  ]

  all_stages-Refines :
      (initial : InitialGroupConfiguration) (p : Page b)
      → Refines p
          (◌then_stage◌ b
            (◌then_stage◌ b
              (◌then_stage◌ b (priority_stage b id initial p) (devices_stage b id initial))
              (packages_stage b id initial))
            (policy_stage b id initial))
          (send_all b id (plan b initial p) p.world)
  unfolding plan
  all_stages-Refines initial p =
      then-Refines p _ _ (plan_policy b initial p) (policy_stage b id initial)
        (then-Refines p _ _ (plan_packages b initial p) (packages_stage b id initial)
          (then-Refines p _ (plan_priority b initial p) (plan_devices b initial p)
            (devices_stage b id initial) (priority_stage-Refines initial p)
            (λ made w. devices_stage-Refines initial made (record p { world = w })))
          (λ made w. packages_stage-Refines initial made (record p { world = w })))
        (λ made w. policy_stage-Refines initial made (record p { world = w }))

  finish-stop : (f : Flow × Page b) {o : Outcome} → f.0 ≡ stop o → finish b f ≡ (o, f.1)
  finish-stop (stop o, p) e = ground arith
  finish-stop (go made, p) e = cc

  finish-go :
      (made : Bool) (p : Page b)
      → ((finish b (go made, p)).0 ≡ updated)
        × ((finish b (go made, p)).1.world.sent ≡ p.world.sent)
        × ((finish b (go made, p)).1.world.stores ≡ p.world.stores)
  unfolding close_configure_group_popup
  finish-go true p =
      (refl, notify_success-sent b _ none p.world, notify_success-stores b _ none p.world)
  finish-go false p = (refl, refl, refl)

  finish-Refines :
      (p : Page b) (f : Flow × Page b) (r : Bool × World b)
      → Refines p f r
      → (((finish b f).0 ≡ updated) ↔ (r.0 ≡ true))
        × ((finish b f).1.world.sent ≡ r.1.sent)
        × ((finish b f).1.world.stores ≡ r.1.stores)
  finish-Refines p f r h = elim (Bool-cases r.0) [
    | inl done ↦
        let (made, e) = h.goes done in
        let (u, s, t) = finish-go made (record p { world = r.1 }) in
        rw e ((λ _. done, λ _. u), s, t)
    | inr bad ↦
        let (o, e, ne) = h.stops bad in
        let ended = finish-stop f e in rw ended ((λ u. absurd (ne u), λ t. cc), h.sends, h.stores)
  ]

  -- The rest of `configureGroup`, once no modification was found, sends exactly the planned changes,
  -- in the order of the plan and up to the first that is refused: the requests and the resources are
  -- those of the plan, and it ends with the update done exactly if none was refused.
  pub stages-send_all :
      (initial : InitialGroupConfiguration) (p : Page b)
      → let r = send_all b id (plan b initial p) p.world in
        let s = stages b id initial p in
        ((s.0 ≡ updated) ↔ (r.0 ≡ true))
        × (s.1.world.sent ≡ r.1.sent)
        × (s.1.world.stores ≡ r.1.stores)
  unfolding stages
  stages-send_all initial p =
      finish-Refines p _ (send_all b id (plan b initial p) p.world) (all_stages-Refines initial p)

  -- If every planned change is accepted, the code comes to its last lines with the world after them.
  pub stages-finish :
      (initial : InitialGroupConfiguration) (p : Page b)
      → let r = send_all b id (plan b initial p) p.world in
        r.0 ≡ true
        → (made : Bool) × (stages b id initial p ≡ finish b (go made, record p { world = r.1 }))
  unfolding stages
  stages-finish initial p done =
      let (made, e) = (all_stages-Refines initial p).goes done in (made, ap (finish b) e)
