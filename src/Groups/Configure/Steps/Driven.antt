-- ===== src/Groups/Configure/Steps/Driven.antt =====
-- The two models of `configureGroup`: its turns, with the server's answers and nothing in between, and
-- the whole of it in one step.
use rdfm.Base.{
  ℕ, zero, suc, String, ◌==◌, string_eq, Bool, true, false, Option, none, some, ◌≡◌, ◌∙◌, ap, sym,
  refl, Bool-cases, inl, inr, not, if◌then◌else◌,
}
use rdfm.Utils.World.{Browser, World}
use rdfm.Utils.Form.{or_text}
use rdfm.Utils.Notifications.{notify_error}
use rdfm.Utils.Model.{Group, RequestOutput}
use rdfm.Groups.Page.{Page, notify, InitialGroupConfiguration}
use rdfm.Groups.Configure.{
  Outcome, Flow, go, stop, was_group_modified, selected_ids, same_numbers, policy_differs,
  group_to_modify, request, finish, priority_stage, devices_stage, packages_stage, policy_stage,
  post_policy_stage, ◌then_stage◌, stages, checked, configure_by, configure_group,
}
use rdfm.Groups.Configure.Plan.{Change, send_change, set_policy}
use rdfm.Groups.Configure.Steps.{
  Part, priority_part, devices_part, packages_part, policy_part, Progress, waits, ends, Call, Turn,
  end_turn, ask_policy, policy_turn, packages_turn, devices_turn, priority_turn, check_turn,
  first_turn_by, first_turn, accepted_turn, next_turn, reads_initial, asks, headline_of, default_of,
  refusal_of,
}

module _ (b : Browser) (id : ℕ) where
  -- Each request is answered by the server, and the code goes on at once, for `n` answers at most.
  pub drive : Page b → Option Call → Progress → ℕ → Option (Outcome × Page b)
  unfolding next_turn send_change
  drive p call (ends o) n = some (o, p)
  drive p call (waits part made) zero = none
  drive p none (waits part made) (suc n) = none
  drive p (some c) (waits part made) (suc n) =
      let r = send_change b id c.change p.world in
      let t = next_turn b part made r.0 (record p { world = r.1 }) in
      drive t.page t.call t.progress n

  abbrev pub driven : ℕ → Turn b → Option (Outcome × Page b)
  driven n t = drive t.page t.call t.progress n

  module _ (part : Part) (made : Bool) (c : Change) (p : Page b) where
    answer : RequestOutput × World b
    answer = send_change b id c p.world

    abbrev answered_page : Page b
    answered_page = record p { world = answer.1 }

    abbrev requested : Flow × Page b
    requested =
        request b (send_change b id c) (headline_of part) (default_of part) (refusal_of part) made p

    abbrev refused_page : Page b
    refused_page =
        notify b
          (notify_error b (headline_of part) (some (or_text answer.0.message (default_of part))))
          answered_page

    requested-done : answer.0.success ≡ true → requested ≡ (go made, answered_page)
    unfolding answer
    requested-done done = rw done refl

    requested-bad : answer.0.success ≡ false → requested ≡ (stop (refusal_of part), refused_page)
    unfolding answer
    requested-bad bad = rw bad refl

    abbrev turned : Turn b
    turned = next_turn b part made answer.0 answered_page

    turned-done : answer.0.success ≡ true → turned ≡ accepted_turn b part made answered_page
    unfolding next_turn
    turned-done done = rw done refl

    turned-bad :
        answer.0.success ≡ false
        → turned ≡ record { page = refused_page; call = none; progress = ends (refusal_of part) }
    unfolding next_turn
    turned-bad bad = rw bad refl

    -- A request of the code, and what follows it.
    asks-driven :
        (n : ℕ) (k : Bool → Page b → Flow × Page b)
        → driven n (accepted_turn b part made answered_page)
          ≡ some (finish b (k made answered_page))
        → driven (suc n) (asks b part made c p) ≡ some (finish b (◌then_stage◌ b requested k))
    unfolding drive answer
    asks-driven n k h = elim (Bool-cases answer.0.success) [
      | inl done ↦
          ap (driven n) (turned-done done)
          ∙ h
          ∙ ap (λ f. some (finish b (◌then_stage◌ b f k))) (sym (requested-done done))
      | inr bad ↦
          ap (driven n) (turned-bad bad)
          ∙ ap (λ f. some (finish b (◌then_stage◌ b f k))) (sym (requested-bad bad))
    ]

    -- The last request: nothing but `finish` follows.
    last-driven :
        (n : ℕ)
        → driven n (accepted_turn b part made answered_page)
          ≡ some (finish b (go made, answered_page))
        → driven (suc n) (asks b part made c p) ≡ some (finish b requested)
    unfolding drive answer
    last-driven n h = elim (Bool-cases answer.0.success) [
      | inl done ↦
          ap (driven n) (turned-done done)
          ∙ h
          ∙ ap (λ f. some (finish b f)) (sym (requested-done done))
      | inr bad ↦
          ap (driven n) (turned-bad bad) ∙ ap (λ f. some (finish b f)) (sym (requested-bad bad))
    ]

  module _ (i : InitialGroupConfiguration) (made : Bool) (p : Page b) where
    end_turn-driven : (n : ℕ) → driven n (end_turn b made p) ≡ some (finish b (go made, p))
    unfolding drive end_turn
    end_turn-driven n = refl

    ask_policy-driven :
        (n : ℕ) (policy : Option String)
        → driven (suc n) (ask_policy b policy made p)
          ≡ some (finish b (post_policy_stage b id policy made p))
    unfolding drive ask_policy post_policy_stage accepted_turn end_turn send_change
    ask_policy-driven n none = refl
    ask_policy-driven n (some policy) = elim (Bool-cases (policy == "")) [
      | inl cleared ↦ rw cleared refl
      | inr given ↦ rw given (last-driven policy_part made (set_policy policy) p n refl)
    ]

    policy_turn-driven :
        (n : ℕ)
        → driven (suc n) (policy_turn b i made p) ≡ some (finish b (policy_stage b id i made p))
    unfolding policy_turn policy_stage
    policy_turn-driven n = elim (Bool-cases (policy_differs p.configuration.policy i.policy)) [
      | inl new ↦ rw new (ask_policy-driven n p.configuration.policy)
      | inr same ↦ rw same (end_turn-driven (suc n))
    ]

  -- A part of the code that asks, or goes straight on.
  stage-driven :
      (t : Bool) (part : Part) (made made' : Bool) (c : Change) (p : Page b) (n : ℕ) (next : Turn b)
      (k : Bool → Page b → Flow × Page b)
      → driven (suc n) next ≡ some (finish b (k made' p))
      → driven n (accepted_turn b part made (answered_page part made c p))
        ≡ some (finish b (k made (answered_page part made c p)))
      → driven (suc n) (if t then asks b part made c p else next)
        ≡ some (finish b (◌then_stage◌ b (if t then requested part made c p else (go made', p)) k))
  stage-driven true part made made' c p n next k h h' = asks-driven part made c p n k h'
  stage-driven false part made made' c p n next k h h' = h

  then_stage_assoc :
      (f : Flow × Page b) (g h : Bool → Page b → Flow × Page b)
      → ◌then_stage◌ b (◌then_stage◌ b f g) h ≡ ◌then_stage◌ b f (λ m q. ◌then_stage◌ b (g m q) h)
  then_stage_assoc (go m, q) g h = refl
  then_stage_assoc (stop o, q) g h = refl

  module _ (i : InitialGroupConfiguration) where
    -- The code reads the same configuration again.
    reads-driven :
        (n : ℕ) (k : InitialGroupConfiguration → Page b → Turn b) (p : Page b)
        {r : Option (Outcome × Page b)}
        → p.initial ≡ some i
        → driven n (k i p) ≡ r
        → driven n (reads_initial b k p.initial p) ≡ r
    reads-driven n k p e h = ap (λ o. driven n (reads_initial b k o p)) e ∙ h

    after_devices : Bool → Page b → Flow × Page b
    after_devices made p = ◌then_stage◌ b (packages_stage b id i made p) (policy_stage b id i)

    after_priority : Bool → Page b → Flow × Page b
    after_priority made p = ◌then_stage◌ b (devices_stage b id i made p) after_devices

    stages-after :
        (p : Page b)
        → stages b id i p ≡ finish b (◌then_stage◌ b (priority_stage b id i p) after_priority)
    unfolding stages after_priority after_devices
    stages-after p =
        let f = priority_stage b id i p in
        ap (finish b) (
          then_stage_assoc (◌then_stage◌ b f (devices_stage b id i)) (packages_stage b id i)
            (policy_stage b id i)
          ∙ then_stage_assoc f (devices_stage b id i) after_devices)

    packages_turn-driven :
        (n : ℕ) (made : Bool) (p : Page b)
        → p.initial ≡ some i
        → driven (suc (suc n)) (packages_turn b i made p) ≡ some (finish b (after_devices made p))
    unfolding packages_turn after_devices packages_stage send_change accepted_turn
    packages_turn-driven n made p e =
        stage-driven (not (same_numbers i.packages (selected_ids p.package_list))) packages_part
          true made _ p (suc n) (policy_turn b i made p) (policy_stage b id i)
          (policy_turn-driven i made p (suc n))
          (reads-driven (suc n) (λ j. policy_turn b j true) _ e
            (policy_turn-driven i true (answered_page packages_part true _ p) n))

    devices_turn-driven :
        (n : ℕ) (made : Bool) (p : Page b)
        → p.initial ≡ some i
        → driven (suc (suc (suc n))) (devices_turn b i made p)
          ≡ some (finish b (after_priority made p))
    unfolding devices_turn after_priority devices_stage send_change accepted_turn
    devices_turn-driven n made p e =
        stage-driven _ devices_part true made _ p (suc (suc n)) (packages_turn b i made p)
          after_devices (packages_turn-driven (suc n) made p e)
          (reads-driven (suc (suc n)) (λ j. packages_turn b j true) _ e
            (packages_turn-driven n true (answered_page devices_part true _ p) e))

    priority_turn-driven :
        (p : Page b) → p.initial ≡ some i → driven 4 (priority_turn b i p) ≡ some (stages b id i p)
    unfolding priority_turn priority_stage send_change accepted_turn
    priority_turn-driven p e =
        stage-driven _ priority_part true false _ p 3 (devices_turn b i false p) after_priority
          (devices_turn-driven 1 false p e)
          (reads-driven 3 (λ j. devices_turn b j true) _ e
            (devices_turn-driven 0 true (answered_page priority_part true _ p) e))
        ∙ ap some (sym (stages-after p))

  check_turn-driven :
      (g : Option Group) (o : Option InitialGroupConfiguration) (p : Page b)
      → p.initial ≡ o
      → driven 4 (check_turn b g o p) ≡ some (checked b g o id p)
  unfolding drive
  check_turn-driven none o p e = refl
  check_turn-driven (some g) none p e = refl
  check_turn-driven (some g) (some i) p e = elim (Bool-cases (was_group_modified g i)) [
    | inl other ↦ rw other refl
    | inr same ↦ rw same (priority_turn-driven i p e)
  ]

  -- With the configuration of a group open, `configureGroup` run turn by turn, each request answered
  -- by the server and nothing else in between, ends after at most four answers, with the outcome and
  -- the page of the one step `configure_group`.
  turns-configure_group :
      (p : Page b)
      → p.configuration.id ≡ some id
      → driven 4 (first_turn b p) ≡ some (configure_group b p)
  unfolding first_turn configure_group
  turns-configure_group p e =
      ap (λ o. driven 4 (first_turn_by b o p)) e
      ∙ check_turn-driven (group_to_modify b id p) p.initial p refl
      ∙ ap (λ o. some (configure_by b o p)) (sym e)
