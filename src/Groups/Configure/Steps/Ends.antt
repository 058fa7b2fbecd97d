-- ===== src/Groups/Configure/Steps/Ends.antt =====
-- Every call of `configureGroup` ends: each answer brings it at least one request further.
use rdfm.Base.{
  ℕ, String, ◌+◌, ◌-◌, ◌≢◌, ◌≤◌, ◌<◌, ◌==◌, nat_eq, string_eq, Bool, Option, none, some, List, [],
  ◌∷◌, ◌≡◌, ◌∙◌, ap, refl, arith, Bool-cases, inl, inr, ◌||◌, not, get_elem?, get_elem?-set_same,
  get_elem?-set_other, get_elem?-append, if◌then◌else◌,
}
use rdfm.Utils.Model.{RequestOutput}
use rdfm.Utils.World.{Browser}
use rdfm.Groups.Page.{Page, InitialGroupConfiguration}
use rdfm.Groups.Configure.{
  Outcome, selected_ids, removed_devices, added_devices, same_numbers, is_empty, policy_differs,
}
use rdfm.Groups.Configure.Steps.{
  Part, priority_part, devices_part, packages_part, policy_part, Progress, waits, ends, Turn,
  configure, cancel, open_group, type_priority, choose_policy, click_package, click_device,
  answered, Happening, event, refreshed, end_turn, ask_policy, policy_turn, packages_turn,
  devices_turn, accepted_turn, next_turn, Run, handle, happen, happen_all, reads_initial, resumed,
}

-- How many answers a call of `configureGroup` can still take.
abbrev awaited : Progress → ℕ
awaited (waits priority_part made) = 4
awaited (waits devices_part made) = 3
awaited (waits packages_part made) = 2
awaited (waits policy_part made) = 1
awaited (ends o) = 0

awaited-le : (g : Progress) → awaited g ≤ 4
awaited-le (waits priority_part made) = omega arith
awaited-le (waits devices_part made) = omega arith
awaited-le (waits packages_part made) = omega arith
awaited-le (waits policy_part made) = omega arith
awaited-le (ends o) = omega arith

module _ (b : Browser) where
  module _ (i : InitialGroupConfiguration) (p : Page b) (made : Bool) where
    ask_policy-awaited :
        (policy : Option String) → awaited (ask_policy b policy made p).progress ≤ 1
    unfolding ask_policy
    ask_policy-awaited none = omega arith
    ask_policy-awaited (some policy) = elim (Bool-cases (policy == "")) [
      | inl cleared ↦ rw cleared (omega arith)
      | inr given ↦ rw given (omega arith)
    ]

    policy_turn-awaited : awaited (policy_turn b i made p).progress ≤ 1
    unfolding policy_turn end_turn
    policy_turn-awaited = elim (Bool-cases (policy_differs p.configuration.policy i.policy)) [
      | inl new ↦ rw new (ask_policy-awaited p.configuration.policy)
      | inr same ↦ rw same (omega arith)
    ]

    packages_turn-awaited : awaited (packages_turn b i made p).progress ≤ 2
    unfolding packages_turn
    packages_turn-awaited =
        elim (Bool-cases (same_numbers i.packages (selected_ids p.package_list))) [
          | inl same ↦ rw same (omega (arith, policy_turn-awaited))
          | inr new ↦ rw new (omega arith)
        ]

    devices_turn-awaited : awaited (devices_turn b i made p).progress ≤ 3
    unfolding devices_turn
    devices_turn-awaited =
        elim (Bool-cases (
          not (is_empty (removed_devices i.devices (selected_ids p.device_list)))
          || not (is_empty (added_devices i.devices (selected_ids p.device_list))))) [
            | inl new ↦ rw new (omega arith)
            | inr same ↦ rw same (omega (arith, packages_turn-awaited))
          ]

  reads_initial-awaited :
      (n : ℕ) (k : InitialGroupConfiguration → Page b → Turn b)
      (oi : Option InitialGroupConfiguration) (p : Page b)
      → ((i : InitialGroupConfiguration) → awaited (k i p).progress ≤ n)
      → awaited (reads_initial b k oi p).progress ≤ n
  reads_initial-awaited n k none p h = omega arith
  reads_initial-awaited n k (some i) p h = h i

  accepted_turn-awaited :
      (part : Part) (made : Bool) (p : Page b)
      → awaited (accepted_turn b part made p).progress < awaited (waits part made)
  unfolding accepted_turn end_turn
  accepted_turn-awaited priority_part made p = omega (
    arith,
    reads_initial-awaited 3 (λ i. devices_turn b i made) p.initial p
        (λ i. devices_turn-awaited i p made),
  )
  accepted_turn-awaited devices_part made p = omega (
    arith,
    reads_initial-awaited 2 (λ i. packages_turn b i made) p.initial p
        (λ i. packages_turn-awaited i p made),
  )
  accepted_turn-awaited packages_part made p = omega (
    arith,
    reads_initial-awaited 1 (λ i. policy_turn b i made) p.initial p
        (λ i. policy_turn-awaited i p made),
  )
  accepted_turn-awaited policy_part made p = omega arith

  next_turn-awaited :
      (part : Part) (made : Bool) (out : RequestOutput) (p : Page b)
      → awaited (next_turn b part made out p).progress < awaited (waits part made)
  unfolding next_turn
  next_turn-awaited part made out p = elim (Bool-cases out.success) [
    | inl done ↦ rw done (accepted_turn-awaited part made p)
    | inr bad ↦ rw bad (ground (arith, awaited (waits part made)))
  ]

abbrev answers_in : {b : Browser} → ℕ → Happening b → ℕ
answers_in k (event (answered j out)) = if j == k then 1 else 0
answers_in k _ = 0

-- The answers to the `k`-th call of `configureGroup` in a run.
abbrev pub answers_to : {b : Browser} → ℕ → List (Happening b) → ℕ
answers_to k [] = 0
answers_to k (h ∷ hs) = answers_in k h + answers_to k hs

module _ (b : Browser) (k : ℕ) where
  -- The call is still there, and takes `n` answers less than before.
  abbrev IsFurther : Progress → ℕ → Run b → Type 0
  IsFurther g n r =
      (g' : Progress) × (get_elem? k r.invocations ≡ some g') × (awaited g' ≤ awaited g - n)

  resumed_self :
      (out : RequestOutput) (g : Progress) (r : Run b)
      → get_elem? k r.invocations ≡ some g
      → IsFurther g 1 (resumed b k out (some g) r)
  resumed_self out (ends o) r h = (ends o, h, omega arith)
  resumed_self out (waits part made) r h = (
    (next_turn b part made out r.page).progress,
    get_elem?-set_same k _ r.invocations h,
    omega (arith, next_turn-awaited b part made out r.page),
  )

  resumed_other :
      (j : ℕ) (out : RequestOutput) (o : Option Progress) (g : Progress) (r : Run b)
      → j ≢ k
      → get_elem? k r.invocations ≡ some g
      → IsFurther g 0 (resumed b j out o r)
  resumed_other j out none g r ne h = (g, h, omega arith)
  resumed_other j out (some (ends o)) g r ne h = (g, h, omega arith)
  resumed_other j out (some (waits part made)) g r ne h =
      (g, get_elem?-set_other j k _ r.invocations ne ∙ h, omega arith)

  answered-IsFurther :
      (j : ℕ) (out : RequestOutput) (g : Progress) (r : Run b)
      → get_elem? k r.invocations ≡ some g
      → IsFurther g (if j == k then 1 else 0) (resumed b j out (get_elem? j r.invocations) r)
  answered-IsFurther j out g r h = elim (Bool-cases (j == k)) [
    | inl same ↦ let e : j ≡ k = ground arith in rw (same, e, h) (resumed_self out g r h)
    | inr other ↦
        rw other (resumed_other j out (get_elem? j r.invocations) g r (λ e. ground arith) h)
  ]

  happen-IsFurther :
      (h : Happening b) (g : Progress) (r : Run b)
      → get_elem? k r.invocations ≡ some g
      → IsFurther g (answers_in k h) (happen b h r)
  unfolding happen handle
  happen-IsFurther (event configure) g r e = (g, get_elem?-append k r.invocations _ e, omega arith)
  happen-IsFurther (event cancel) g r e = (g, e, omega arith)
  happen-IsFurther (event (open_group d)) g r e = (g, e, omega arith)
  happen-IsFurther (event (type_priority s)) g r e = (g, e, omega arith)
  happen-IsFurther (event (choose_policy s)) g r e = (g, e, omega arith)
  happen-IsFurther (event (click_package j)) g r e = (g, e, omega arith)
  happen-IsFurther (event (click_device j)) g r e = (g, e, omega arith)
  happen-IsFurther (event (answered j out)) g r e = answered-IsFurther j out g r e
  happen-IsFurther (refreshed w) g r e = (g, e, omega arith)

  happen_all-IsFurther :
      (hs : List (Happening b)) (g : Progress) (r : Run b)
      → get_elem? k r.invocations ≡ some g
      → IsFurther g (answers_to k hs) (happen_all b hs r)
  unfolding happen_all
  happen_all-IsFurther [] g r e = (g, e, omega arith)
  happen_all-IsFurther (h ∷ hs) g r e =
      let (g', e', le) = happen-IsFurther h g r e in
      let (g'', e'', le') = happen_all-IsFurther hs g' (happen b h r) e' in
      (g'', e'', omega (arith, le, le'))

  over_of_awaited : (g : Progress) → awaited g ≤ 0 → (o : Outcome) × (g ≡ ends o)
  over_of_awaited (ends o) h = (o, refl)
  over_of_awaited (waits priority_part made) h = absurd (omega arith)
  over_of_awaited (waits devices_part made) h = absurd (omega arith)
  over_of_awaited (waits packages_part made) h = absurd (omega arith)
  over_of_awaited (waits policy_part made) h = absurd (omega arith)

  -- From any state in which a call of `configureGroup` has begun: once it was answered four times it
  -- is over, whatever the answers are and whatever the user, the refreshes and the other calls do in
  -- between.
  pub four_answers-over :
      (hs : List (Happening b)) (g : Progress) (r : Run b)
      → get_elem? k r.invocations ≡ some g
      → 4 ≤ answers_to k hs
      → (o : Outcome) × (get_elem? k (happen_all b hs r).invocations ≡ some (ends o))
  four_answers-over hs g r e four =
      let (g', e', le) = happen_all-IsFurther hs g r e in
      let (o, ended) = over_of_awaited g' (omega (arith, le, awaited-le g)) in
      (o, e' ∙ ap some ended)
