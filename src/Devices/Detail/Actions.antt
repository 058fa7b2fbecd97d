-- ===== src/Devices/Detail/Actions.antt =====
-- Clicks and answers in any order: an action that runs is not started again.
use rdfm.Base.{ℕ, ℤ, ◌+◌, ◌≤◌, ◌==◌, string_eq, eq_iff, String, Bool, true, false, ◌&&◌}
use rdfm.Base.{none, some, List, [], ◌∷◌, ◌≡◌, refl, ◌∙◌, arith, any, if◌then◌else◌}
use rdfm.Base.{Bool-cases, inl, inr}
use rdfm.Utils.Model.{DataOutput}
use rdfm.Utils.World.{Browser}
use rdfm.Devices.Detail.{
  Page, PageAction, is_running, set_running, find_action, start_action, finish_action,
}

abbrev pub is_listed : String → List PageAction → Bool
is_listed id actions = any (λ a. a.action.action_id == id) actions

-- Setting the flag of an action sets it where the action is listed, and nowhere else.
pub is_running-set_running :
    (j id : String) (running : Bool) (actions : List PageAction)
    → is_running j (set_running id running actions)
      ≡ (if id == j then is_listed j actions && running else is_running j actions)
unfolding is_running set_running
is_running-set_running j id running [] = ground arith
is_running-set_running j id running (a ∷ actions) = ground (
  arith,
  is_running-set_running j id running actions,
  eq_iff id j,
  eq_iff a.action.action_id id,
  eq_iff a.action.action_id j,
)

is_listed-set_running :
    (j id : String) (running : Bool) (actions : List PageAction)
    → is_listed j (set_running id running actions) ≡ is_listed j actions
unfolding set_running
is_listed-set_running j id running [] = refl
is_listed-set_running j id running (a ∷ actions) =
    ground (arith, is_listed-set_running j id running actions)

is_listed_of_find :
    (id : String) (actions : List PageAction)
    → is_listed id actions ≡ false
    → find_action id actions ≡ none
unfolding find_action
is_listed_of_find id [] h = refl
is_listed_of_find id (a ∷ actions) h = ground (arith, is_listed_of_find id actions)

abbrev pub waiting : String → List String → ℕ
waiting j [] = 0
waiting j (id ∷ ids) = (if id == j then 1 else 0) + waiting j ids

abbrev pub remove_one : String → List String → List String
remove_one j [] = []
remove_one j (id ∷ ids) = let rest = remove_one j ids in if id == j then ids else id ∷ rest

waiting-remove_one :
    (j id : String) (ids : List String) → waiting j (remove_one id ids) ≤ waiting j ids
waiting-remove_one j id [] = omega arith
waiting-remove_one j id (i ∷ ids) = ground (arith, waiting-remove_one j id ids)

waiting-remove_one_self :
    (j : String) (ids : List String) → waiting j ids ≤ 1 → waiting j (remove_one j ids) ≡ 0
waiting-remove_one_self j [] h = refl
waiting-remove_one_self j (i ∷ ids) h = ground (arith, waiting-remove_one_self j ids)

-- A request waits for at most one run of an action, and only while its flag is set.
abbrev flag : Bool → ℕ
flag true = 1
flag false = 0

abbrev pub IsTracked : {b : Browser} → List String → Page b → Type 0
IsTracked ids p = (j : String) → waiting j ids ≤ flag (is_running j p.actions)

module _ (b : Browser) where
  -- What can happen to the page while requests are under way: a click that starts an action or that
  -- does not, the answer to one of the requests, and whatever leaves the actions alone.
  pub data Steps : List String → Page b → Type 0 where
    start : (p : Page b) → Steps [] p
    click :
        {ids : List String} {p : Page b} (id : String) (a : PageAction)
        → Steps ids p
        → (start_action b id p).0 ≡ some a
        → Steps (id ∷ ids) (start_action b id p).1
    ignored :
        {ids : List String} {p : Page b} (id : String)
        → Steps ids p
        → (start_action b id p).0 ≡ none
        → Steps ids (start_action b id p).1
    answer :
        {ids : List String} {p : Page b} (id : String) (a : PageAction) (outcome : DataOutput ℤ)
        → Steps ids p
        → Steps (remove_one id ids) (finish_action b a id outcome p)
    elsewhere :
        {ids : List String} {p : Page b} (q : Page b)
        → Steps ids p
        → q.actions ≡ p.actions
        → Steps ids q

  start-busy :
      (id : String) (p : Page b) → is_running id p.actions ≡ true → start_action b id p ≡ (none, p)
  unfolding start_action
  start-busy id p h = rw h

  start-actions :
      (id : String) (p : Page b)
      → is_running id p.actions ≡ false
      → (start_action b id p).1.actions ≡ set_running id true p.actions
  unfolding start_action
  start-actions id p h = rw h (ground arith)

  start-listed :
      (id : String) (p : Page b) (a : PageAction)
      → (start_action b id p).0 ≡ some a
      → (is_running id p.actions ≡ false) × (is_listed id p.actions ≡ true)
  unfolding start_action
  start-listed id p a h = elim (Bool-cases (is_running id p.actions)) [
    | inl busy ↦ let e : none ≡ some a = rw busy at h in cc
    | inr idle ↦ elim (Bool-cases (is_listed id p.actions)) [
      | inl listed ↦ (idle, listed)
      | inr unlisted ↦
          let unlisted' = is_listed-set_running id id true p.actions ∙ unlisted in
          let gone = is_listed_of_find id (set_running id true p.actions) unlisted' in
          let e : none ≡ some a = rw (idle, gone) at h in cc
    ]
  ]

  ignored-running :
      (id j : String) (p : Page b)
      → flag (is_running j p.actions) ≤ flag (is_running j (start_action b id p).1.actions)
  ignored-running id j p = elim (Bool-cases (is_running id p.actions)) [
    | inl busy ↦ rw (start-busy id p busy) (omega arith)
    | inr idle ↦
        rw (start-actions id p idle)
          (ground (arith, is_running-set_running j id true p.actions, eq_iff id j))
  ]

  finish-running :
      (id j : String) (a : PageAction) (outcome : DataOutput ℤ) (p : Page b)
      → is_running j (finish_action b a id outcome p).actions
        ≡ (if id == j then false else is_running j p.actions)
  unfolding finish_action
  finish-running id j a outcome p = is_running-set_running j id false p.actions ∙ ground arith

  -- However clicks and answers are interleaved, from a page on which nothing was requested: at most
  -- one request for each action is under way, and while there is one the action counts as running.
  pub Steps-IsTracked : {ids : List String} {p : Page b} → Steps ids p → IsTracked ids p
  Steps-IsTracked (start p) j = omega arith
  Steps-IsTracked (click {ids} {p} id a st h) j =
      let (idle, listed) = start-listed id p a h in
      rw (start-actions id p idle) (
        ground
          (arith, Steps-IsTracked st j, is_running-set_running j id true p.actions, eq_iff id j))
  Steps-IsTracked (ignored {ids} {p} id st h) j =
      omega (arith, Steps-IsTracked st j, ignored-running id j p)
  Steps-IsTracked (answer {ids} {p} id a outcome st) j = rw (finish-running id j a outcome p) (
      ground (
        arith,
        Steps-IsTracked st j,
        waiting-remove_one j id ids,
        waiting-remove_one_self j ids,
        eq_iff id j,
      ))
  Steps-IsTracked (elsewhere q st e) j = rw e (Steps-IsTracked st j)
