-- ===== src/Tests/Polling.antt =====
-- A page that is left, with timers that are numbered above all that run.
use rdfm.Base.{
  ℕ, suc, ◌+◌, ◌≤◌, ◌==◌, nat_eq, true, false, not, List, [], ◌∷◌, ◌++◌, map, filter, includes,
  includes-filter, ◌≡◌, arith,
}
use rdfm.Utils.Command.{refresh_all}
use rdfm.Utils.Polling.{
  Timers, IsReliable, Page, loaded, unmounted, tick, groups_polled, created, run,
}
use rdfm.Utils.Polling.Laws.{run-unmounted, unmounted-loaded}
use rdfm.Tests.Setup.{browser, first_world}

abbrev sum : List ℕ → ℕ
sum [] = 0
sum (i ∷ is) = i + sum is

includes-sum : (is : List ℕ) (j : ℕ) → includes is j ≡ true → j ≤ sum is
includes-sum [] j h = ground arith
includes-sum (i ∷ is) j h = ground (arith, includes-sum is j)

abbrev clock : Timers
clock = record {
  State = List ℕ;
  set_interval = λ is. (suc (sum is), suc (sum is) ∷ is);
  clear_interval = λ i is. filter (λ j. not (j == i)) is;
  is_running = λ j is. includes is j;
}

clock-IsReliable : IsReliable clock
clock-IsReliable = record {
  new_number = λ is. ground (arith, includes-sum is (suc (sum is)));
  is_running-set_interval = λ is j. ground arith;
  is_running-clear_interval = λ i is j. ground (arith, includes-filter (λ k. not (k == i)) is j);
}

abbrev left_page : Page browser clock
left_page =
    run browser clock groups_polled ((loaded ∷ tick 1 ∷ []) ++ unmounted ∷ [])
      (created browser clock first_world [])

run-unmounted_example :
    ((j : ℕ) → includes left_page.clock j ≡ false)
    × ((js : List ℕ) → run browser clock groups_polled (map tick js) left_page ≡ left_page)
run-unmounted_example =
    run-unmounted browser clock clock-IsReliable groups_polled (loaded ∷ tick 1 ∷ []) first_world []

abbrev early_page : Page browser clock
early_page =
    run browser clock groups_polled (unmounted ∷ loaded ∷ []) (created browser clock first_world [])

unmounted-loaded_example :
    (includes {A = ℕ} [] 1 ≡ false)
    × (includes early_page.clock 1 ≡ true)
    × ((run browser clock groups_polled (tick 1 ∷ []) early_page).world
        ≡ refresh_all browser groups_polled.again early_page.world)
unmounted-loaded_example =
    unmounted-loaded browser clock clock-IsReliable groups_polled first_world []
