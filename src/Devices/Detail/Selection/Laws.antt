-- ===== src/Devices/Detail/Selection/Laws.antt =====
-- The tasks that are chosen are those whose rows were clicked an odd number of times.
use rdfm.Base.{
  ℕ, zero, suc, ◌==◌, nat_eq, String, Bool, true, false, not, ◌&&◌, List, [], ◌∷◌, map,
  if◌then◌else◌, ◌≡◌, refl, ap, sym, ◌∙◌, arith, Bool-cases, inl, inr,
}
use rdfm.Utils.Model.{Task}
use rdfm.Utils.World.{Browser}
use rdfm.Devices.Detail.{Page, PageTask, page_task, selected_tasks}
use rdfm.Devices.Detail.Selection.{toggle_task, select_task, select_tasks}

-- The selection of the row `j` after the clicks.
abbrev pub clicked : ℕ → List (ℕ × Bool) → Bool → Bool
clicked j [] s = s
clicked j ((i, on_dots) ∷ clicks) s = clicked j clicks (if i == j && not on_dots then not s else s)

-- The ids of the rows that `f` picks, by their index.
abbrev pub picked : (ℕ → Bool) → List Task → List String
picked f [] = []
picked f (t ∷ ts) = let rest = picked (λ j. f (suc j)) ts in if f 0 then t.id ∷ rest else rest

-- The rows, each with its selection changed by the function for its index.
marked : (ℕ → Bool → Bool) → List PageTask → List PageTask
marked g [] = []
marked g (t ∷ ts) = record t { selected = g 0 t.selected } ∷ marked (λ j. g (suc j)) ts

marked-same :
    (g : ℕ → Bool → Bool) (ts : List PageTask) → ((j : ℕ) (s : Bool) → g j s ≡ s) → marked g ts ≡ ts
unfolding marked
marked-same g [] h = refl
marked-same g (t ∷ ts) h =
    rw (h 0 t.selected) (ap (λ l. t ∷ l) (marked-same (λ j. g (suc j)) ts (λ j s. h (suc j) s)))

marked-alike :
    (g h : ℕ → Bool → Bool) (ts : List PageTask)
    → ((j : ℕ) (s : Bool) → g j s ≡ h j s)
    → marked g ts ≡ marked h ts
unfolding marked
marked-alike g h [] e = refl
marked-alike g h (t ∷ ts) e = rw (e 0 t.selected) (
    ap (λ l. record t { selected = h 0 t.selected } ∷ l)
      (marked-alike (λ j. g (suc j)) (λ j. h (suc j)) ts (λ j s. e (suc j) s)))

marked-compose :
    (h g : ℕ → Bool → Bool) (ts : List PageTask)
    → marked h (marked g ts) ≡ marked (λ j s. h j (g j s)) ts
unfolding marked
marked-compose h g [] = refl
marked-compose h g (t ∷ ts) =
    ap (λ l. record t { selected = h 0 (g 0 t.selected) } ∷ l)
      (marked-compose (λ j. h (suc j)) (λ j. g (suc j)) ts)

toggle_task-marked :
    (i : ℕ) (ts : List PageTask) → toggle_task i ts ≡ marked (λ j s. if i == j then not s else s) ts
unfolding toggle_task marked
toggle_task-marked i [] = refl
toggle_task-marked zero (t ∷ ts) =
    ap (λ l. record t { selected = not t.selected } ∷ l)
      (sym (marked-same (λ j s. if 0 == suc j then not s else s) ts (λ j s. ground arith)))
toggle_task-marked (suc i) (t ∷ ts) =
    let apart : (suc i == 0) ≡ false = ground arith in
    rw apart (
      ap (λ l. t ∷ l)
        (toggle_task-marked i ts
          ∙ marked-alike (λ j s. if i == j then not s else s)
              (λ j s. if suc i == suc j then not s else s) ts (λ j s. ground arith)))

selected_tasks-marked :
    (g : ℕ → Bool → Bool) (log : List Task)
    → selected_tasks (marked g (map page_task log)) ≡ picked (λ j. g j false) log
unfolding selected_tasks marked page_task
selected_tasks-marked g [] = refl
selected_tasks-marked g (t ∷ log) = elim (Bool-cases (g 0 false)) [
  | inl chosen ↦ rw chosen (ap (λ l. t.id ∷ l) (selected_tasks-marked (λ j. g (suc j)) log))
  | inr left ↦ rw left (selected_tasks-marked (λ j. g (suc j)) log)
]

module _ (b : Browser) where
  select_task-marked :
      (i : ℕ) (on_dots : Bool) (p : Page b)
      → (select_task b i on_dots p).tasks
        ≡ marked (λ j s. if i == j && not on_dots then not s else s) p.tasks
  unfolding select_task
  select_task-marked i true p = sym (marked-same _ p.tasks (λ j s. ground arith))
  select_task-marked i false p =
      toggle_task-marked i p.tasks ∙ marked-alike _ _ p.tasks (λ j s. ground arith)

  select_tasks-marked :
      (clicks : List (ℕ × Bool)) (p : Page b)
      → (select_tasks b clicks p).tasks ≡ marked (λ j. clicked j clicks) p.tasks
  unfolding select_tasks
  select_tasks-marked [] p = sym (marked-same _ p.tasks (λ j s. refl))
  select_tasks-marked ((i, on_dots) ∷ clicks) p =
      select_tasks-marked clicks (select_task b i on_dots p)
      ∙ ap (marked (λ j. clicked j clicks)) (select_task-marked i on_dots p)
      ∙ marked-compose (λ j. clicked j clicks) _ p.tasks

  -- After any clicks on the rows of a log that was just fetched, the tasks that
  -- `removeSelectedActions` asks to remove are those whose rows were clicked an odd number of times,
  -- in the order of the log; a click on a download button does not count.
  pub selected_tasks-select_tasks :
      (clicks : List (ℕ × Bool)) (log : List Task) (p : Page b)
      → p.tasks ≡ map page_task log
      → selected_tasks (select_tasks b clicks p).tasks ≡ picked (λ j. clicked j clicks false) log
  selected_tasks-select_tasks clicks log p fetched =
      ap selected_tasks (select_tasks-marked clicks p ∙ ap (marked (λ j. clicked j clicks)) fetched)
      ∙ selected_tasks-marked (λ j. clicked j clicks) log
