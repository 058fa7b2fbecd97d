-- ===== src/Devices/Detail/Selection.antt =====
-- The selection of rows in the action log of Device.vue: `selectTask`, `selectedCount`, and what
-- `removeSelectedActions` asks for.
pub mod Laws
use rdfm.Base.{
  ℕ, zero, suc, show, ◌<>◌, String, Bool, not, List, [], ◌∷◌, length, filter, if◌then◌else◌,
}
use rdfm.Utils.World.{Browser}
use rdfm.Devices.Detail.{Page, PageTask, selected_tasks}

-- `task.selected = !task.selected` of the row `i`.
pub toggle_task : ℕ → List PageTask → List PageTask
toggle_task i [] = []
toggle_task zero (t ∷ ts) = record t { selected = not t.selected } ∷ ts
toggle_task (suc i) (t ∷ ts) = t ∷ toggle_task i ts

module _ (b : Browser) where
  -- A click on the row `i`, that may be a click on its download button.
  pub select_task : ℕ → Bool → Page b → Page b
  unfolding toggle_task
  select_task i on_dots p = if on_dots then p else record p { tasks = toggle_task i p.tasks }

  pub selected_count : Page b → String
  unfolding selected_tasks
  selected_count p =
      show (length (selected_tasks p.tasks))
      <> " out of "
      <> show (length p.tasks)
      <> " row(s) selected."

  -- The clicks on the rows, in their order.
  pub select_tasks : List (ℕ × Bool) → Page b → Page b
  unfolding select_task
  select_tasks [] p = p
  select_tasks ((i, on_dots) ∷ clicks) p = select_tasks clicks (select_task i on_dots p)
