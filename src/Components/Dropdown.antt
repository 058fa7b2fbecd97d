-- ===== src/Components/Dropdown.antt =====
-- frontend/src/components/Dropdown.vue: a table of rows to choose from, and the tags of those chosen.
pub mod Laws
pub mod View
use rdfm.Base.{
  ℕ, zero, suc, String, Bool, true, false, Option, none, some, List, [], ◌∷◌, if◌then◌else◌,
}

-- A row, with its columns by name.
pub record DataEntry : Type 0 where
  pub id : ℕ
  pub selected : Bool
  pub columns : List (String × String)

pub record Column : Type 0 where
  pub id : String
  pub name : String

-- The name of a tag is the id of its row, and its id the index of the row.
pub record Tag : Type 0 where
  pub name : ℕ
  pub id : ℕ

-- The loop of `tags`, from the row `i` on.
pub tags_from : ℕ → List DataEntry → List Tag
tags_from i [] = []
tags_from i (e ∷ es) =
    let rest = tags_from (suc i) es in
    if e.selected then record { name = e.id; id = i } ∷ rest else rest

pub tags : List DataEntry → List Tag
unfolding tags_from
tags rows = tags_from 0 rows
