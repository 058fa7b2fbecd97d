-- ===== src/Components/Dropdown/View.antt =====
-- frontend/src/components/Dropdown.vue: what the template shows.
use rdfm.Base.{
  show, ◌<>◌, ◌==◌, string_eq, String, Bool, true, false, Option, List, [], ◌∷◌, map, lookup,
  if◌then◌else◌,
}
use rdfm.Utils.Access.{offered}
use rdfm.Utils.Form.{text_value}
use rdfm.Components.Dropdown.{DataEntry, Column, Tag, tags}

-- The rows with their selection and their cells.
pub record Table : Type 0 where
  pub header : List String
  pub rows : List (Bool × List String)

pub record View : Type 0 where
  pub tags : List String
  pub hint : Option String
  pub table : Option Table

-- `row[col.id]`; no column is named after the field `selected`.
abbrev cell : DataEntry → Column → String
cell e c = if c.id == "id" then show e.id else text_value (lookup c.id e.columns)

abbrev is_empty : List Tag → Bool
is_empty [] = true
is_empty (t ∷ ts) = false

pub view : String → List Column → List DataEntry → Bool → View
view placeholder columns rows is_open = record {
  tags = map (λ t. "#" <> show t.name) (tags rows);
  hint = offered (is_empty (tags rows)) placeholder;
  table = offered is_open (record {
    header = map (λ c. c.name) columns;
    rows = map (λ e. (e.selected, map (cell e) columns)) rows;
  });
}
