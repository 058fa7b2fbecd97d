-- ===== src/Components/SimpleDropdown.antt =====
-- frontend/src/components/SimpleDropdown.vue. A click is handled by the element that it hits and
-- then, as it bubbles, by the elements around that one.
pub mod Laws
use rdfm.Base.{
  ◌==◌, string_eq, String, Bool, true, false, not, Option, none, some, List, find, if◌then◌else◌,
}

pub record Choice : Type 0 where
  pub id : String
  pub display : String

-- `chosen` is what the function `select` was called with, the latest first.
pub record SimpleDropdown : Type 0 where
  pub expanded : Bool
  pub selected : Option Choice
  pub chosen : List String

pub setup : List Choice → Option String → SimpleDropdown
setup options initial = record {
  expanded = false;
  selected = elim initial [ none ↦ none | some i ↦ find (λ o. o.id == i) options ];
  chosen = List.[];
}

-- the outer element
pub on_click : SimpleDropdown → SimpleDropdown
on_click s = record s { expanded = not s.expanded }

pub on_blur : SimpleDropdown → SimpleDropdown
on_blur s = record s { expanded = false }

-- the line that shows the selected option
pub on_header : SimpleDropdown → SimpleDropdown
on_header s = record s { expanded = false }

-- an option of the list
pub on_option : Choice → SimpleDropdown → SimpleDropdown
on_option o s = record s { chosen = List.◌∷◌ o.id s.chosen; selected = some o }

-- `selected?.display || 'No value'`
pub shown : Option Choice → String
shown none = "No value"
shown (some o) = if o.display == "" then "No value" else o.display

-- What the user can do; the options are there while the list is open.
pub click_header : SimpleDropdown → SimpleDropdown
unfolding on_click on_header
click_header s = on_click (on_header s)

pub click_option : Choice → SimpleDropdown → SimpleDropdown
unfolding on_click on_option
click_option o s = if s.expanded then on_click (on_option o s) else s
