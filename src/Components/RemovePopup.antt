-- ===== src/Components/RemovePopup.antt =====
-- frontend/src/components/RemovePopup.vue, and the texts that the pages give it.
use rdfm.Base.{ℕ, show, String, ◌<>◌, Bool, Option, none, some, if◌then◌else◌, lookup, List}
use rdfm.Utils.Form.{is_falsy}

-- What the popup shows when it is enabled; its buttons run the two callbacks of the page.
pub record RemovePopup : Type 0 where
  pub title : String
  pub description : String

abbrev pub remove_popup : Bool → String → Option RemovePopup
remove_popup enabled description =
    if enabled
    then some (record { title = "Are you absolutely sure?"; description = description })
    else none

-- A number in a template literal.
abbrev pub number_text : Option ℕ → String
number_text none = "null"
number_text (some n) = show n

abbrev pub irrevocable : String → String
irrevocable what = "This action cannot be undone. It will permanently delete " <> what

-- `v-if="validationErrors.get(field)"` and the text below it.
abbrev shown_text : Option String → Option String
shown_text none = none
shown_text (some s) = if is_falsy (some s) then none else some s

abbrev pub shown_error : String → List (String × String) → Option String
shown_error name errors = shown_text (lookup name errors)
