-- ===== src/Utils/Form.antt =====
-- The validation of a form: what is falsy, and the map of errors by field.
use rdfm.Base.{
  ℕ, ◌==◌, nat_eq, string_eq, String, Bool, true, false, Option, none, some, List, [], ◌∷◌,
}
use rdfm.Base.{insert, if◌then◌else◌, ◌≡◌, ◌≢◌, ◌↔◌, refl, arith, eq_iff}

-- `!s` of a string that may be null: null and the empty string are falsy.
abbrev pub is_falsy : Option String → Bool
is_falsy none = true
is_falsy (some s) = s == ""

-- `!n` of a number that may be null: 0 is falsy too.
abbrev pub is_falsy_number : Option ℕ → Bool
is_falsy_number none = true
is_falsy_number (some n) = n == 0

-- `s!` and `n!`, once they are known to be there.
abbrev pub text_value : Option String → String
text_value none = ""
text_value (some s) = s

abbrev pub number_value : Option ℕ → ℕ
number_value none = 0
number_value (some n) = n

-- `if (test) errors.set(name, text)`. The names of one form differ.
abbrev pub error_if : Bool → String → String → List (String × String)
error_if true name text = (name, text) ∷ []
error_if false name text = []

-- `message || text`
abbrev pub or_text : Option String → String → String
or_text none text = text
or_text (some s) text = if s == "" then text else s

-- `for (let [field, error] of errors) validationErrors.set(field, error)`
unfoldable pub set_errors : List (String × String) → List (String × String) → List (String × String)
set_errors [] m = m
set_errors ((field, error) ∷ errors) m = set_errors errors (insert field error m)

abbrev pub errors_of : Option (List (String × String)) → List (String × String)
errors_of none = []
errors_of (some errors) = errors

-- What an input with text in it holds.
abbrev pub HasText : Option String → Type 0
HasText o = (o ≢ none) × (o ≢ some "")

pub is_falsy-false_iff : (o : Option String) → (is_falsy o ≡ false) ↔ HasText o
is_falsy-false_iff none = ((λ e. cc e), λ h. absurd (h.0 refl))
is_falsy-false_iff (some s) = ground (arith, eq_iff s "")

abbrev pub HasNumber : Option ℕ → Type 0
HasNumber o = (o ≢ none) × (o ≢ some 0)

pub is_falsy_number-false_iff : (o : Option ℕ) → (is_falsy_number o ≡ false) ↔ HasNumber o
is_falsy_number-false_iff none = ((λ e. cc e), λ h. absurd (h.0 refl))
is_falsy_number-false_iff (some n) = ground arith
