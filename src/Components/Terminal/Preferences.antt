-- ===== src/Components/Terminal/Preferences.antt =====
-- The preferences that Terminal.vue stores for hterm, in the local storage.
use rdfm.Base.{
  String, ◌<>◌, ◌==◌, string_eq, eq_iff, Bool, true, false, some, List, [], ◌∷◌, map, lookup,
  insert, lookup-insert, ◌≡◌, ◌∙◌, ap, sym, refl, Bool-cases, inl, inr,
}
use rdfm.Session.{starts_with}
use rdfm.Session.Laws.{starts_with-append}

-- The values are texts and truth values.
pub data Setting : Type 0 where
  text : String → Setting
  truth : Bool → Setting

-- `JSON.stringify`, for texts that need no escapes.
abbrev pub stringify : Setting → String
stringify (text s) = "\"" <> s <> "\""
stringify (truth true) = "true"
stringify (truth false) = "false"

abbrev pub hterm_settings : List (String × Setting)
hterm_settings =
    ("background-color", text "#000000")
    ∷ ("cursor-color", text "white")
    ∷ ("mouse-right-click-paste", truth false)
    ∷ ("pass-meta-v", truth false)
    ∷ ("mouse-paste-button", text "no-button")
    ∷ ("pass-on-drop", truth false)
    ∷ ("shift-insert-paste", truth false)
    ∷ []

abbrev pub profile : String
profile = "/hterm/profiles/default/"

-- The `forEach` over the keys, for a local storage with these entries.
pub store_all : List (String × Setting) → List (String × String) → List (String × String)
store_all [] storage = storage
store_all (s ∷ settings) storage =
    store_all settings (insert (profile <> s.0) (stringify s.1) storage)

pub set_hterm_preferences : List (String × String) → List (String × String)
unfolding store_all
set_hterm_preferences storage = store_all hterm_settings storage

profile-other : (j key : String) → starts_with profile j ≡ false → (profile <> key == j) ≡ false
profile-other j key h = elim (Bool-cases (profile <> key == j)) [
  | inl same ↦
      let e : profile <> key ≡ j = (eq_iff (profile <> key) j).0 same in
      let t : starts_with profile j ≡ true =
        ap (starts_with profile) (sym e) ∙ starts_with-append profile key in
      cc
  | inr other ↦ other
]

store_all-other :
    (settings : List (String × Setting)) (storage : List (String × String)) (j : String)
    → starts_with profile j ≡ false
    → lookup j (store_all settings storage) ≡ lookup j storage
unfolding store_all
store_all-other [] storage j h = refl
store_all-other (s ∷ settings) storage j h =
    store_all-other settings (insert (profile <> s.0) (stringify s.1) storage) j h
    ∙ lookup-insert (profile <> s.0) j (stringify s.1) storage
    ∙ rw (profile-other j s.0 h) refl

-- Storing the preferences changes nothing under a key outside the profile: neither the token nor the
-- path of the page is lost.
pub set_hterm_preferences-other :
    (storage : List (String × String)) (j : String)
    → starts_with profile j ≡ false
    → lookup j (set_hterm_preferences storage) ≡ lookup j storage
unfolding set_hterm_preferences
set_hterm_preferences-other storage j h = store_all-other hterm_settings storage j h

-- Every preference is there afterwards, as JSON, whatever was stored before.
pub set_hterm_preferences-all :
    (storage : List (String × String))
    → map (λ s. lookup (profile <> s.0) (set_hterm_preferences storage)) hterm_settings
      ≡ map (λ s. some (stringify s.1)) hterm_settings
unfolding set_hterm_preferences store_all
set_hterm_preferences-all storage = simp lookup-insert
