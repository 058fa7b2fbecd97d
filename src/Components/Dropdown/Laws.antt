-- ===== src/Components/Dropdown/Laws.antt =====
-- The tags stand for the rows that are selected, and a click on a tag or a row changes that row.
use rdfm.Base.{ℕ, zero, suc, ◌+◌, ◌<◌, ◌==◌, nat_eq, Bool, false, not, List, [], ◌∷◌, ◌≡◌}
use rdfm.Base.{refl, ap, ◌∙◌, arith, length, any, map, if◌then◌else◌, Bool-cases, inl, inr}
use rdfm.Components.Dropdown.{DataEntry, Tag, tags_from, tags}
use rdfm.Groups.Page.{toggle_at}
use rdfm.Groups.Configure.{selected_ids}

-- A tag for the row at an index.
abbrev pub has_tag : ℕ → List Tag → Bool
has_tag j ts = any (λ t. t.id == j) ts

-- No tag stands for a row before the first.
tags_from-above : (i j : ℕ) (rows : List DataEntry) → j < i → has_tag j (tags_from i rows) ≡ false
unfolding tags_from
tags_from-above i j [] h = refl
tags_from-above i j (e ∷ es) h = ground (arith, tags_from-above (suc i) j es (omega arith))

tags_from-toggle_at :
    (first i j : ℕ) (rows : List DataEntry)
    → i < length rows
    → has_tag j (tags_from first (toggle_at i rows)) ≡ (
        if first + i == j
        then not (has_tag j (tags_from first rows))
        else has_tag j (tags_from first rows))
unfolding tags_from toggle_at
tags_from-toggle_at first i j [] h = absurd (omega arith)
tags_from-toggle_at first zero j (e ∷ es) h =
    ground (arith, tags_from-above (suc first) first es (omega arith))
tags_from-toggle_at first (suc i) j (e ∷ es) h =
    ground (arith, tags_from-toggle_at (suc first) i j es (omega arith))

names_from :
    (i : ℕ) (rows : List DataEntry) → map (λ t. t.name) (tags_from i rows) ≡ selected_ids rows
unfolding tags_from selected_ids
names_from i [] = refl
names_from i (e ∷ es) = elim (Bool-cases e.selected) [
  | inl chosen ↦ rw chosen (ap (λ l. e.id ∷ l) (names_from (suc i) es))
  | inr plain ↦ rw plain (names_from (suc i) es)
]

-- A click on a row, or on its tag, puts its tag or takes it away, and leaves the other tags; and
-- the names of the tags are the ids that `configureGroup` sends.
pub tags-toggle_at :
    (i j : ℕ) (rows : List DataEntry)
    → i < length rows
    → (has_tag j (tags (toggle_at i rows))
        ≡ (if i == j then not (has_tag j (tags rows)) else has_tag j (tags rows)))
      × (map (λ t. t.name) (tags (toggle_at i rows)) ≡ selected_ids (toggle_at i rows))
unfolding tags
tags-toggle_at i j rows h =
    (tags_from-toggle_at 0 i j rows h ∙ ground arith, names_from 0 (toggle_at i rows))
