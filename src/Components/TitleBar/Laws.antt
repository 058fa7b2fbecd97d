-- ===== src/Components/TitleBar/Laws.antt =====
-- What the title bar shows of an update, on the maps that the event stream fills.
use rdfm.Base.{
  ℕ, String, Option, none, some, List, ◌≡◌, ◌≢◌, ap, ◌∙◌, arith, lookup, Bool-cases, inl, inr,
}
use rdfm.Utils.Form.{is_falsy, text_value}
use rdfm.Utils.World.{Browser}
use rdfm.Home.Events.{Event, Live, on_events}
use rdfm.Home.Events.Laws.{IsProper, on_events-IsProper}
use rdfm.Components.TitleBar.{Props, underway, underway_or, shown_update}

underway_or-inv :
    (o : Option ℕ) (v : Option String) (n : ℕ) (version : String)
    → underway_or o v ≡ underway n version
    → o ≡ some n
unfolding underway_or
underway_or-inv (some progress) (some v) n version e = cc e
underway_or-inv (some progress) none n version e = cc e
underway_or-inv none v n version e = cc e

shown_update-inv :
    (p : Props) (updates : List (String × ℕ)) (versions : List (String × String)) (n : ℕ)
    (version : String)
    → shown_update p updates versions ≡ underway n version
    → lookup (text_value p.device) updates ≡ some n
unfolding shown_update
shown_update-inv p updates versions n version e = elim (Bool-cases (is_falsy p.device)) [
  | inl absent ↦ ground (arith, e, absent)
  | inr there ↦
      underway_or-inv (lookup (text_value p.device) updates) (lookup (text_value p.device) versions)
        n version (ground (arith, e, there))
]

-- Whatever events arrive, from a start where no device is stored at 0 or at 100 percent, the title
-- bar never shows an update at 0 or at 100 percent.
pub shown_update-IsUnderway :
    (b : Browser) (es : List Event) (s : Live b)
    → IsProper s
    → (p : Props) (n : ℕ) (version : String)
    → let t = on_events b es s in
      shown_update p t.updates t.versions ≡ underway n version → (n ≢ 0) × (n ≢ 100)
shown_update-IsUnderway b es s h p n version e =
    let t = on_events b es s in
    let fine = on_events-IsProper b es s h (text_value p.device) in
    let found = shown_update-inv p t.updates t.versions n version e in
    ((λ z. fine.0 (found ∙ ap some z)), λ z. fine.1 (found ∙ ap some z))
