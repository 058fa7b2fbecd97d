-- ===== src/Components/SimpleDropdown/Laws.antt =====
-- Which clicks open the list and which close it.
use rdfm.Base.{Bool, true, false, List, [], ◌∷◌, ◌≡◌, refl, ap, ◌∙◌, arith, not}
use rdfm.Components.SimpleDropdown.{
  Choice, SimpleDropdown, click_header, click_option, on_click, on_header, on_option, on_blur,
}

pub data Event : Type 0 where
  header margin blur : Event
  option : Choice → Event

pub step : Event → SimpleDropdown → SimpleDropdown
unfolding click_header click_option on_blur on_click
step header s = click_header s
step margin s = on_click s
step blur s = on_blur s
step (option o) s = click_option o s

pub run : List Event → SimpleDropdown → SimpleDropdown
run [] s = s
run (e ∷ es) s = run es (step e s)

-- Open or not after the events: a header opens the list, whatever it was, an option or the loss of
-- the focus closes it, and the margin around the header changes it.
abbrev pub open_after : List Event → Bool → Bool
open_after [] was = was
open_after (header ∷ es) was = open_after es true
open_after (margin ∷ es) was = open_after es (not was)
open_after (blur ∷ es) was = open_after es false
open_after (option o ∷ es) was = open_after es false

option-closed : (o : Choice) (s : SimpleDropdown) → (click_option o s).expanded ≡ false
unfolding click_option on_click on_option
option-closed o s = ground arith

-- Whether the list is open follows the clicks in order: a click on the header leaves it open, even
-- if it was open before; one on an option closes it, as the loss of the focus does; one on the
-- margin around the header changes it.
pub run-open :
    (es : List Event) (s : SimpleDropdown) → (run es s).expanded ≡ open_after es s.expanded
unfolding run step click_header on_click on_header on_blur
run-open [] s = refl
run-open (header ∷ es) s = run-open es (step header s)
run-open (margin ∷ es) s = run-open es (step margin s)
run-open (blur ∷ es) s = run-open es (step blur s)
run-open (option o ∷ es) s = run-open es (click_option o s) ∙ ap (open_after es) (option-closed o s)
