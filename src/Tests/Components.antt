-- ===== src/Tests/Components.antt =====
-- The dropdown, the download button and the terminal.
use rdfm.Base.{true, false, some, List, [], ◌∷◌, refl, nat_eq}
use rdfm.Components.Dropdown.{DataEntry}
use rdfm.Components.Terminal.{
  Terminal, Event, message, keystroke, resized, read, connecting, connected, run,
}
use rdfm.Components.Terminal.Traffic.{run-traffic, Carries}
use rdfm.Tests.Setup.{browser, first_world}

abbrev rows : List DataEntry
rows =
    record { id = 4; selected = true; columns = [] }
    ∷ record { id = 7; selected = false; columns = [] }
    ∷ []

abbrev shell : Terminal browser
shell = record {
  world = first_world;
  socket = some "/api/v1/devices/m/shell?token=a.b.c";
  is_closed = false;
  has_listener = true;
  first_message = true;
  is_unmounted = false;
  reading = [];
  printed = [];
  sent = [];
  emitted = 0;
}

-- A key is lost while the socket connects, and the second message is still being read at the end.
abbrev dialogue : List Event
dialogue =
    keystroke connecting "q"
    ∷ message "$"
    ∷ keystroke connected "ls"
    ∷ read 0
    ∷ resized 25 80 connected
    ∷ message "a b"
    ∷ []

run-traffic_example :
    Carries browser (some "m") dialogue shell (run browser (some "m") dialogue shell)
run-traffic_example = run-traffic browser (some "m") dialogue shell refl refl
