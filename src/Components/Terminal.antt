-- ===== src/Components/Terminal.antt =====
-- frontend/src/components/Terminal.vue: the shell of a device, between the terminal on the screen
-- and a web socket. What hterm and the socket do is an event of theirs.
pub mod Laws
pub mod Preferences
pub mod Traffic
use rdfm.Base.{
  ℕ, zero, suc, show, ◌<>◌, ◌==◌, string_eq, String, Bool, true, false, not, ◌&&◌, Option, none,
  some, List, [], ◌∷◌, ◌++◌, if◌then◌else◌,
}
use rdfm.Utils.Endpoints.{device_shell_endpoint}
use rdfm.Utils.Form.{is_falsy, text_value, or_text}
use rdfm.Utils.World.{Browser, World}
use rdfm.Utils.Notifications.{notify_error, notify_success}

-- What goes out on the socket: a command, or the encoded keys.
pub data Frame : Type 0 where
  command keys : String → Frame

-- `socket` is the address it was opened with, `is_closed` says that the program closed it, and
-- `has_listener` that `closeEventListener` is registered. `printed` is what the terminal was given,
-- `sent` what went out, and `emitted` how often `shell-disconnected` was emitted. `reading` are the
-- messages whose blobs are being read, in the order of their arrival.
pub record Terminal (b : Browser) : Type 0 where
  pub world : World b
  pub socket : Option String
  pub is_closed : Bool
  pub has_listener : Bool
  pub first_message : Bool
  pub is_unmounted : Bool
  pub reading : List String
  pub printed : List String
  pub sent : List Frame
  pub emitted : ℕ

-- A terminal that answers the end of a connection with an event.
abbrev pub listens : {b : Browser} → Terminal b → Bool
listens s = s.has_listener && not s.is_unmounted

-- `socket.readyState`; `closing` is also the state after it.
pub data ReadyState : Type 0 where
  connecting connected closing : ReadyState

abbrev pub is_open : ReadyState → Bool
is_open connected = true
is_open _ = false

-- `message` is the arrival of a blob with this text, and `read` the end of `blob.text()` for the one
-- at this place among those that are being read. `keystroke` and `resized` carry the state of the
-- socket, `resized` also the screen's height and width; `closed` carries the reason.
pub data Event : Type 0 where
  ready failed unmounted : Event
  opened : ℕ → ℕ → Event
  message closed : String → Event
  read : ℕ → Event
  keystroke : ReadyState → String → Event
  resized : ℕ → ℕ → ReadyState → Event

-- `localStorage.getItem('access_token') as string`, in a template.
abbrev token_text : Option String → String
token_text none = "null"
token_text (some token) = token

abbrev pub resize_command : ℕ → ℕ → Frame
resize_command height width = command ("resize " <> show height <> " " <> show width)

abbrev put_before : String → Option (String × List String) → Option (String × List String)
put_before x none = none
put_before x (some (y, l)) = some (y, x ∷ l)

-- The element at a place, and the list without it.
pub take_at : ℕ → List String → Option (String × List String)
take_at n [] = none
take_at zero (x ∷ l) = some (x, l)
take_at (suc n) (x ∷ l) = put_before x (take_at n l)

abbrev pub is_there : Option String → Bool
is_there none = false
is_there (some url) = true

-- `device` is the prop.
module _ (b : Browser) (device : Option String) where
  abbrev pub print : String → Terminal b → Terminal b
  print text s = record s { printed = s.printed ++ text ∷ [] }

  abbrev pub send : Frame → Terminal b → Terminal b
  send frame s = record s { sent = s.sent ++ frame ∷ [] }

  abbrev say : (World b → World b) → Terminal b → Terminal b
  say f s = record s { world = f s.world }

  abbrev pub device_text : String
  device_text = text_value device

  -- `term.onTerminalReady`
  on_terminal_ready : Terminal b → Terminal b
  on_terminal_ready s =
      if is_falsy device
      then say (notify_error b "Unable to connect to device shell" (some "Device is undefined"))
          (print "Unable to connect. Device is undefined.\n\r" s)
      else record s {
        socket = some (device_shell_endpoint device_text (token_text s.world.access_token));
        is_closed = false;
        has_listener = true;
        first_message = true;
      }

  on_open : ℕ → ℕ → Terminal b → Terminal b
  on_open height width s =
      send (resize_command height width)
        (print ("Connecting to device " <> device_text <> "...\n\r") s)

  abbrev pub announce : World b → World b
  announce = notify_success b ("Device " <> device_text <> " shell available") none

  -- The listener of `message` up to its await.
  on_message : String → Terminal b → Terminal b
  on_message text s = record s { reading = s.reading ++ text ∷ [] }

  show_text : String → Terminal b → Terminal b
  show_text text s =
      let t = print text s in
      if t.first_message then record (say announce t) { first_message = false } else t

  pub show_taken : Option (String × List String) → Terminal b → Terminal b
  unfolding show_text
  show_taken none s = s
  show_taken (some (text, rest)) s = show_text text (record s { reading = rest })

  -- What follows the await.
  on_read : ℕ → Terminal b → Terminal b
  unfolding take_at show_taken
  on_read n s = show_taken (take_at n s.reading) s

  on_error : Terminal b → Terminal b
  on_error s =
      say (notify_error b "Device shell connection failed" none) (print "An error occurred\n\r" s)

  -- `closeEventListener`, while it is registered. An unmounted component emits nothing.
  on_close : String → Terminal b → Terminal b
  on_close reason s =
      if s.has_listener
      then say
          (notify_error b "Device shell connection closed"
            (some (or_text (some reason) "Shell is not available")))
          (if s.is_unmounted then s else record s { emitted = suc s.emitted })
      else s

  -- `sendMessage`, which is registered together with the socket. `socket.send` throws while the
  -- socket connects, and discards the keys once it closes.
  on_keystroke : ReadyState → String → Terminal b → Terminal b
  on_keystroke state str s = if is_there s.socket && is_open state then send (keys str) s else s

  on_terminal_resize : ℕ → ℕ → ReadyState → Terminal b → Terminal b
  on_terminal_resize height width state s =
      if is_there s.socket && is_open state then send (resize_command height width) s else s

  on_unmounted : Terminal b → Terminal b
  on_unmounted s =
      if is_there s.socket
      then say (notify_success b ("Device " <> device_text <> " shell closed") none)
          (record s { has_listener = false; is_closed = true; is_unmounted = true })
      else record s { is_unmounted = true }

  pub step : Event → Terminal b → Terminal b
  unfolding on_terminal_ready on_open on_message on_read on_error on_close on_keystroke
      on_terminal_resize on_unmounted
  step ready s = on_terminal_ready s
  step failed s = on_error s
  step unmounted s = on_unmounted s
  step (opened height width) s = on_open height width s
  step (message text) s = on_message text s
  step (read n) s = on_read n s
  step (keystroke state str) s = on_keystroke state str s
  step (closed reason) s = on_close reason s
  step (resized height width state) s = on_terminal_resize height width state s

  pub run : List Event → Terminal b → Terminal b
  unfolding step
  run [] s = s
  run (e ∷ es) s = run es (step e s)

  -- Before `onTerminalReady`.
  abbrev pub created : World b → Terminal b
  created w = record {
    world = w;
    socket = none;
    is_closed = false;
    has_listener = false;
    first_message = true;
    is_unmounted = false;
    reading = [];
    printed = [];
    sent = [];
    emitted = 0;
  }
