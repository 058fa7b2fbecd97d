-- ===== src/Components/Terminal/Laws.antt =====
-- The end of a shell: what happens on the socket once the page is left, or the connection ends.
use rdfm.Base.{
  suc, some, String, Bool, true, false, ◌&&◌, Option, List, [], ◌∷◌, ◌≡◌, refl, ◌∙◌, arith, any,
  if◌then◌else◌,
}
use rdfm.Utils.World.{Browser, World}
use rdfm.Utils.Form.{is_falsy, or_text}
use rdfm.Utils.Notifications.{notify_error}
use rdfm.Components.Terminal.{
  Terminal, Event, ready, unmounted, closed, listens, show_text, show_taken, on_read, is_there,
  on_message, on_keystroke, on_terminal_resize, on_terminal_ready, on_open, on_error, on_close,
  on_unmounted, step, run, created,
}

abbrev pub is_ready : Event → Bool
is_ready ready = true
is_ready _ = false

-- What the socket and the user do to a terminal that is ready.
abbrev pub is_socket_event : Event → Bool
is_socket_event ready = false
is_socket_event unmounted = false
is_socket_event _ = true

abbrev pub is_closing : Event → Bool
is_closing (closed reason) = true
is_closing _ = false

module _ (b : Browser) (device : Option String) where
  -- After the end of the page, until a terminal gets ready.
  IsOver : Terminal b → Type 0
  IsOver s = (s.has_listener ≡ false) × (s.is_closed ≡ true)

  step-IsOver :
      (e : Event) (s : Terminal b)
      → IsOver s
      → is_ready e ≡ false
      → IsOver (step b device e s) × ((step b device e s).emitted ≡ s.emitted)
  unfolding IsOver step on_message on_keystroke on_terminal_resize on_close on_unmounted on_open
      on_error on_read show_taken show_text
  step-IsOver e s over h = ground arith

  run-IsOver :
      (es : List Event) (s : Terminal b)
      → IsOver s
      → any is_ready es ≡ false
      → IsOver (run b device es s) × ((run b device es s).emitted ≡ s.emitted)
  unfolding run
  run-IsOver [] s over h = (over, refl)
  run-IsOver (e ∷ es) s over h =
      let (still, same) = step-IsOver e s over (ground arith) in
      let (after, rest) = run-IsOver es (step b device e s) still (ground arith) in
      (after, rest ∙ same)

  -- Once the terminal is unmounted with a socket, the socket stays closed by the program, and
  -- whatever follows on it, its close event too, does not emit `shell-disconnected`, unless a
  -- terminal gets ready again.
  pub run-unmounted_shell :
      (es : List Event) (s : Terminal b)
      → is_there s.socket ≡ true
      → any is_ready es ≡ false
      → let t = run b device (unmounted ∷ es) s in (t.is_closed ≡ true) × (t.emitted ≡ s.emitted)
  unfolding run step on_unmounted IsOver
  run-unmounted_shell es s there h =
      let over : IsOver (step b device unmounted s) = ground arith in
      let (after, same) = run-IsOver es (step b device unmounted s) over h in
      (after.1, same ∙ ground arith)

  -- If the terminal gets ready only after it was unmounted, a socket is opened that the program
  -- never closes, and the end of its connection is notified, but not emitted.
  pub run-ready_late :
      (w : World b) (reason : String)
      → is_falsy device ≡ false
      → let t = run b device (unmounted ∷ ready ∷ closed reason ∷ []) (created b device w) in
        (is_there t.socket ≡ true)
        × (t.is_closed ≡ false)
        × (t.emitted ≡ 0)
        × (t.world
            ≡ notify_error b "Device shell connection closed"
                (some (or_text (some reason) "Shell is not available"))
                w)
  unfolding run step on_unmounted on_terminal_ready on_close
  run-ready_late w reason named = ground (arith, named)

  -- An event of a socket in use does not change whether the terminal listens, and only its end
  -- makes a terminal emit, if it listens.
  pub step-socket :
      (e : Event) (s : Terminal b)
      → is_socket_event e ≡ true
      → let t = step b device e s in
        (t.has_listener ≡ s.has_listener)
        × (t.is_unmounted ≡ s.is_unmounted)
        × (t.emitted ≡ (if is_closing e && listens s then suc s.emitted else s.emitted))
  unfolding step on_message on_keystroke on_terminal_resize on_close on_open on_error on_read
      show_taken show_text
  step-socket e s h = ground arith

  pub step-ready :
      (s : Terminal b)
      → let t = step b device ready s in (t.is_unmounted ≡ s.is_unmounted) × (t.emitted ≡ s.emitted)
  unfolding step on_terminal_ready
  step-ready s = ground arith

  pub step-unmounted :
      (s : Terminal b)
      → let t = step b device unmounted s in (t.is_unmounted ≡ true) × (t.emitted ≡ s.emitted)
  unfolding step on_unmounted
  step-unmounted s = ground arith
