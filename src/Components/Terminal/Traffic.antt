-- ===== src/Components/Terminal/Traffic.antt =====
-- What passes between the terminal and the socket: the messages, the keys and the sizes.
use mathlib.Core.List.{append-nil, append_assoc}
use rdfm.Base.{
  ℕ, zero, suc, Bool-cases, inl, inr, String, Bool, true, false, not, ◌&&◌, Option, List, [], ◌∷◌,
  ◌++◌, ◌≡◌, refl, ap, sym, ◌∙◌, arith, all, if◌then◌else◌,
}
use rdfm.Utils.World.{Browser}
use rdfm.Components.Terminal.{
  Terminal, Frame, keys, Event, ready, failed, unmounted, opened, message, keystroke, closed, read,
  ReadyState, connecting, connected, closing, take_at, show_text, show_taken, on_read, resized,
  resize_command, is_there, announce, on_message, on_keystroke, on_terminal_resize, step, run,
}

-- The events of a shell in use, whose blobs are read in the order of their arrival.
abbrev pub is_traffic : Event → Bool
is_traffic (message text) = true
is_traffic (read zero) = true
is_traffic (keystroke state str) = true
is_traffic (resized height width state) = true
is_traffic _ = false

-- What the events bring from the device, in order.
abbrev pub texts : List Event → List String
texts [] = []
texts (message text ∷ es) = text ∷ texts es
texts (_ ∷ es) = texts es

-- What they send to it, in order: the keys and the sizes of the screen while the socket is open.
abbrev pub frames : List Event → List Frame
frames [] = []
frames (keystroke connected str ∷ es) = keys str ∷ frames es
frames (resized height width connected ∷ es) = resize_command height width ∷ frames es
frames (_ ∷ es) = frames es

texts-cons : (e : Event) (es : List Event) → texts (e ∷ es) ≡ texts (e ∷ []) ++ texts es
texts-cons ready es = refl
texts-cons failed es = refl
texts-cons unmounted es = refl
texts-cons (opened height width) es = refl
texts-cons (message text) es = refl
texts-cons (read n) es = refl
texts-cons (keystroke state str) es = refl
texts-cons (closed reason) es = refl
texts-cons (resized height width state) es = refl

frames-cons : (e : Event) (es : List Event) → frames (e ∷ es) ≡ frames (e ∷ []) ++ frames es
frames-cons ready es = refl
frames-cons failed es = refl
frames-cons unmounted es = refl
frames-cons (opened height width) es = refl
frames-cons (message text) es = refl
frames-cons (read n) es = refl
frames-cons (keystroke connecting str) es = refl
frames-cons (keystroke connected str) es = refl
frames-cons (keystroke closing str) es = refl
frames-cons (closed reason) es = refl
frames-cons (resized height width connecting) es = refl
frames-cons (resized height width connected) es = refl
frames-cons (resized height width closing) es = refl

abbrev pub is_nil : List String → Bool
is_nil [] = true
is_nil (x ∷ l) = false

is_nil-append : (l k : List String) → is_nil (l ++ k) ≡ (is_nil l && is_nil k)
is_nil-append [] k = refl
is_nil-append (x ∷ l) k = refl

module _ (b : Browser) (device : Option String) where
  -- What events do to a terminal with a socket. `shown` are the texts that were printed: with those
  -- that are still being read, they are the ones that were being read and those that arrived.
  pub record Carries (es : List Event) (s t : Terminal b) : Type 0 where
    pub shown : List String
    pub keeps_socket : is_there t.socket ≡ true
    pub prints : t.printed ≡ s.printed ++ shown
    pub reads : shown ++ t.reading ≡ s.reading ++ texts es
    pub sends : t.sent ≡ s.sent ++ frames es
    pub was_first : t.first_message ≡ (s.first_message && is_nil shown)
    pub announces :
        t.world
        ≡ (if s.first_message && not (is_nil shown) then announce b device s.world else s.world)

  nothing_shown-Carries : (s : Terminal b) → is_there s.socket ≡ true → Carries [] s s
  nothing_shown-Carries s there = record {
    shown = [];
    keeps_socket = there;
    prints = sym (append-nil s.printed);
    reads = sym (append-nil s.reading);
    sends = sym (append-nil s.sent);
    was_first = ground arith;
    announces = ground arith;
  }

  message-Carries :
      (text : String) (s : Terminal b)
      → is_there s.socket ≡ true
      → Carries (message text ∷ []) s (step b device (message text) s)
  unfolding step on_message
  message-Carries text s there = record {
    shown = [];
    keeps_socket = there;
    prints = sym (append-nil s.printed);
    reads = refl;
    sends = sym (append-nil s.sent);
    was_first = ground arith;
    announces = ground arith;
  }

  taken-Carries :
      (l : List String) (s : Terminal b)
      → s.reading ≡ l
      → is_there s.socket ≡ true
      → Carries (read zero ∷ []) s (show_taken b device (take_at zero l) s)
  unfolding take_at show_taken show_text
  taken-Carries [] s e there = record {
    shown = [];
    keeps_socket = there;
    prints = sym (append-nil s.printed);
    reads = sym (append-nil s.reading);
    sends = sym (append-nil s.sent);
    was_first = ground arith;
    announces = ground arith;
  }
  taken-Carries (x ∷ l) s e there = record {
    shown = x ∷ [];
    keeps_socket = ground (arith, there);
    prints = ground arith;
    reads = elim (Bool-cases s.first_message) [
      | inl first ↦ rw first (sym e ∙ sym (append-nil s.reading))
      | inr later ↦ rw later (sym e ∙ sym (append-nil s.reading))
    ];
    sends = ground (arith, append-nil s.sent);
    was_first = ground arith;
    announces = ground arith;
  }

  keystroke-Carries :
      (state : ReadyState) (str : String) (s : Terminal b)
      → is_there s.socket ≡ true
      → Carries (keystroke state str ∷ []) s (step b device (keystroke state str) s)
  unfolding step on_keystroke
  keystroke-Carries state str s there = record {
    shown = [];
    keeps_socket = ground (arith, there);
    prints = ground (arith, append-nil s.printed);
    reads = ground (arith, append-nil s.reading);
    sends = ground (arith, there, append-nil s.sent);
    was_first = ground arith;
    announces = ground arith;
  }

  resized-Carries :
      (height width : ℕ) (state : ReadyState) (s : Terminal b)
      → is_there s.socket ≡ true
      → Carries (resized height width state ∷ []) s (step b device (resized height width state) s)
  unfolding step on_terminal_resize
  resized-Carries height width state s there = record {
    shown = [];
    keeps_socket = ground (arith, there);
    prints = ground (arith, append-nil s.printed);
    reads = ground (arith, append-nil s.reading);
    sends = ground (arith, there, append-nil s.sent);
    was_first = ground arith;
    announces = ground arith;
  }

  step-Carries :
      (e : Event) (s : Terminal b)
      → is_there s.socket ≡ true
      → is_traffic e ≡ true
      → Carries (e ∷ []) s (step b device e s)
  unfolding step on_read
  step-Carries (message text) s there h = message-Carries text s there
  step-Carries (read zero) s there h = taken-Carries s.reading s refl there
  step-Carries (read (suc n)) s there h = cc
  step-Carries (keystroke state str) s there h = keystroke-Carries state str s there
  step-Carries (resized height width state) s there h = resized-Carries height width state s there
  step-Carries ready s there h = cc
  step-Carries failed s there h = cc
  step-Carries unmounted s there h = cc
  step-Carries (opened height width) s there h = cc
  step-Carries (closed reason) s there h = cc

  then-Carries :
      {e : Event} {es : List Event} {s t u : Terminal b}
      → Carries (e ∷ []) s t
      → Carries es t u
      → Carries (e ∷ es) s u
  then-Carries {e} {es} {s} {t} {u} c d = record {
    shown = c.shown ++ d.shown;
    keeps_socket = d.keeps_socket;
    prints = d.prints ∙ ap (λ l. l ++ d.shown) c.prints ∙ append_assoc s.printed c.shown d.shown;
    reads =
        append_assoc c.shown d.shown u.reading
        ∙ ap (λ l. c.shown ++ l) d.reads
        ∙ sym (append_assoc c.shown t.reading (texts es))
        ∙ ap (λ l. l ++ texts es) c.reads
        ∙ append_assoc s.reading (texts (e ∷ [])) (texts es)
        ∙ ap (λ l. s.reading ++ l) (sym (texts-cons e es));
    sends =
        d.sends
        ∙ ap (λ l. l ++ frames es) c.sends
        ∙ append_assoc s.sent (frames (e ∷ [])) (frames es)
        ∙ ap (λ l. s.sent ++ l) (sym (frames-cons e es));
    was_first = ground (arith, c.was_first, d.was_first, is_nil-append c.shown d.shown);
    announces =
        ground (arith, c.was_first, c.announces, d.announces, is_nil-append c.shown d.shown);
  }

  -- However messages, ends of reading, keys and changes of the size are interleaved while there is a
  -- socket, and provided that the blobs are read in the order in which they arrived: the terminal
  -- prints the messages in order, and those not printed are the last ones, which are still being
  -- read; the socket gets the keys and the sizes in order, those while it is open; and the shell is
  -- announced once, at the first message that is printed.
  pub run-traffic :
      (es : List Event) (s : Terminal b)
      → is_there s.socket ≡ true
      → all is_traffic es ≡ true
      → Carries es s (run b device es s)
  unfolding run
  run-traffic [] s there only = nothing_shown-Carries s there
  run-traffic (e ∷ es) s there only =
      let c = step-Carries e s there (ground arith) in
      then-Carries c (run-traffic es (step b device e s) c.keeps_socket (ground arith))

  -- Two messages whose blobs are read in the other order are printed in the other order.
  pub run-overtaken :
      (first second : String) (s : Terminal b)
      → s.reading ≡ []
      → (run b device (message first ∷ message second ∷ read 1 ∷ read 0 ∷ []) s).printed
        ≡ (s.printed ++ second ∷ []) ++ first ∷ []
  unfolding run step on_message on_read take_at show_taken show_text
  run-overtaken first second s e = ground (arith, e)
