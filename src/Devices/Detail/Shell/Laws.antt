-- ===== src/Devices/Detail/Shell/Laws.antt =====
-- The end of a shell closes the terminal on the page, and never opens it.
use rdfm.Base.{
  ℕ, suc, ◌==◌, nat_eq, Bool, true, false, not, ◌&&◌, some, ◌≡◌, refl, sym, ap, subst, ◌∙◌, arith,
  if◌then◌else◌, Bool-cases, inl, inr,
}
use rdfm.Utils.World.{Browser}
use rdfm.Components.Terminal.{listens, Event, ready, unmounted}
use rdfm.Components.Terminal.Laws.{
  is_socket_event, is_closing, step-socket, step-ready, step-unmounted,
}
use rdfm.Devices.Detail.{Page, toggle_terminal, disconnect}
use rdfm.Devices.Detail.Shell.{Shell, step_terminal, render, toggle, answer, happen, shell_of}

module _ (b : Browser) where
  -- The shells that a user can bring about: clicks on the button, and events of the terminal that
  -- was mounted last, which may get ready, and hear of its socket, after it was unmounted.
  pub data Reached : Shell b → Type 0 where
    start : (p : Page b) → p.is_terminal_opened ≡ false → Reached (shell_of b p)
    toggled : {s : Shell b} → Reached s → Reached (toggle b s)
    got_ready : {s : Shell b} → Reached s → Reached (happen b ready s)
    happened :
        {s : Shell b} (e : Event) → Reached s → is_socket_event e ≡ true → Reached (happen b e s)

  -- A terminal that is not unmounted is on the page.
  IsMounted : Shell b → Type 0
  IsMounted s = s.terminal.is_unmounted ≡ false → s.page.is_terminal_opened ≡ true

  unmounted-unmounted : (s : Shell b) → (step_terminal b unmounted s).terminal.is_unmounted ≡ true
  unfolding step_terminal
  unmounted-unmounted s =
      (step-unmounted b (some s.page.device.mac_address)
        (record s.terminal { world = s.page.world })).0

  render-IsMounted :
      (before : Bool) (s : Shell b)
      → (s.terminal.is_unmounted ≡ false → before ≡ true)
      → IsMounted (render b before s)
  unfolding render IsMounted
  render-IsMounted true s was = elim (Bool-cases s.page.is_terminal_opened) [
    | inl opened ↦ rw opened (λ _. refl)
    | inr shut ↦ rw shut (λ e. absurd (ground (arith, unmounted-unmounted s, e)))
  ]
  render-IsMounted false s was = elim (Bool-cases s.page.is_terminal_opened) [
    | inl opened ↦ rw opened (λ _. refl)
    | inr shut ↦ rw shut (λ e. absurd (ground (arith, was e)))
  ]

  mounted-shown :
      (s : Shell b)
      → IsMounted s
      → s.terminal.is_unmounted ≡ false
      → s.page.is_terminal_opened ≡ true
  unfolding IsMounted
  mounted-shown s h = h

  toggle-IsMounted : (s : Shell b) → IsMounted s → IsMounted (toggle b s)
  unfolding toggle toggle_terminal IsMounted
  toggle-IsMounted s h =
      render-IsMounted s.page.is_terminal_opened (record s { page = toggle_terminal b s.page }) h

  answer-same : (n : ℕ) (s : Shell b) → s.terminal.emitted ≡ n → answer b n s ≡ s
  unfolding answer
  answer-same n s same =
      let test : (s.terminal.emitted == n) ≡ true = ground arith in
      ap
        (λ o.
          if o
          then s
          else render b s.page.is_terminal_opened (record s { page = disconnect b s.page }))
        test

  answer-more :
      (n : ℕ) (s : Shell b)
      → s.terminal.emitted ≡ suc n
      → answer b n s ≡ render b s.page.is_terminal_opened (record s { page = disconnect b s.page })
  unfolding answer
  answer-more n s more =
      let test : (s.terminal.emitted == n) ≡ false = ground arith in
      ap
        (λ o.
          if o
          then s
          else render b s.page.is_terminal_opened (record s { page = disconnect b s.page }))
        test

  happen_ready-IsMounted : (s : Shell b) → IsMounted s → IsMounted (happen b ready s)
  unfolding happen step_terminal IsMounted
  happen_ready-IsMounted s h =
      let t = step_terminal b ready s in
      let (same, emitted) =
        step-ready b (some s.page.device.mac_address)
          (record s.terminal { world = s.page.world }) in
      subst IsMounted (sym (answer-same s.terminal.emitted t emitted)) (λ e. h (sym same ∙ e))

  happen-IsMounted :
      (e : Event) (s : Shell b) → is_socket_event e ≡ true → IsMounted s → IsMounted (happen b e s)
  unfolding happen step_terminal disconnect toggle_terminal IsMounted
  happen-IsMounted e s socket h =
      let t = step_terminal b e s in
      let (listener, same, emitted) =
        step-socket b (some s.page.device.mac_address) e
          (record s.terminal { world = s.page.world }) socket in
      elim (Bool-cases (is_closing e && listens s.terminal)) [
        | inl ends ↦
            subst IsMounted (sym (answer-more s.terminal.emitted t (ground (arith, emitted, ends))))
              (render-IsMounted s.page.is_terminal_opened (record t { page = disconnect b t.page })
                (λ x. h (sym same ∙ x)))
        | inr goes_on ↦
            subst IsMounted
              (sym (answer-same s.terminal.emitted t (ground (arith, emitted, goes_on))))
              (λ x. h (sym same ∙ x))
      ]

  Reached-IsMounted : {s : Shell b} → Reached s → IsMounted s
  unfolding IsMounted
  Reached-IsMounted (start p shut) = λ e. absurd (ground (arith, e))
  Reached-IsMounted (toggled {s} r) = toggle-IsMounted s (Reached-IsMounted r)
  Reached-IsMounted (got_ready {s} r) = happen_ready-IsMounted s (Reached-IsMounted r)
  Reached-IsMounted (happened {s} e r socket) = happen-IsMounted e s socket (Reached-IsMounted r)

  render-shown :
      (before : Bool) (s : Shell b)
      → let t = render b before s in
        (t.page.is_terminal_opened ≡ s.page.is_terminal_opened)
        × (t.page.device.connected ≡ s.page.device.connected)
  unfolding render step_terminal
  render-shown before s = ground arith

  pub toggle-shown :
      (s : Shell b) → (toggle b s).page.is_terminal_opened ≡ not s.page.is_terminal_opened
  unfolding toggle toggle_terminal
  toggle-shown s =
      (render-shown s.page.is_terminal_opened (record s { page = toggle_terminal b s.page })).0

  -- Of a shell that a user can bring about, even if its terminal got ready only after it was
  -- unmounted: an event of the socket shows the terminal afterwards exactly if it was shown before
  -- and the event is not the end of a connection to which a mounted terminal listens. That end hides
  -- the terminal and takes the device to be disconnected; the end of a connection after its terminal
  -- was closed by the button does not show it again.
  pub happen-shown :
      {s : Shell b} (e : Event)
      → Reached s
      → is_socket_event e ≡ true
      → let t = happen b e s in
        let ends = is_closing e && listens s.terminal in
        (t.page.is_terminal_opened ≡ (s.page.is_terminal_opened && not ends))
        × (t.page.device.connected ≡ (s.page.device.connected && not ends))
  unfolding happen step_terminal disconnect toggle_terminal
  happen-shown {s} e r socket =
      let t = step_terminal b e s in
      let (listener, same, emitted) =
        step-socket b (some s.page.device.mac_address) e
          (record s.terminal { world = s.page.world }) socket in
      elim (Bool-cases (is_closing e && listens s.terminal)) [
        | inl ends ↦
            let more = answer-more s.terminal.emitted t (ground (arith, emitted, ends)) in
            let q = record t { page = disconnect b t.page } in
            let shown = render-shown s.page.is_terminal_opened q in
            let opened = mounted-shown s (Reached-IsMounted r) (ground (arith, ends)) in
            (
              ap (λ x. x.page.is_terminal_opened) more ∙ ground (arith, shown.0, opened, ends),
              ap (λ x. x.page.device.connected) more ∙ ground (arith, shown.1, ends),
            )
        | inr goes_on ↦
            let stays = answer-same s.terminal.emitted t (ground (arith, emitted, goes_on)) in
            (
              ap (λ x. x.page.is_terminal_opened) stays ∙ ground (arith, goes_on),
              ap (λ x. x.page.device.connected) stays ∙ ground (arith, goes_on),
            )
      ]
