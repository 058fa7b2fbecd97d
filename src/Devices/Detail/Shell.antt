-- ===== src/Devices/Detail/Shell.antt =====
-- The terminal on the page of a device: Device.vue shows Terminal.vue while `isTerminalOpened`, and
-- `disconnect` answers its event `shell-disconnected`.
pub mod Laws
use rdfm.Base.{ℕ, ◌==◌, nat_eq, Bool, true, false, not, ◌&&◌, some, if◌then◌else◌}
use rdfm.Utils.World.{Browser}
use rdfm.Components.Terminal.{Terminal, Event, ready, unmounted, created, step}
use rdfm.Devices.Detail.{Page, toggle_terminal, disconnect}

-- The page, and the terminal that was mounted last.
pub record Shell (b : Browser) : Type 0 where
  pub page : Page b
  pub terminal : Terminal b

module _ (b : Browser) where
  -- An event of the terminal, which shares the world with the page.
  step_terminal : Event → Shell b → Shell b
  step_terminal e s =
      let t =
        step b (some s.page.device.mac_address) e (record s.terminal { world = s.page.world }) in
      record { page = record s.page { world = t.world }; terminal = t }

  -- `v-if="isTerminalOpened"`, which was `before` until now: the terminal is unmounted, or a new one
  -- is mounted.
  render : Bool → Shell b → Shell b
  unfolding step_terminal
  render before s =
      if before && not s.page.is_terminal_opened
      then step_terminal unmounted s
      else if not before && s.page.is_terminal_opened
      then record s { terminal = created b (some s.page.device.mac_address) s.page.world }
      else s

  -- A click on the button of the shell.
  pub toggle : Shell b → Shell b
  unfolding render
  toggle s = render s.page.is_terminal_opened (record s { page = toggle_terminal b s.page })

  -- `@shell-disconnected="disconnect"`, if the event made the terminal emit it.
  answer : ℕ → Shell b → Shell b
  unfolding render
  answer emitted s =
      if s.terminal.emitted == emitted
      then s
      else render s.page.is_terminal_opened (record s { page = disconnect b s.page })

  pub happen : Event → Shell b → Shell b
  unfolding step_terminal answer
  happen e s = answer s.terminal.emitted (step_terminal e s)

  -- The page before any terminal was opened, hence none is mounted.
  abbrev pub shell_of : Page b → Shell b
  shell_of p =
      let none_yet = created b (some p.device.mac_address) p.world in
      record { page = p; terminal = record none_yet { is_unmounted = true } }
