-- ===== src/Utils/Polling.antt =====
-- The timers that repeat the requests of a page: the hooks `onMounted` and `onUnmounted` of
-- GroupsList.vue, PackagesList.vue and DevicesList.vue, and those of Device.vue.
pub mod Laws
use rdfm.Base.{
  ℕ, ◌==◌, nat_eq, Bool, true, false, ◌&&◌, Option, none, some, List, [], ◌∷◌, if◌then◌else◌, ◌≡◌,
}
use rdfm.Utils.World.{Browser, World, Getter}
use rdfm.Utils.Command.{refresh_all}

-- `setInterval` and `clearInterval` of the browser, and whether the timer of a number is running.
pub record Timers : Type 1 where
  pub State : Type 0
  pub set_interval : State → ℕ × State
  pub clear_interval : ℕ → State → State
  pub is_running : ℕ → State → Bool

-- What is documented of them: a new timer has a number that no running timer has, and clearing
-- stops that timer alone.
pub record IsReliable (t : Timers) : Type 0 where
  pub new_number : (c : t.State) → t.is_running (t.set_interval c).0 c ≡ false
  pub is_running-set_interval :
      (c : t.State) (j : ℕ)
      → t.is_running j (t.set_interval c).1
        ≡ (if (t.set_interval c).0 == j then true else t.is_running j c)
  pub is_running-clear_interval :
      (i : ℕ) (c : t.State) (j : ℕ)
      → t.is_running j (t.clear_interval i c) ≡ (if i == j then false else t.is_running j c)

-- The requests of a page, when it is mounted and at each tick.
pub record Polled : Type 0 where
  pub first : List Getter
  pub again : List Getter

-- `fetchResources` of GroupsList.vue.
abbrev pub groups_polled : Polled
groups_polled =
    let gs = Getter.group_packages ∷ Getter.group_devices ∷ Getter.groups ∷ [] in
    record { first = gs; again = gs }

-- PackagesList.vue asks for the groups only once.
abbrev pub packages_polled : Polled
packages_polled = record {
  first = Getter.packages ∷ Getter.package_groups ∷ [];
  again = Getter.packages ∷ [];
}

-- `fetchResources` of DevicesList.vue, without a tag.
abbrev pub devices_polled : Polled
devices_polled =
    let gs = Getter.registered_devices ∷ Getter.pending_devices ∷ Getter.device_groups ∷ [] in
    record { first = gs; again = gs }

-- Device.vue sends its first requests and starts its interval in `setup`: of its events, `loaded`
-- is the first.
abbrev pub device_polled : Polled
device_polled = record {
  first = Getter.device_groups ∷ Getter.registered_devices ∷ [];
  again = Getter.registered_devices ∷ [];
}

abbrev pub is_own : Option ℕ → ℕ → Bool
is_own none j = false
is_own (some i) j = i == j

module _ (b : Browser) (t : Timers) where
  pub record Page : Type 0 where
    pub world : World b
    pub clock : t.State
    pub interval_id : Option ℕ

  -- A page before its hooks: `let intervalID: undefined | number = undefined`.
  abbrev pub created : World b → t.State → Page
  created w c = record { world = w; clock = c; interval_id = none }

  pub start_polling : Page → Page
  start_polling p = elim p.interval_id [
    | none ↦ let r = t.set_interval p.clock in record p { clock = r.1; interval_id = some r.0 }
    | some id ↦ p
  ]

  -- The number of the timer is kept.
  pub stop_polling : Page → Page
  stop_polling p = elim p.interval_id [
    | none ↦ p
    | some id ↦ record p { clock = t.clear_interval id p.clock }
  ]

  -- `loaded` is the end of the first `fetchResources`, with what follows its `await`; `tick j` is
  -- the end of a period of the timer `j`.
  pub data Event : Type 0 where
    loaded unmounted : Event
    tick : ℕ → Event

  fetch_page : List Getter → Page → Page
  fetch_page gs p = record p { world = refresh_all b gs p.world }

  pub step : Polled → Event → Page → Page
  unfolding fetch_page start_polling stop_polling
  step polled loaded p = start_polling (fetch_page polled.first p)
  step polled unmounted p = stop_polling p
  step polled (tick j) p =
      if is_own p.interval_id j && t.is_running j p.clock then fetch_page polled.again p else p

  pub run : Polled → List Event → Page → Page
  unfolding step
  run polled [] p = p
  run polled (e ∷ es) p = run polled es (step polled e p)
