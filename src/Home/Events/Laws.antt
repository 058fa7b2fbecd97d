-- ===== src/Home/Events/Laws.antt =====
-- What the maps of updates, versions and connections hold over any run of events.
use rdfm.Base.{ℕ, ◌==◌, nat_eq, string_eq, eq_iff, String, Bool, true, false, not, ◌&&◌, Option}
use rdfm.Base.{none, some, List, [], ◌∷◌, ◌≡◌, ◌≢◌, refl, arith, if◌then◌else◌, lookup}
use rdfm.Base.{lookup-insert, lookup-erase, filter, ◌∙◌, sym, Bool-cases, inl, inr}
use rdfm.Utils.World.{Browser}
use rdfm.Home.Events.{
  Message, Event, update, connect, disconnect, Live, set_progress, is_full, is_idle, announce_start,
  announce_end, store_message, on_update, on_event, on_events,
}

-- A device that is being updated is neither at 0 nor at 100 percent.
abbrev IsUnderway : Option ℕ → Type 0
IsUnderway o = (o ≢ some 0) × (o ≢ some 100)

abbrev pub IsProper : {b : Browser} → Live b → Type 0
IsProper s = (device : String) → IsUnderway (lookup device s.updates)

-- The events about one device.
abbrev pub about : String → Event → Bool
about j (update m) = m.device == j
about j (connect device) = device == j
about j (disconnect device) = device == j

-- What an event says of a device's connection.
abbrev pub signalled : String → Event → Option Bool → Option Bool
signalled j (update m) before = before
signalled j (connect device) before = if device == j then some true else before
signalled j (disconnect device) before = if device == j then some false else before

abbrev pub last_signal : String → List Event → Option Bool → Option Bool
last_signal j [] before = before
last_signal j (e ∷ es) before = last_signal j es (signalled j e before)

module _ (b : Browser) where
  -- What is stored of a device after a message, on one look.
  lookup-announce_end :
      (device j : String) (s : Live b)
      → lookup j (announce_end b device s).updates
        ≡ (if device == j && is_full (lookup device s.updates) then none else lookup j s.updates)
  unfolding announce_end
  lookup-announce_end device j s = ground (arith, lookup-erase device j s.updates)

  lookup-set_progress :
      (device j : String) (o : Option ℕ) (m : List (String × ℕ))
      → lookup j (set_progress device o m) ≡ elim o [
        | none ↦ lookup j m
        | some n ↦ if device == j && not (n == 0) then some n else lookup j m
      ]
  unfolding set_progress
  lookup-set_progress device j none m = refl
  lookup-set_progress device j (some n) m = ground (arith, lookup-insert device j n m)

  lookup-on_update :
      (m : Message) (s : Live b) (j : String)
      → lookup j (on_update b m s).updates ≡ (
          let u = set_progress m.device m.progress s.updates in
          if m.device == j && is_full (lookup m.device u) then none else lookup j u)
  unfolding on_update store_message announce_start
  lookup-on_update m s j = elim (Bool-cases (is_idle b m.device s)) [
    | inl idle ↦ rw (idle, lookup-announce_end) refl
    | inr busy ↦ rw (busy, lookup-announce_end) refl
  ]

  pub on_event-IsProper : (e : Event) (s : Live b) → IsProper s → IsProper (on_event b e s)
  unfolding on_event is_full
  on_event-IsProper (update m) s h j = ground (
    arith,
    h j,
    eq_iff m.device j,
    lookup-on_update m s j,
    lookup-set_progress m.device j m.progress s.updates,
    lookup-set_progress m.device m.device m.progress s.updates,
  )
  on_event-IsProper (connect device) s h j = h j
  on_event-IsProper (disconnect device) s h j = h j

  -- Whatever events arrive, from a start where no device is stored at 0 or at 100 percent, none
  -- is stored so afterwards.
  pub on_events-IsProper : (es : List Event) (s : Live b) → IsProper s → IsProper (on_events b es s)
  unfolding on_events
  on_events-IsProper [] s h = h
  on_events-IsProper (e ∷ es) s h = on_events-IsProper es (on_event b e s) (on_event-IsProper e s h)

  updates-other :
      (j : String) (e : Event) (s : Live b)
      → about j e ≡ false
      → lookup j (on_event b e s).updates ≡ lookup j s.updates
  unfolding on_event
  updates-other j (update m) s h =
      ground (arith, lookup-on_update m s j, lookup-set_progress m.device j m.progress s.updates)
  updates-other j (connect device) s h = refl
  updates-other j (disconnect device) s h = refl

  updates-alike :
      (j : String) (e : Event) (s t : Live b)
      → lookup j s.updates ≡ lookup j t.updates
      → lookup j (on_event b e s).updates ≡ lookup j (on_event b e t).updates
  unfolding on_event is_full
  updates-alike j (update m) s t h = ground (
    arith,
    eq_iff m.device j,
    lookup-on_update m s j,
    lookup-on_update m t j,
    lookup-set_progress m.device j m.progress s.updates,
    lookup-set_progress m.device m.device m.progress s.updates,
    lookup-set_progress m.device j m.progress t.updates,
    lookup-set_progress m.device m.device m.progress t.updates,
  )
  updates-alike j (connect device) s t h = h
  updates-alike j (disconnect device) s t h = h

  updates-own_from :
      (j : String) (es : List Event) (s t : Live b)
      → lookup j s.updates ≡ lookup j t.updates
      → lookup j (on_events b es s).updates ≡ lookup j (on_events b (filter (about j) es) t).updates
  unfolding on_events
  updates-own_from j [] s t h = h
  updates-own_from j (e ∷ es) s t h = elim (Bool-cases (about j e)) [
    | inl own ↦
        rw own (updates-own_from j es (on_event b e s) (on_event b e t) (updates-alike j e s t h))
    | inr other ↦
        rw other (updates-own_from j es (on_event b e s) t (updates-other j e s other ∙ h))
  ]

  -- The progress stored of a device after a run of events is what it would be had only the events
  -- about that device arrived.
  pub updates-own :
      (j : String) (es : List Event) (s : Live b)
      → lookup j (on_events b es s).updates ≡ lookup j (on_events b (filter (about j) es) s).updates
  updates-own j es s = updates-own_from j es s s refl

  on_event-connections :
      (j : String) (e : Event) (s : Live b)
      → lookup j (on_event b e s).connections ≡ signalled j e (lookup j s.connections)
  unfolding on_event on_update announce_start announce_end store_message
  on_event-connections j (update m) s = ground arith
  on_event-connections j (connect device) s = lookup-insert device j true s.connections
  on_event-connections j (disconnect device) s = lookup-insert device j false s.connections

  -- A device is taken to be connected exactly as the last `connect` or `disconnect` event about it
  -- said, and as before when there was none.
  pub connections-last :
      (j : String) (es : List Event) (s : Live b)
      → lookup j (on_events b es s).connections ≡ last_signal j es (lookup j s.connections)
  unfolding on_events
  connections-last j [] s = refl
  connections-last j (e ∷ es) s =
      rw (sym (on_event-connections j e s)) (connections-last j es (on_event b e s))
