-- ===== src/Utils/Notifications/Laws.antt =====
-- The queue of notifications: how many toasts are on the screen, and in which order they come.
-- The toast plugin is known by how its count changes and by what it was asked to open.
use rdfm.Base.{suc, ◌≤◌, String, Option, List, [], ◌∷◌, ◌++◌}
use rdfm.Base.{◌≡◌, refl, sym, ap, ◌∙◌, arith, ltb, Bool-cases, inl, inr}
use mathlib.Core.List.{append-nil, append_assoc}
use rdfm.Utils.World.{Browser, World, Toast}
use rdfm.Utils.Notifications.{n_max_notif, enqueue, on_interval}
use rdfm.Utils.Notifications.{notify_error, notify_success}

-- A notification touches nothing but the toasts.
module _ (b : Browser) (headline : String) (msg : Option String) (w : World b) where
  pub notify_error-sent : (notify_error b headline msg w).sent ≡ w.sent
  unfolding notify_error
  notify_error-sent = ground arith

  pub notify_error-stores : (notify_error b headline msg w).stores ≡ w.stores
  unfolding notify_error
  notify_error-stores = ground arith

  pub notify_success-sent : (notify_success b headline msg w).sent ≡ w.sent
  unfolding notify_success
  notify_success-sent = ground arith

  pub notify_success-stores : (notify_success b headline msg w).stores ≡ w.stores
  unfolding notify_success
  notify_success-stores = ground arith

-- What can happen: the program offers a toast, the interval fires, a toast fades.
pub data Event : Type 0 where
  offer : Toast → Event
  interval : Event
  fade : Event

pub offered : List Event → List Toast
offered [] = []
offered (offer t ∷ es) = t ∷ offered es
offered (_ ∷ es) = offered es

offered-cons : (e : Event) (es : List Event) → offered (e ∷ []) ++ offered es ≡ offered (e ∷ es)
unfolding offered
offered-cons (offer t) es = refl
offered-cons _ es = refl

module _ (b : Browser) (faded : b.State → b.State) where
  pub step : Event → World b → World b
  step (offer t) w = enqueue b t w
  step interval w = on_interval b w
  step fade w = record w { ext = faded w.ext }

  unfoldable pub run : List Event → World b → World b
  unfolding step
  run [] w = w
  run (e ∷ es) w = run es (step e w)

module _ (b : Browser) (faded : b.State → b.State)
    (opens : (t : Toast) (s : b.State) → b.count_toasts (b.open_toast t s) ≡ suc (b.count_toasts s))
    (fades : (s : b.State) → b.count_toasts (faded s) ≤ b.count_toasts s) where
  step-le-max :
      (e : Event) (w : World b)
      → b.count_toasts w.ext ≤ n_max_notif
      → b.count_toasts (step b faded e w).ext ≤ n_max_notif
  unfolding step enqueue on_interval
  step-le-max (offer t) w h = ground (arith, opens t w.ext)
  step-le-max interval w h = grind (arith, opens)
  step-le-max fade w h = ground (arith, fades w.ext)

  -- If opening a toast adds one to the screen and fading adds none, then from at most
  -- `N_MAX_NOTIF` toasts on the screen there are never more, whatever is offered and however
  -- toasts fade.
  pub run-le-max :
      (es : List Event) (w : World b)
      → b.count_toasts w.ext ≤ n_max_notif
      → b.count_toasts (run b faded es w).ext ≤ n_max_notif
  unfolding run
  run-le-max [] w h = h
  run-le-max (e ∷ es) w h = run-le-max es (step b faded e w) (step-le-max e w h)

-- What was opened, and then what waits.
abbrev pub all_toasts : (b : Browser) (history : b.State → List Toast) → World b → List Toast
all_toasts b history w = history w.ext ++ w.enqueued

module _ (b : Browser) (faded : b.State → b.State) (history : b.State → List Toast)
    (records : (t : Toast) (s : b.State) → history (b.open_toast t s) ≡ history s ++ t ∷ [])
    (keeps : (s : b.State) → history (faded s) ≡ history s) where
  enqueue-in_order :
      (t : Toast) (w : World b) (q : List Toast)
      → w.enqueued ≡ q
      → all_toasts b history (enqueue b t w) ≡ (history w.ext ++ q) ++ t ∷ []
  unfolding enqueue
  enqueue-in_order t w [] e = elim (Bool-cases (ltb (b.count_toasts w.ext) n_max_notif)) [
    | inl free ↦ rw (e, enqueue, free) (simp (e, records, append-nil))
    | inr full ↦ rw (e, enqueue, full) (simp append-nil)
  ]
  enqueue-in_order t w (first ∷ rest) e =
      rw (e, enqueue) (sym (append_assoc (history w.ext) (first ∷ rest) (t ∷ [])))

  on_interval-in_order :
      (w : World b) (q : List Toast)
      → w.enqueued ≡ q
      → all_toasts b history (on_interval b w) ≡ history w.ext ++ q
  unfolding on_interval
  on_interval-in_order w [] e = rw (e, on_interval) (rw e)
  on_interval-in_order w (first ∷ rest) e =
      elim (Bool-cases (ltb (b.count_toasts w.ext) n_max_notif)) [
        | inl free ↦ rw (e, on_interval, free) (simp (records, append_assoc))
        | inr full ↦ rw (e, on_interval, full) (rw e)
      ]

  step-in_order :
      (e : Event) (w : World b)
      → all_toasts b history (step b faded e w) ≡ all_toasts b history w ++ offered (e ∷ [])
  unfolding step offered
  step-in_order (offer t) w = enqueue-in_order t w w.enqueued refl
  step-in_order interval w = on_interval-in_order w w.enqueued refl ∙ sym (append-nil _)
  step-in_order fade w = rw keeps (sym (append-nil _))

  -- If the plugin records every toast that it opens, and a toast that fades stays on record, then
  -- no toast is lost, repeated or overtaken: those opened and then those waiting are, in order,
  -- the ones before and then the ones offered.
  pub run-in_order :
      (es : List Event) (w : World b)
      → all_toasts b history (run b faded es w) ≡ all_toasts b history w ++ offered es
  unfolding run offered
  run-in_order [] w = sym (append-nil _)
  run-in_order (e ∷ es) w =
      run-in_order es (step b faded e w)
      ∙ ap (λ l. l ++ offered es) (step-in_order e w)
      ∙ append_assoc (all_toasts b history w) (offered (e ∷ [])) (offered es)
      ∙ ap (λ l. all_toasts b history w ++ l) (offered-cons e es)
