-- ===== src/Utils/Notifications.antt =====
-- The notification system of utils.ts: at most `n_max_notif` toasts, the rest in a queue.
pub mod Laws
pub mod Windows
use rdfm.Base.{ℕ, String, ◌<>◌, ◌==◌, string_eq, Bool, true, false, ltb, Option, none, some}
use rdfm.Base.{List, [], ◌∷◌, ◌++◌, if◌then◌else◌, Exec, modify}
use rdfm.Utils.World.{Browser, World, Toast, success, error}

abbrev pub n_max_notif : ℕ
n_max_notif = 6

build_html : String → Option String → String
build_html prefix none = "<p>" <> prefix <> "</p>"
build_html prefix (some msg) =
    if msg == ""
    then "<p>" <> prefix <> "</p>"
    else "<p>" <> prefix <> "</p>" <> "<p>" <> msg <> "</p>"

module _ (b : Browser) where
  abbrev pub count_notifications : World b → ℕ
  count_notifications w = b.count_toasts w.ext

  -- The call of the enqueued function: the plugin opens the toast.
  unfoldable pub call : Toast → World b → World b
  call t w = record w { ext = b.open_toast t w.ext }

  unfoldable pub enqueue : Toast → World b → World b
  unfolding call
  enqueue t w = elim w.enqueued [
    | [] ↦
        if ltb (count_notifications w) n_max_notif then call t w else record w { enqueued = t ∷ [] }
    | first ∷ rest ↦ record w { enqueued = first ∷ (rest ++ t ∷ []) }
  ]

  -- the callback of `setInterval`
  pub on_interval : World b → World b
  unfolding call
  on_interval w = elim w.enqueued [
    | [] ↦ w
    | first ∷ rest ↦
        if ltb (count_notifications w) n_max_notif
        then call first (record w { enqueued = rest })
        else w
  ]

  unfoldable pub notify_success : String → Option String → World b → World b
  unfolding enqueue build_html
  notify_success headline msg = enqueue (record { kind = success; html = build_html headline msg })

  pub notify_error : String → Option String → World b → World b
  unfolding enqueue build_html
  notify_error headline msg = enqueue (record { kind = error; html = build_html headline msg })
