-- ===== src/Tests/Utils.antt =====
-- utils.ts.
use rdfm.Base.{ℕ, ◌≤◌, true, some, List, [], ◌∷◌, ◌≡◌, ◌↔◌}
use rdfm.Base.{refl, arith, length}
use rdfm.Utils.Model.{Shape, device, update}
use rdfm.Utils.World.{Getter, Toast, success, json, obj, end}
use rdfm.Utils.Access.{allowed_to}
use rdfm.Utils.Access.Granted.{Granted, allowed_to_iff_Granted}
use rdfm.Utils.Fetch.{fetch_wrapper}
use rdfm.Base.{String, string_eq}
use rdfm.Utils.World.{get_header}
use rdfm.Utils.Fetch.{authorize}
use rdfm.Utils.Fetch.Laws.{or_empty, fetch_wrapper-Outcome, Outcome, after_request, reply_to}
use rdfm.Utils.Resources.{fetch_resources}
use rdfm.Utils.Resources.Laws.{
  fetch_resources-AllConsistent, fetch_resources-Refresh, AllConsistent, Refresh, after_get, got,
}
use rdfm.Utils.Notifications.{n_max_notif}
use rdfm.Utils.Notifications.Laws.{
  Event, offer, interval, fade, run, run-le-max, run-in_order, all_toasts, offered,
}
use rdfm.Tests.Setup.{
  browser, world_at, first_world, first_stores-AllConsistent, group_permission, fleet, fade_one,
  fade_one-le,
}

allowed_to_iff_Granted_example :
    (allowed_to [] (group_permission ∷ []) update device (some 3) (some (fleet ∷ [])) ≡ true)
    ↔ Granted [] (group_permission ∷ []) (fleet ∷ []) update device 3
allowed_to_iff_Granted_example =
    allowed_to_iff_Granted [] (group_permission ∷ []) (fleet ∷ []) update device 3

abbrev Fetched : ℕ → Type 0
Fetched status =
    let r =
      fetch_wrapper browser Shape.groups "/groups" "POST" [] (json (obj end)) (world_at status) in
    (r.1
      ≡ after_request browser Shape.groups "/groups" "POST" [] (json (obj end)) (world_at status))
    × Outcome r.0.0
        (reply_to browser Shape.groups "/groups" "POST" [] (json (obj end)) (world_at status))
    × (r.0.1 ≡ authorize (world_at status).access_token [])
    × ((name : String)
        → (name ≡ "Authorization" → or_empty (world_at status).access_token ≡ "")
        → get_header name r.0.1 ≡ get_header name [])

fetch_wrapper-Outcome_example : Fetched 404
fetch_wrapper-Outcome_example =
    fetch_wrapper-Outcome browser Shape.groups "/groups" "POST" [] (json (obj end)) (world_at 404)

fetch_resources-AllConsistent_example :
    AllConsistent (fetch_resources browser Getter.groups first_world).1.stores
fetch_resources-AllConsistent_example =
    fetch_resources-AllConsistent browser Getter.groups first_world first_stores-AllConsistent

fetch_resources-Refresh_example :
    ((fetch_resources browser Getter.groups (world_at 401)).1.sent
      ≡ (after_get browser Getter.groups (world_at 401)).sent)
    × Refresh browser Getter.groups
        (world_at 401).stores
        []
        (fetch_resources browser Getter.groups (world_at 401)).1
        (got browser Getter.groups (world_at 401))
fetch_resources-Refresh_example = fetch_resources-Refresh browser Getter.groups (world_at 401)

abbrev toast : Toast
toast = record { kind = success; html = "<p>done</p>" }

-- Seven offers, of which the last waits until a toast has faded.
abbrev busy : List Event
busy =
    offer toast
    ∷ offer toast
    ∷ offer toast
    ∷ offer toast
    ∷ offer toast
    ∷ offer toast
    ∷ offer toast
    ∷ interval
    ∷ fade
    ∷ interval
    ∷ []

run-le-max_example : length (run browser fade_one busy first_world).ext.toasts ≤ n_max_notif
run-le-max_example =
    run-le-max browser fade_one (λ t s. refl) fade_one-le busy first_world (omega arith)

run-in_order_example :
    all_toasts browser (λ s. s.opened) (run browser fade_one busy first_world) ≡ offered busy
run-in_order_example =
    run-in_order browser fade_one (λ s. s.opened) (λ t s. refl) (λ s. refl) busy first_world
