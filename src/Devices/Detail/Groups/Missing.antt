-- ===== src/Devices/Detail/Groups/Missing.antt =====
-- The two title bars of Device.vue: the one of the device, and the one that says that there is none.
use rdfm.Base.{
  ℕ, String, ◌<>◌, Bool, true, false, Option, none, some, List, [], ◌∷◌, ◌≡◌, refl, ap,
  if◌then◌else◌,
}
use rdfm.Utils.Model.{RegisteredDevice}
use rdfm.Utils.World.{Browser, World}
use rdfm.Devices.Route.{Pattern, Found, find_by_route}
use rdfm.Devices.Detail.Groups.{
  Search, Arrival, groups_arrived, devices_arrived, pattern_text, look_for, settle_on, arrive,
  arrive_all, started,
}

-- `${pattern}`, which may be undefined
abbrev pub pattern_or_undefined : Option Pattern → String
pattern_or_undefined none = "undefined"
pattern_or_undefined (some p) = pattern_text p

abbrev pub missing_title : Option Pattern → String → String
missing_title p id = "Device with " <> pattern_or_undefined p <> " '" <> id <> "' was not found"

abbrev pub title_by : Option RegisteredDevice → Option Pattern → String → String
title_by (some d) p id = "Device " <> d.mac_address
title_by none p id = missing_title p id

-- The title, if `devicesLoaded`.
pub title : {b : Browser} → Bool → String → Search b → Option String
title loaded id s = if loaded then some (title_by s.device s.pattern id) else none

title_by-none :
    (id : String) {o : Option RegisteredDevice} {p : Option Pattern}
    → o ≡ none
    → p ≡ none
    → title_by o p id ≡ missing_title none id
title_by-none id e f = rw (e, f) refl

module _ (b : Browser) (decode : String → Option String) (number : String → ℕ)
    (route_id : String) where
  -- The pattern is known only with the device.
  abbrev IsPaired : Search b → Type 0
  IsPaired s = s.device ≡ none → s.pattern ≡ none

  if-IsPaired :
      (t : Bool) (r s : Search b) → IsPaired r → IsPaired s → IsPaired (if t then r else s)
  if-IsPaired true r s h k = h
  if-IsPaired false r s h k = k

  settle_on-IsPaired :
      (f : Option Found) (s : Search b)
      → IsPaired s
      → IsPaired (settle_on b decode number route_id f s)
  settle_on-IsPaired none s h e = h e
  settle_on-IsPaired (some (some d, p)) s h e = cc e
  settle_on-IsPaired (some (none, p)) s h e = h e

  look_for-IsPaired :
      (ds : List RegisteredDevice) (o : Option RegisteredDevice) (s : Search b)
      → IsPaired s
      → IsPaired (look_for b decode number route_id ds o s)
  unfolding look_for
  look_for-IsPaired ds (some d) s h = h
  look_for-IsPaired ds none s h = settle_on-IsPaired (find_by_route decode number route_id ds) s h

  arrive-IsPaired :
      (e : Arrival) (s : Search b) → IsPaired s → IsPaired (arrive b decode number route_id e s)
  unfolding arrive
  arrive-IsPaired (groups_arrived gs) s h = h
  arrive-IsPaired (devices_arrived ds) s h =
      if-IsPaired s.is_stopped s _ h (look_for-IsPaired ds s.device s h)

  arrive_all-IsPaired :
      (es : List Arrival) (s : Search b)
      → IsPaired s
      → IsPaired (arrive_all b decode number route_id es s)
  unfolding arrive_all
  arrive_all-IsPaired [] s h = h
  arrive_all-IsPaired (e ∷ es) s h =
      arrive_all-IsPaired es (arrive b decode number route_id e s) (arrive-IsPaired e s h)

  -- Whatever arrives: while the device is not found, the title that says so names no pattern but
  -- prints `undefined`, since the pattern is stored only with a device.
  pub title-undefined :
      (es : List Arrival) (w : World b)
      → let s = arrive_all b decode number route_id es (started b decode number route_id w) in
        s.device ≡ none
        → title true route_id s
          ≡ some ("Device with " <> "undefined" <> " '" <> route_id <> "' was not found")
  unfolding title
  title-undefined es w e =
      let p = arrive_all-IsPaired es (started b decode number route_id w) (λ _. refl) e in
      ap some (title_by-none route_id e p)
