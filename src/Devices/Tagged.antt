-- ===== src/Devices/Tagged.antt =====
-- frontend/src/components/devices/DevicesList.vue for a tag: the getter that it makes of
-- `filteredDevicesResources` (devices.ts), and the jump to the only device of the tag.
use rdfm.Base.{
  String, string_eq, Option, none, some, List, [], ◌∷◌, if◌then◌else◌, Exec, ◌≡◌, refl, Bool-cases,
  inl, inr,
}
use rdfm.Utils.Model.{Shape, RegisteredDevice}
use rdfm.Utils.Endpoints.{tags_endpoint}
use rdfm.Utils.World.{
  Browser, World, Resource, initial_poll, active_polling, unreachable_url, Getter,
}
use rdfm.Utils.Fetch.{Output, fetch_get}
use rdfm.Utils.Resources.{go_to, login_url, code_is, unauthorized}
use rdfm.Utils.Command.{refresh_all}
use rdfm.Devices.View.{jump_of}

-- The getter is one of its own for each page.
pub record Tagged (b : Browser) : Type 0 where
  pub world : World b
  pub devices : Resource (List RegisteredDevice)

module _ (b : Browser) (tag : String) where
  abbrev pub new_getter : World b → Tagged b
  new_getter w = record {
    world = w;
    devices = record { resources = none; polling_status = initial_poll };
  }

  -- the branches of `fetchResources`, once the reply is there
  settle_tagged : Output (List RegisteredDevice) → Tagged b → Tagged b
  settle_tagged out s =
      if out.success
      then record s { devices = record { resources = out.result; polling_status = active_polling } }
      else if code_is out.code unauthorized
      then record s { world = go_to b (login_url b) s.world }
      else record s { devices = record { resources = none; polling_status = unreachable_url } }

  pub fetch_tagged : Tagged b → Tagged b
  unfolding settle_tagged
  fetch_tagged s =
      let r = fetch_get b Shape.devices (tags_endpoint b.server_url tag) s.world in
      settle_tagged r.0 (record s { world = r.1 })

  -- `fetchResources` of the page.
  pub fetch_page : Tagged b → Tagged b
  unfolding fetch_tagged
  fetch_page s =
      let t = fetch_tagged s in
      record t {
        world = refresh_all b (Getter.pending_devices ∷ Getter.device_groups ∷ []) t.world;
      }

  -- `onMounted`, but for the interval: the path that is pushed, if any.
  pub on_mounted : Exec (Tagged b) (Option String)
  unfolding fetch_page
  on_mounted s = let t = fetch_page s in (jump_of (some tag) t.devices.resources, t)

  settle_tagged-jump :
      (out : Output (List RegisteredDevice)) (w : World b)
      → jump_of (some tag) (settle_tagged out (new_getter w)).devices.resources
        ≡ (if out.success then jump_of (some tag) out.result else none)
  unfolding settle_tagged jump_of
  settle_tagged-jump out w = elim (Bool-cases out.success) [
    | inl fine ↦ rw fine refl
    | inr bad ↦ rw bad (elim (Bool-cases (code_is out.code unauthorized)) [
      | inl login ↦ rw login refl
      | inr lost ↦ rw lost refl
    ])
  ]

  -- The page of a tag jumps to a device exactly if the reply to its request lists that device alone.
  pub on_mounted-reply :
      (w : World b)
      → let out = (fetch_get b Shape.devices (tags_endpoint b.server_url tag) w).0 in
        (on_mounted (new_getter w)).0
        ≡ (if out.success then jump_of (some tag) out.result else none)
  unfolding on_mounted fetch_page fetch_tagged
  on_mounted-reply w =
      let r = fetch_get b Shape.devices (tags_endpoint b.server_url tag) w in
      settle_tagged-jump r.0 r.1
