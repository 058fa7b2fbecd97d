-- ===== src/Devices/Detail/Groups/Laws.antt =====
-- The groups that the page of a device shows depend on which answer comes first.
use rdfm.Base.{
  ℕ, String, Option, none, some, List, [], ◌∷◌, ◌≡◌, refl, ap, ◌∙◌, Bool-cases, inl, inr,
  if◌then◌else◌,
}
use rdfm.Utils.Model.{RegisteredDevice, Group}
use rdfm.Utils.World.{Browser, World}
use rdfm.Groups.Policies.{found_all}
use rdfm.Devices.Route.{Found, find_by_route}
use rdfm.Devices.Detail.Groups.{
  Search, Arrival, groups_arrived, devices_arrived, group_among, groups_among, look_for, settle_on,
  arrive, arrive_all, started,
}

found_all-none : (ids : List ℕ) → found_all (group_among none) ids ≡ []
unfolding found_all
found_all-none [] = refl
found_all-none (i ∷ ids) = found_all-none ids

abbrev groups_of : Option RegisteredDevice → Option (List ℕ)
groups_of none = none
groups_of (some d) = d.groups

-- The device that a search found, if it did not throw.
abbrev pub device_found : Option Found → Option RegisteredDevice
device_found none = none
device_found (some (o, pattern)) = o

module _ (b : Browser) (decode : String → Option String) (number : String → ℕ)
    (route_id : String) where
  -- Once the device is found, the watcher does nothing.
  arrive-found :
      (ds : List RegisteredDevice) (s : Search b) (d : RegisteredDevice)
      → s.device ≡ some d
      → arrive b decode number route_id (devices_arrived ds) s ≡ s
  unfolding arrive look_for
  arrive-found ds s d found =
      let waits = ap (λ o. look_for b decode number route_id ds o s) found in
      elim (Bool-cases s.is_stopped) [
        | inl over ↦ rw over refl
        | inr runs ↦
            ap (λ x. if x then s else look_for b decode number route_id ds s.device s) runs ∙ waits
      ]

  -- Hence no answer changes its groups.
  arrive_all-groups :
      (es : List Arrival) (s : Search b) (d : RegisteredDevice)
      → s.device ≡ some d
      → (arrive_all b decode number route_id es s).groups ≡ s.groups
  unfolding arrive_all
  arrive_all-groups [] s d found = refl
  arrive_all-groups (groups_arrived gs ∷ es) s d found =
      arrive_all-groups es (arrive b decode number route_id (groups_arrived gs) s) d found
  arrive_all-groups (devices_arrived ds ∷ es) s d found =
      ap (λ t. (arrive_all b decode number route_id es t).groups) (arrive-found ds s d found)
      ∙ arrive_all-groups es s d found

  settled :
      (r : Option Found) (s : Search b) (d : RegisteredDevice)
      → device_found r ≡ some d
      → let t = settle_on b decode number route_id r s in
        (t.device ≡ some d) × (t.groups ≡ groups_among s.known_groups d.groups)
  settled none s d same = cc same
  settled (some (some e, pattern)) s d same =
      (same, ap (λ o. groups_among s.known_groups (groups_of o)) same)
  settled (some (none, pattern)) s d same = cc same

  module _ (w : World b) (ds : List RegisteredDevice) (d : RegisteredDevice) (ids : List ℕ) where
    shown_first :
        (known : Option (List Group)) (es : List Arrival)
        → device_found (find_by_route decode number route_id ds) ≡ some d
        → d.groups ≡ some ids
        → (arrive_all b decode number route_id
            (devices_arrived ds ∷ es)
            (record (started b decode number route_id w) { known_groups = known })).groups
          ≡ some (found_all (group_among known) ids)
    unfolding arrive_all arrive look_for
    shown_first known es found listed =
        let s = record (started b decode number route_id w) { known_groups = known } in
        let r = find_by_route decode number route_id ds in
        let (there, shown) = settled r s d found in
        arrive_all-groups es (settle_on b decode number route_id r s) d there
        ∙ shown
        ∙ ap (groups_among known) listed

    -- No groups are known at first, and the device of the page has the groups `ids`. If the groups
    -- arrive before the devices, the page shows those of them that are known; but if the devices
    -- arrive first, the page shows none of them, whatever arrives later.
    pub arrive_all-order :
        (gs : List Group) (es : List Arrival)
        → device_found (find_by_route decode number route_id ds) ≡ some d
        → d.groups ≡ some ids
        → ((arrive_all b decode number route_id
              (groups_arrived gs ∷ devices_arrived ds ∷ es)
              (started b decode number route_id w)).groups
            ≡ some (found_all (group_among (some gs)) ids))
          × ((arrive_all b decode number route_id
                (devices_arrived ds ∷ es)
                (started b decode number route_id w)).groups
              ≡ some [])
    unfolding arrive_all arrive
    arrive_all-order gs es found listed = (
      shown_first (some gs) es found listed,
      shown_first none es found listed ∙ ap some (found_all-none ids),
    )
