-- ===== src/Groups/View/Laws.antt =====
-- What the page of groups offers to a user, and what its buttons do.
use std.Logic.{↔_trans}
use rdfm.Base.{
  ℕ, String, ◌==◌, nat_eq, ◌≡◌, ◌↔◌, refl, some, none, List, [], ◌∷◌, map, ap, arith, Option, Bool,
  find, find-cases, inl, inr,
}
use rdfm.Utils.Model.{Verb, Permission, update, delete, group, Group, RegisteredDevice}
use rdfm.Utils.World.{Browser, World}
use rdfm.Utils.Access.Granted.{Direct, Granted, on_resource, through_group}
use rdfm.Utils.Access.Offered.{offered-Direct}
use rdfm.Groups.Requests.{find_device}
use rdfm.Groups.View.{group_row, device_item, device_item_of, allowed}

-- A group is held by no group, so that the groups do not matter for what is granted on one.
Direct-Granted :
    (roles : List String) (permissions : List Permission) (gs : List Group) (verb : Verb) (id : ℕ)
    → Direct roles permissions verb group id ↔ Granted roles permissions gs verb group id
Direct-Granted roles permissions gs verb id = (on_resource, from)
  where
    from : Granted roles permissions gs verb group id → Direct roles permissions verb group id
    from (on_resource d) = d
    from (through_group g m held d) = elim held [ ]

module _ (b : Browser) (w : World b) (g : Group) where
  -- Although the template gives no groups to `allowedTo`: whatever the groups are, the row of a
  -- group offers to configure it exactly when updating it is granted, and to remove it exactly when
  -- deleting it is.
  pub group_row-Granted :
      (gs : List Group)
      → let r = group_row b w g in
        ((r.configure ≡ some g) ↔ Granted w.admin_roles w.permissions gs update group g.id)
        × ((r.remove ≡ some g.id) ↔ Granted w.admin_roles w.permissions gs delete group g.id)
  unfolding group_row
  group_row-Granted gs = (
    ↔_trans (offered-Direct w.admin_roles w.permissions update group g.id g)
        (Direct-Granted w.admin_roles w.permissions gs update g.id),
    ↔_trans (offered-Direct w.admin_roles w.permissions delete group g.id g.id)
        (Direct-Granted w.admin_roles w.permissions gs delete g.id),
  )

  device_item_of-id :
      (test : Bool) (id : ℕ) (o : Option (List RegisteredDevice))
      → (device_item_of test id (elim o [ none ↦ none | some ds ↦ find (λ d. d.id == id) ds ])).id
        ≡ id
  unfolding device_item_of
  device_item_of-id test id none = refl
  device_item_of-id test id (some ds) = elim (find-cases (λ d. d.id == id) ds) [
    | inl (d, found, m, same) ↦ rw found (ground arith)
    | inr (absent, others) ↦ rw absent refl
  ]

  device_items-id : (ids : List ℕ) → map (λ d. d.id) (map (device_item b w g) ids) ≡ ids
  unfolding device_item find_device
  device_items-id [] = refl
  device_items-id (id ∷ ids) =
      rw (device_item_of-id (allowed b w update g) id w.stores.group_devices.resources)
        (ap (λ l. id ∷ l) (device_items-id ids))

  -- The row of a group lists its devices in their order, those that are not loaded too.
  pub group_row-devices : map (λ d. d.id) (group_row b w g).devices ≡ g.devices
  unfolding group_row
  group_row-devices = device_items-id g.devices
