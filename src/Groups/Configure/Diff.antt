-- ===== src/Groups/Configure/Diff.antt =====
-- The lists of devices that `configureGroup` sends, and the comparison of lists of numbers.
use rdfm.Base.{
  ℕ, nat_eq, true, false, not, ◌&&◌, ◌||◌, List, [], ◌∷◌, ◌≡◌, ◌↔◌, refl, arith, eq_iff, string_eq,
}
use rdfm.Base.{includes, includes-filter}
use rdfm.Utils.Model.{Group}
use rdfm.Groups.Page.{InitialGroupConfiguration}
use rdfm.Groups.Configure.{removed_devices, added_devices, same_numbers, was_group_modified}

pub includes-removed :
    (before after : List ℕ) (d : ℕ)
    → includes (removed_devices before after) d ≡ (includes before d && not (includes after d))
unfolding removed_devices
includes-removed before after d = includes-filter (λ x. not (includes after x)) before d

pub includes-added :
    (before after : List ℕ) (d : ℕ)
    → includes (added_devices before after) d ≡ (includes after d && not (includes before d))
unfolding added_devices
includes-added before after d = includes-filter (λ x. not (includes before x)) after d

-- The devices that `configureGroup` asks to add and to remove: from the devices before, adding the
-- ones and then removing the others gives exactly the devices that are selected. None is to be added
-- that the group has, none to be removed that it lacks, and none is in both lists.
pub patch_exact :
    (before after : List ℕ) (d : ℕ)
    → (includes after d ≡ (
        (includes before d || includes (added_devices before after) d)
        && not (includes (removed_devices before after) d)))
      × ((includes (added_devices before after) d && includes before d) ≡ false)
      × ((includes (removed_devices before after) d && not (includes before d)) ≡ false)
      × ((includes (added_devices before after) d && includes (removed_devices before after) d)
          ≡ false)
patch_exact before after d = (
  ground (arith, includes-removed before after d, includes-added before after d),
  ground (arith, includes-added before after d),
  ground (arith, includes-removed before after d),
  ground (arith, includes-removed before after d, includes-added before after d),
)

pub same_numbers_iff : (ms ns : List ℕ) → (same_numbers ms ns ≡ true) ↔ (ms ≡ ns)
unfolding same_numbers
same_numbers_iff [] [] = (λ _. refl, λ _. refl)
same_numbers_iff [] (n ∷ ns) = (λ e. cc e, λ e. cc e)
same_numbers_iff (m ∷ ms) [] = (λ e. cc e, λ e. cc e)
same_numbers_iff (m ∷ ms) (n ∷ ns) = (
  λ e. ground (arith, (same_numbers_iff ms ns).0),
  λ e. ground (arith, (same_numbers_iff ms ns).1),
)

-- The group is as it was: every field that the page compares is the same.
pub record IsSame (g : Group) (i : InitialGroupConfiguration) : Type 0 where
  pub same_id : g.id ≡ i.id
  pub same_priority : g.priority ≡ i.priority
  pub same_policy : g.policy ≡ i.policy
  pub same_packages : g.packages ≡ i.packages
  pub same_devices : g.devices ≡ i.devices

-- `wasGroupModified` is false exactly for a group whose id, priority, policy, packages and
-- devices, these in their order, are what they were when the popup was opened.
pub was_group_modified_iff :
    (g : Group) (i : InitialGroupConfiguration) → (was_group_modified g i ≡ false) ↔ IsSame g i
unfolding was_group_modified
was_group_modified_iff g i = (
  λ h. record {
    same_id = ground arith;
    same_priority = ground arith;
    same_policy = ground (arith, eq_iff g.policy i.policy);
    same_packages = (same_numbers_iff g.packages i.packages).0 (ground arith);
    same_devices = (same_numbers_iff g.devices i.devices).0 (ground arith);
  },
  λ h. ground (
    arith,
    eq_iff g.policy i.policy,
    (same_numbers_iff g.packages i.packages).1 h.same_packages,
    (same_numbers_iff g.devices i.devices).1 h.same_devices,
  ),
)
