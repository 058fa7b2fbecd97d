-- ===== src/Groups/Configure/Outcomes.antt =====
-- When `configureGroup` sends anything at all, and what it says in the end.
use rdfm.Base.{ℕ, String, ◌==◌, string_eq, eq_iff, nat_eq, true, false, Option, none, some, List}
use rdfm.Base.{[], ◌∷◌, ◌≡◌, ◌≢◌, refl, arith, sym, ap, ◌∙◌, Bool-cases, inl, inr}
use rdfm.Base.{includes}
use rdfm.Utils.Model.{Group}
use rdfm.Utils.World.{Browser, num}
use rdfm.Utils.Notifications.Laws.{notify_error-sent}
use rdfm.Groups.Requests.{update_policy_request}
use rdfm.Groups.Page.{Page, InitialGroupConfiguration, close_configure_group_popup}
use rdfm.Groups.Configure.{
  updated, configure_group, group_to_modify, was_group_modified, checked, stages, configure_by,
  priority_differs, policy_differs, finish, policy_stage, post_policy_stage, selected_ids,
  removed_devices, added_devices, same_numbers,
}
use rdfm.Groups.Configure.Diff.{
  includes-removed, includes-added, IsSame, was_group_modified_iff, same_numbers_iff,
}

module _ (b : Browser) where
  checked-IsSame :
      (og : Option Group) (oi : Option InitialGroupConfiguration) (id : ℕ) (p : Page b)
      → (checked b og oi id p).1.world.sent ≢ p.world.sent
      → (g : Group) × (i : InitialGroupConfiguration) × (og ≡ some g) × (oi ≡ some i) × IsSame g i
  checked-IsSame none oi id p h = absurd (h refl)
  checked-IsSame (some g) none id p h = absurd (h refl)
  checked-IsSame (some g) (some i) id p h = elim (Bool-cases (was_group_modified g i)) [
    | inl other ↦ absurd (h (rw other (notify_error-sent b _ none p.world)))
    | inr same ↦ (g, i, refl, refl, (was_group_modified_iff g i).0 same)
  ]

  configure_by-IsSame :
      (o : Option ℕ) (p : Page b)
      → (configure_by b o p).1.world.sent ≢ p.world.sent
      → (id : ℕ) × (g : Group) × (i : InitialGroupConfiguration) × (o ≡ some id)
        × (group_to_modify b id p ≡ some g)
        × (p.initial ≡ some i)
        × IsSame g i
  configure_by-IsSame none p h = absurd (h refl)
  configure_by-IsSame (some id) p h =
      let (g, i, e, e', same) = checked-IsSame (group_to_modify b id p) p.initial id p h in
      (id, g, i, refl, e, e', same)

  -- If `configureGroup` sends any request, then a group is being configured, it is still among
  -- the fetched groups, and its id, priority, policy, packages and devices are what they were
  -- when the popup was opened.
  pub configure_group-IsSame :
      (p : Page b)
      → (configure_group b p).1.world.sent ≢ p.world.sent
      → (id : ℕ) × (g : Group) × (i : InitialGroupConfiguration) × (p.configuration.id ≡ some id)
        × (group_to_modify b id p ≡ some g)
        × (p.initial ≡ some i)
        × IsSame g i
  unfolding configure_group
  configure_group-IsSame p h = configure_by-IsSame p.configuration.id p h

-- The selection is the initial one: the priority, the devices, and the packages in their order.
pub record IsSelected (b : Browser) (p : Page b) (i : InitialGroupConfiguration) : Type 0 where
  pub same_priority : p.configuration.priority ≡ some (num i.priority)
  pub same_devices : (d : ℕ) → includes (selected_ids p.device_list) d ≡ includes i.devices d
  pub same_packages : selected_ids p.package_list ≡ i.packages

includes-nil : (xs : List ℕ) → ((d : ℕ) → includes xs d ≡ false) → xs ≡ []
includes-nil [] h = refl
includes-nil (x ∷ xs) h = let hx = h x in ground arith

module _ (b : Browser) (p : Page b) (i : InitialGroupConfiguration) (sel : IsSelected b p i) where
  removed-nil : removed_devices i.devices (selected_ids p.device_list) ≡ []
  removed-nil = includes-nil _ (λ d.
      ground (arith, includes-removed i.devices (selected_ids p.device_list) d, sel.same_devices d))

  added-nil : added_devices i.devices (selected_ids p.device_list) ≡ []
  added-nil = includes-nil _ (λ d.
      ground (arith, includes-added i.devices (selected_ids p.device_list) d, sel.same_devices d))

  priority-same : priority_differs p.configuration.priority i.priority ≡ false
  priority-same = ap (λ o. priority_differs o i.priority) sel.same_priority ∙ ground arith

  packages-same : same_numbers i.packages (selected_ids p.package_list) ≡ true
  packages-same = (same_numbers_iff i.packages _).1 (sym sel.same_packages)

  -- With that selection the first three stages do nothing.
  stages-policy : (id : ℕ) → stages b id i p ≡ finish b (policy_stage b id i false p)
  unfolding stages
  stages-policy id = rw (priority-same, removed-nil, added-nil, packages-same)

module _ (b : Browser) (p : Page b) (id : ℕ) (i : InitialGroupConfiguration) where
  policy-same :
      p.configuration.policy ≡ some i.policy
      → finish b (policy_stage b id i false p) ≡ (updated, close_configure_group_popup b p)
  unfolding policy_stage
  policy-same e =
      let t : policy_differs p.configuration.policy i.policy ≡ false =
        ap (λ o. policy_differs o i.policy) e ∙ ground (arith, eq_iff i.policy i.policy) in
      rw t

  policy-new :
      (policy : String)
      → p.configuration.policy ≡ some policy
      → policy ≢ i.policy
      → policy ≢ ""
      → (update_policy_request b id policy p.world).0.success ≡ true
      → finish b (policy_stage b id i false p) ≡ (
        updated,
        close_configure_group_popup b
            (record p { world = (update_policy_request b id policy p.world).1 }),
      )
  unfolding policy_stage
  policy-new policy e new given done =
      let t : policy_differs p.configuration.policy i.policy ≡ true =
        ap (λ o. policy_differs o i.policy) e ∙ ground (arith, eq_iff policy i.policy) in
      let u : (policy == "") ≡ false = ground (arith, eq_iff policy "") in
      rw t (ap (λ o. finish b (post_policy_stage b id o false p)) e ∙ rw (u, done))

-- The user changed nothing: the policy is the initial one too.
module _ (b : Browser) (p : Page b) (id : ℕ) (g : Group) (i : InitialGroupConfiguration)
    (e₁ : p.configuration.id ≡ some id) (e₂ : group_to_modify b id p ≡ some g)
    (e₃ : p.initial ≡ some i) (same : IsSame g i) where
  unmodified : configure_group b p ≡ stages b id i p
  unfolding configure_group
  unmodified =
      ap (λ o. configure_by b o p) e₁
      ∙ ap (λ og. checked b og p.initial id p) e₂
      ∙ ap (λ oi. checked b (some g) oi id p) e₃
      ∙ rw ((was_group_modified_iff g i).1 same)

  -- If the group is unmodified and the selection is what the group has, nothing is sent and nothing
  -- is announced: the popup closes.
  pub configure_group-unchanged :
      IsSelected b p i
      → p.configuration.policy ≡ some i.policy
      → configure_group b p ≡ (updated, close_configure_group_popup b p)
  configure_group-unchanged sel e₄ =
      unmodified ∙ stages-policy b p i sel id ∙ policy-same b p id i e₄

  -- If the group is unmodified, the selection is what the group has, and only the policy was
  -- changed, to one that is not empty and that the server accepts, then all that `configureGroup`
  -- does is the request for the policy and the closing of the popup: no notification is given.
  pub configure_group-silent :
      (policy : String)
      → IsSelected b p i
      → p.configuration.policy ≡ some policy
      → policy ≢ i.policy
      → policy ≢ ""
      → (update_policy_request b id policy p.world).0.success ≡ true
      → configure_group b p ≡ (
        updated,
        close_configure_group_popup b
            (record p { world = (update_policy_request b id policy p.world).1 }),
      )
  configure_group-silent policy sel e₄ new given done =
      unmodified ∙ stages-policy b p i sel id ∙ policy-new b p id i policy e₄ new given done
