-- ===== src/Groups/Configure/Chosen.antt =====
-- What the plan of `configureGroup` makes of the group, part by part.
use rdfm.Base.{
  ℕ, String, string_eq, nat_eq, Bool, not, ◌&&◌, ◌||◌, Option, some, ◌≡◌, ◌∙◌, sym, ap, arith, inl,
  inr, includes,
}
use rdfm.Utils.Model.{Group}
use rdfm.Utils.World.{Browser, Json}
use rdfm.Groups.Page.{Page, InitialGroupConfiguration}
use rdfm.Groups.Configure.{
  selected_ids, removed_devices, added_devices, same_numbers, is_empty, priority_differs,
  policy_differs, priority_json,
}
use rdfm.Groups.Configure.Diff.{includes-removed, includes-added, same_numbers_iff, IsSame}
use rdfm.Groups.Configure.Plan.{
  Change, set_priority, set_packages, set_policy, policy_change, plan_priority, plan_devices,
  plan_packages, plan_policy, plan,
}
use rdfm.Groups.Configure.Server.{IsServer, Applied, IsRead}
use rdfm.Groups.Configure.Made.{
  AppliedAll, AppliedAll-append, AllRead, AllRead-append, planned_if-AllRead, policy_change-IsRead,
  Segment, part_of, kept_over, policy_change-Applied, priority-same, policy-same, includes-is_empty,
}

-- The group `h`, which was `g`, is as the page chooses: its priority, as the server reads it, its
-- policy, its packages and its devices; its number, creation and metadata are as before.
pub record IsChosen (b : Browser) (read_priority : Json → Option ℕ) (p : Page b) (g h : Group)
    : Type 0 where
  pub priority : read_priority (priority_json p.configuration.priority) ≡ some h.priority
  pub policy : p.configuration.policy ≡ some h.policy
  pub packages : (n : ℕ) → includes h.packages n ≡ includes (selected_ids p.package_list) n
  pub devices : (n : ℕ) → includes h.devices n ≡ includes (selected_ids p.device_list) n
  pub same_id : h.id ≡ g.id
  pub same_created : h.created ≡ g.created
  pub same_metadata : h.metadata ≡ g.metadata

module _ (b : Browser) (read_priority : Json → Option ℕ) (group_of : ℕ → b.State → Option Group)
    (server : IsServer b read_priority group_of) where
  module _ (i : InitialGroupConfiguration) (p : Page b) where
    -- The parts of the plan, one by one.
    priority_chosen :
        (g h : Group)
        → g.priority ≡ i.priority
        → Segment read_priority
            (priority_differs p.configuration.priority i.priority)
            (set_priority (priority_json p.configuration.priority))
            g
            h
        → read_priority (priority_json p.configuration.priority) ≡ some h.priority
    priority_chosen g h e (inl (t, a)) = a.priority_after
    priority_chosen g h e (inr (t, same)) =
        ap (λ o. read_priority (priority_json o))
          (priority-same p.configuration.priority i.priority t)
        ∙ server.reads_number i.priority
        ∙ ap some (sym e ∙ ap (λ x. x.priority) (sym same))

    policy_chosen :
        (g h : Group)
        → g.policy ≡ i.policy
        → Segment read_priority
            (policy_differs p.configuration.policy i.policy)
            (policy_change p.configuration.policy)
            g
            h
        → p.configuration.policy ≡ some h.policy
    policy_chosen g h e (inl (t, a)) =
        let (policy, o, a') = policy_change-Applied read_priority p.configuration.policy g h a in
        o ∙ ap some (sym a'.policy_after)
    policy_chosen g h e (inr (t, same)) =
        policy-same p.configuration.policy i.policy t
        ∙ ap some (sym e ∙ ap (λ x. x.policy) (sym same))

    packages_chosen :
        (g h : Group)
        → g.packages ≡ i.packages
        → Segment read_priority
            (not (same_numbers i.packages (selected_ids p.package_list)))
            (set_packages (selected_ids p.package_list))
            g
            h
        → (n : ℕ) → includes h.packages n ≡ includes (selected_ids p.package_list) n
    packages_chosen g h e (inl (t, a)) n = a.packages_after n
    packages_chosen g h e (inr (t, same)) n =
        let chosen = (same_numbers_iff i.packages (selected_ids p.package_list)).0 (ground arith) in
        ap (λ l. includes l n) (ap (λ x. x.packages) same ∙ e ∙ chosen)

    devices_chosen :
        (g h : Group)
        → g.devices ≡ i.devices
        → let removed = removed_devices i.devices (selected_ids p.device_list) in
          let added = added_devices i.devices (selected_ids p.device_list) in
          Segment read_priority
            (not (is_empty removed) || not (is_empty added))
            (Change.patch_devices added removed)
            g
            h
          → (n : ℕ) → includes h.devices n ≡ includes (selected_ids p.device_list) n
    devices_chosen g h e (inl (t, a)) n =
        let new = selected_ids p.device_list in
        a.devices_after n
        ∙ ap
            (λ l.
              (includes l n || includes (added_devices i.devices new) n)
              && not (includes (removed_devices i.devices new) n))
            e
        ∙ ground (arith, includes-removed i.devices new n, includes-added i.devices new n)
    devices_chosen g h e (inr (t, same)) n =
        let new = selected_ids p.device_list in
        let gone = includes-is_empty (removed_devices i.devices new) n (ground arith) in
        let come = includes-is_empty (added_devices i.devices new) n (ground arith) in
        ap (λ l. includes l n) (ap (λ x. x.devices) same ∙ e)
        ∙ ground
            (arith, gone, come, includes-removed i.devices new n, includes-added i.devices new n)

    -- A field that no change of the policy touches.
    policy_kept :
        {A : Type 0} {g h : Group} (f : Group → A)
        → ((policy : String) → Applied read_priority (set_policy policy) g h → f h ≡ f g)
        → Segment read_priority
            (policy_differs p.configuration.policy i.policy)
            (policy_change p.configuration.policy)
            g
            h
        → f h ≡ f g
    policy_kept {g = g} {h = h} f k s =
        kept_over read_priority f
          (λ a.
            let (policy, o, a') =
              policy_change-Applied read_priority p.configuration.policy g h a in
            k policy a')
          s

    -- A field that no change touches.
    all_kept :
        {A : Type 0} {t₁ t₂ t₃ : Bool} {c₁ c₂ c₃ : Change} {g₀ g₁ g₂ g₃ h : Group} (f : Group → A)
        → ((y : Change) (x z : Group) → Applied read_priority y x z → f z ≡ f x)
        → Segment read_priority t₁ c₁ g₀ g₁
        → Segment read_priority t₂ c₂ g₁ g₂
        → Segment read_priority t₃ c₃ g₂ g₃
        → Segment read_priority
            (policy_differs p.configuration.policy i.policy)
            (policy_change p.configuration.policy)
            g₃
            h
        → f h ≡ f g₀
    all_kept {c₁ = c₁} {c₂ = c₂} {c₃ = c₃} {g₀ = g₀} {g₁ = g₁} {g₂ = g₂} {g₃ = g₃} {h = h} f k s₁ s₂
          s₃ s₄ =
        policy_kept f (λ policy. k (set_policy policy) g₃ h) s₄
        ∙ kept_over read_priority f (k c₃ g₂ g₃) s₃
        ∙ kept_over read_priority f (k c₂ g₁ g₂) s₂
        ∙ kept_over read_priority f (k c₁ g₀ g₁) s₁

    pub plan-IsChosen :
        (g h : Group)
        → IsSame g i
        → AppliedAll read_priority (plan b i p) g h
        → IsChosen b read_priority p g h
    unfolding plan plan_priority plan_devices plan_packages plan_policy
    plan-IsChosen g h e a =
        let (g₃, abc, d) = AppliedAll-append read_priority _ (plan_policy b i p) g h a in
        let (g₂, ab, c) = AppliedAll-append read_priority _ (plan_packages b i p) g g₃ abc in
        let (g₁, a', b') =
          AppliedAll-append read_priority (plan_priority b i p) (plan_devices b i p) g g₂ ab in
        let s₁ = part_of read_priority _ _ g g₁ a' in
        let s₂ = part_of read_priority _ _ g₁ g₂ b' in
        let s₃ = part_of read_priority _ _ g₂ g₃ c in
        let s₄ = part_of read_priority _ _ g₃ h d in
        record {
          priority =
              priority_chosen g g₁ e.same_priority s₁
              ∙ ap some (
                  sym (
                    policy_kept (λ x. x.priority) (λ y k. k.priority_after) s₄
                    ∙ kept_over read_priority (λ x. x.priority) (λ k. k.priority_after) s₃
                    ∙ kept_over read_priority (λ x. x.priority) (λ k. k.priority_after) s₂));
          policy =
              policy_chosen g₃ h
                (kept_over read_priority (λ x. x.policy) (λ k. k.policy_after) s₃
                  ∙ kept_over read_priority (λ x. x.policy) (λ k. k.policy_after) s₂
                  ∙ kept_over read_priority (λ x. x.policy) (λ k. k.policy_after) s₁
                  ∙ e.same_policy)
                s₄;
          packages = λ n.
              ap (λ l. includes l n) (policy_kept (λ x. x.packages) (λ y k. k.packages_after) s₄)
              ∙ packages_chosen g₂ g₃
                  (kept_over read_priority (λ x. x.packages) (λ k. k.packages_after) s₂
                    ∙ kept_over read_priority (λ x. x.packages) (λ k. k.packages_after) s₁
                    ∙ e.same_packages)
                  s₃ n;
          devices = λ n.
              ap (λ l. includes l n)
                (policy_kept (λ x. x.devices) (λ y k. k.devices_after) s₄
                  ∙ kept_over read_priority (λ x. x.devices) (λ k. k.devices_after) s₃)
              ∙ devices_chosen g₁ g₂
                  (kept_over read_priority (λ x. x.devices) (λ k. k.devices_after) s₁
                    ∙ e.same_devices)
                  s₂ n;
          same_id = all_kept (λ x. x.id) (λ y x z k. k.same_id) s₁ s₂ s₃ s₄;
          same_created = all_kept (λ x. x.created) (λ y x z k. k.same_created) s₁ s₂ s₃ s₄;
          same_metadata = all_kept (λ x. x.metadata) (λ y x z k. k.same_metadata) s₁ s₂ s₃ s₄;
        }

    pub plan-AllRead :
        IsRead read_priority (set_priority (priority_json p.configuration.priority))
        → AllRead read_priority (plan b i p)
    unfolding plan plan_priority plan_devices plan_packages plan_policy
    plan-AllRead natural =
        AllRead-append read_priority _ (plan_policy b i p)
          (AllRead-append read_priority _ (plan_packages b i p)
            (AllRead-append read_priority (plan_priority b i p) (plan_devices b i p)
              (planned_if-AllRead read_priority _ _ natural)
              (planned_if-AllRead read_priority _ _ tt))
            (planned_if-AllRead read_priority _ _ tt))
          (planned_if-AllRead read_priority _ _
            (policy_change-IsRead read_priority p.configuration.policy))
