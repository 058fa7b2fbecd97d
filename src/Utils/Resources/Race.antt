-- ===== src/Utils/Resources/Race.antt =====
-- Several calls of `fetchResources` at once: an interval does not wait for the call before it, and the
-- pages refresh a getter after each change. The replies settle in the order in which they arrive.
use rdfm.Base.{
  nat_eq, Option, none, some, List, [], ◌∷◌, ◌++◌, ◌≡◌, ◌≢◌, ◌⊎◌, refl, ◌∙◌, ap, if◌then◌else◌,
  Bool-cases, inl, inr,
}
use rdfm.Utils.Model.{Body}
use rdfm.Utils.World.{
  Browser, World, Getter, shape, read, write, Resource, Stores, Reply, unreachable_url,
  active_polling,
}
use rdfm.Utils.Fetch.{Output, output}
use rdfm.Utils.Resources.{settle, put_resource, go_to, code_is, unauthorized}

-- A reply that arrives, and the getter whose request it answers.
pub record Arrival : Type 0 where
  pub getter : Getter
  pub reply : Reply (Body (shape getter))

module _ (b : Browser) where
  unfoldable pub arrive : Arrival → World b → World b
  unfolding settle
  arrive a w = settle b a.getter (output a.reply) w

  unfoldable pub arrive_all : List Arrival → World b → World b
  unfolding arrive
  arrive_all [] w = w
  arrive_all (a ∷ as') w = arrive_all as' (arrive a w)

-- What a reply says of its resource; `none` for the status 401.
unfoldable pub verdict : (g : Getter) → Output (Body (shape g)) → Option (Resource (Body (shape g)))
verdict g out =
    if out.success
    then some (record { resources = out.result; polling_status = active_polling })
    else if code_is out.code unauthorized
    then none
    else some (record { resources = none; polling_status = unreachable_url })

read-write_same :
    (g : Getter) (r : Resource (Body (shape g))) (s : Stores) → read g (write g r s) ≡ r
read-write_same Getter.pending_devices r s = refl
read-write_same Getter.registered_devices r s = refl
read-write_same Getter.device_groups r s = refl
read-write_same Getter.packages r s = refl
read-write_same Getter.package_groups r s = refl
read-write_same Getter.groups r s = refl
read-write_same Getter.group_packages r s = refl
read-write_same Getter.group_devices r s = refl

read-write_other :
    (g h : Getter) (r : Resource (Body (shape g))) (s : Stores)
    → g ≢ h
    → read h (write g r s) ≡ read h s
read-write_other Getter.pending_devices Getter.pending_devices r s ne = absurd (ne refl)
read-write_other Getter.registered_devices Getter.registered_devices r s ne = absurd (ne refl)
read-write_other Getter.device_groups Getter.device_groups r s ne = absurd (ne refl)
read-write_other Getter.packages Getter.packages r s ne = absurd (ne refl)
read-write_other Getter.package_groups Getter.package_groups r s ne = absurd (ne refl)
read-write_other Getter.groups Getter.groups r s ne = absurd (ne refl)
read-write_other Getter.group_packages Getter.group_packages r s ne = absurd (ne refl)
read-write_other Getter.group_devices Getter.group_devices r s ne = absurd (ne refl)
read-write_other _ _ r s ne = refl

-- The reply of `a` does not settle the getter.
abbrev pub LeavesAlone : Getter → Arrival → Type 0
LeavesAlone g a = (a.getter ≢ g) ⊎ (verdict a.getter (output a.reply) ≡ none)

abbrev pub AllLeaveAlone : Getter → List Arrival → Type 0
AllLeaveAlone g [] = Unit
AllLeaveAlone g (a ∷ as') = LeavesAlone g a × AllLeaveAlone g as'

module _ (b : Browser) where
  stores_by : (g : Getter) → Option (Resource (Body (shape g))) → Stores → Stores
  stores_by g none s = s
  stores_by g (some r) s = write g r s

  settle-stores :
      (g : Getter) (out : Output (Body (shape g))) (w : World b)
      → (settle b g out w).stores ≡ stores_by g (verdict g out) w.stores
  unfolding settle stores_by verdict put_resource go_to
  settle-stores g out w = elim (Bool-cases out.success) [
    | inl done ↦ rw done refl
    | inr bad ↦ elim (Bool-cases (code_is out.code unauthorized)) [
      | inl login ↦ rw (bad, login) refl
      | inr lost ↦ rw (bad, lost) refl
    ]
  ]

  read-other :
      (g h : Getter) (o : Option (Resource (Body (shape g)))) (s : Stores)
      → g ≢ h
      → read h (stores_by g o s) ≡ read h s
  unfolding stores_by
  read-other g h none s ne = refl
  read-other g h (some r) s ne = read-write_other g h r s ne

  arrive-alone :
      (g : Getter) (a : Arrival) (w : World b)
      → LeavesAlone g a
      → read g (arrive b a w).stores ≡ read g w.stores
  unfolding arrive stores_by
  arrive-alone g a w (inl ne) =
      ap (read g) (settle-stores a.getter (output a.reply) w)
      ∙ read-other a.getter g (verdict a.getter (output a.reply)) w.stores ne
  arrive-alone g a w (inr e) =
      ap (read g) (settle-stores a.getter (output a.reply) w)
      ∙ ap (λ o. read g (stores_by a.getter o w.stores)) e

  arrive_all-alone :
      (g : Getter) (after : List Arrival) (w : World b)
      → AllLeaveAlone g after
      → read g (arrive_all b after w).stores ≡ read g w.stores
  unfolding arrive_all
  arrive_all-alone g [] w h = refl
  arrive_all-alone g (a ∷ after) w h =
      arrive_all-alone g after (arrive b a w) h.1 ∙ arrive-alone g a w h.0

  arrive_all-append :
      (before after : List Arrival) (w : World b)
      → arrive_all b (before ++ after) w ≡ arrive_all b after (arrive_all b before w)
  unfolding arrive_all
  arrive_all-append [] after w = refl
  arrive_all-append (a ∷ before) after w = arrive_all-append before after (arrive b a w)

  -- Replies to any getters arrive in any order, `a` is one of them, and no reply after it settles
  -- the same getter (it is for another one, or has the status 401). Then the getter holds what `a`
  -- says: the data, or nothing if it failed. When the requests were sent plays no part.
  pub last_arrival-read :
      (before : List Arrival) (a : Arrival) (after : List Arrival) (w : World b)
      (r : Resource (Body (shape a.getter)))
      → verdict a.getter (output a.reply) ≡ some r
      → AllLeaveAlone a.getter after
      → read a.getter (arrive_all b (before ++ a ∷ after) w).stores ≡ r
  unfolding arrive_all arrive stores_by
  last_arrival-read before a after w r e h =
      let v = arrive_all b before w in
      ap (λ x. read a.getter x.stores) (arrive_all-append before (a ∷ after) w)
      ∙ arrive_all-alone a.getter after (arrive b a v) h
      ∙ ap (read a.getter) (settle-stores a.getter (output a.reply) v)
      ∙ ap (λ o. read a.getter (stores_by a.getter o v.stores)) e
      ∙ read-write_same a.getter r v.stores
