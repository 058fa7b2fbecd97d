-- ===== src/Groups/Configure/Reached.antt =====
-- The end of `configureGroup`, seen from the server: the group is as the user chose.
use rdfm.Base.{
  ℕ, string_eq, nat_eq, Bool, true, false, Option, none, some, List, [], ◌∷◌, ◌≡◌, ◌∙◌, sym, ap,
  refl, Bool-cases, inl, inr,
}
use rdfm.Utils.Model.{Group}
use rdfm.Utils.World.{Browser, World, Json}
use rdfm.Groups.Page.{Page, InitialGroupConfiguration, close_configure_group_popup}
use rdfm.Groups.Configure.{
  priority_json, group_to_modify, was_group_modified, configure_group, updated, stages, checked,
  configure_by, finish, go,
}
use rdfm.Groups.Configure.Diff.{was_group_modified_iff}
use rdfm.Groups.Configure.Plan.{Change, set_priority, plan, send_change, send_all}
use rdfm.Groups.Configure.Chosen.{IsChosen, plan-IsChosen, plan-AllRead}
use rdfm.Groups.Configure.Stages.{stages-send_all, stages-finish}
use rdfm.Groups.Configure.Server.{IsServer, IsRead, send_change-Applied, notify_success-group}
use rdfm.Groups.Configure.Made.{AppliedAll, AllRead}

module _ (b : Browser) (read_priority : Json → Option ℕ) (group_of : ℕ → b.State → Option Group)
    (server : IsServer b read_priority group_of) where
  module _ (id : ℕ) where
    send_all-Applied :
        (cs : List Change) (w : World b) (g : Group)
        → AllRead read_priority cs
        → group_of id w.ext ≡ some g
        → (send_all b id cs w).0 ≡ true
        → (h : Group) × (group_of id (send_all b id cs w).1.ext ≡ some h)
          × AppliedAll read_priority cs g h
    unfolding send_all
    send_all-Applied [] w g are_read there done = (g, there, refl)
    send_all-Applied (c ∷ cs) w g (is_read, are_read) there done =
        elim (Bool-cases (send_change b id c w).0.success) [
          | inl fine ↦
              let (m, there', a) =
                send_change-Applied b read_priority group_of server id c w g is_read there fine in
              let v = (send_change b id c w).1 in
              let (h, found, rest) = send_all-Applied cs v m are_read there' (rw fine at done) in
              rw fine (h, found, (m, a, rest))
          | inr bad ↦ let no : false ≡ true = rw bad at done in cc
        ]

    finish-group :
        (made : Bool) (p : Page b)
        → group_of id (finish b (go made, p)).1.world.ext ≡ group_of id p.world.ext
    unfolding close_configure_group_popup
    finish-group true p = notify_success-group b read_priority group_of server id _ none p.world
    finish-group false p = refl

    module _ (p : Page b) (i : InitialGroupConfiguration) (g : Group)
        (chosen : p.configuration.id ≡ some id) (opened : p.initial ≡ some i)
        (found : group_to_modify b id p ≡ some g) (same : was_group_modified g i ≡ false)
        (current : group_of id p.world.ext ≡ some g)
        (natural : IsRead read_priority
          (set_priority (priority_json p.configuration.priority))) where
      unmodified_stages : checked b (some g) (some i) id p ≡ stages b id i p
      unmodified_stages = rw same refl

      configure_group-stages : configure_group b p ≡ stages b id i p
      unfolding configure_group
      configure_group-stages =
          ap (λ o. configure_by b o p) chosen
          ∙ ap (λ o. checked b o p.initial id p) found
          ∙ ap (λ o. checked b (some g) o id p) opened
          ∙ unmodified_stages

      stages-IsChosen :
          (stages b id i p).0 ≡ updated
          → (h : Group) × (group_of id (stages b id i p).1.world.ext ≡ some h)
            × IsChosen b read_priority p g h
      stages-IsChosen done =
          let accepted = (stages-send_all b id i p).0.0 done in
          let (h, there, a) =
            send_all-Applied (plan b i p) p.world g
              (plan-AllRead b read_priority group_of server i p natural) current accepted in
          let (made, e) = stages-finish b id i p accepted in
          let q : Page b = record p { world = (send_all b id (plan b i p) p.world).1 } in
          (
            h,
            ap (λ f. group_of id f.1.world.ext) e ∙ finish-group made q ∙ there,
            plan-IsChosen b read_priority group_of server i p g h
                ((was_group_modified_iff g i).0 same) a,
          )

      -- Given a server that makes the changes that it accepts, and a group that is configured, still
      -- as it was when the popup was opened, and known to the page as the server has it, where the
      -- server reads the priority on the page as a number that is not negative: if
      -- `configureGroup` ends with the update done, then the server's group has the priority (as the
      -- server reads it), the policy, the packages and the devices that were chosen on the page, and
      -- its number, creation and metadata are unchanged.
      pub configure_group-IsChosen :
          (configure_group b p).0 ≡ updated
          → (h : Group) × (group_of id (configure_group b p).1.world.ext ≡ some h)
            × IsChosen b read_priority p g h
      configure_group-IsChosen done =
          let (h, there, c) = stages-IsChosen (ap (λ r. r.0) (sym configure_group-stages) ∙ done) in
          (h, ap (λ r. group_of id r.1.world.ext) configure_group-stages ∙ there, c)
