-- ===== src/Devices/Detail/View/Laws.antt =====
-- Who is offered the actions, the files and the shell of a device.
use rdfm.Base.{
  String, ◌≡◌, ◌≢◌, ◌↔◌, refl, arith, true, Bool, Option, none, some, List, [], ◌∷◌, map, lookup,
}
use rdfm.Utils.Model.{read, update, shell, device, Group}
use rdfm.Utils.World.{Browser}
use rdfm.Utils.Access.Granted.{Direct}
use rdfm.Utils.Access.Offered.{and_iff, offered_iff, allowed_to-Direct}
use rdfm.Devices.Detail.{Page}
use rdfm.Devices.Detail.View.{view, action_button, terminal_box, is_true, is_filled, allowed}

is_true_iff : (o : Option Bool) → (is_true o ≡ true) ↔ (o ≡ some true)
is_true_iff none = ground arith
is_true_iff (some x) = ground arith

is_filled_iff : {A : Type 0} (l : List A) → (is_filled l ≡ true) ↔ (l ≢ [])
is_filled_iff [] = (λ e. cc e, λ h. absurd (h refl))
is_filled_iff (a ∷ as') = (λ e n. cc n, λ h. refl)

module _ (b : Browser) (connections : List (String × Bool)) (groups : Option (List Group))
    (p : Page b) where
  -- The page of a device offers its actions exactly when there are some and updating the device is
  -- granted, the download of a file exactly when the device has the capability and reading it is
  -- granted, and the terminal exactly when it has that capability and its shell is granted: by a
  -- role or by a permission on the device itself. A permission on one of its groups does not count.
  pub view-Direct :
      let v = view b connections groups p in
      ((v.actions ≡ some (map action_button p.actions)) ↔ (
        (p.actions ≢ [])
        × Direct p.world.admin_roles p.world.permissions update device p.device.id))
      × ((v.download ≡ some p.empty_path_error) ↔ (
          (lookup "filesystem" p.device.capabilities ≡ some true)
          × Direct p.world.admin_roles p.world.permissions read device p.device.id))
      × ((v.terminal ≡ some (terminal_box b p)) ↔ (
          (lookup "shell" p.device.capabilities ≡ some true)
          × Direct p.world.admin_roles p.world.permissions shell device p.device.id))
  unfolding view
  view-Direct =
      let roles = p.world.admin_roles in
      let permissions = p.world.permissions in
      let id = p.device.id in
      (
        offered_iff _ _ (
            and_iff _ (allowed b update p) (is_filled_iff p.actions)
              (allowed_to-Direct roles permissions update device id)),
        offered_iff _ _ (
            and_iff _ (allowed b read p) (is_true_iff (lookup "filesystem" p.device.capabilities))
              (allowed_to-Direct roles permissions read device id)),
        offered_iff _ _ (
            and_iff _ (allowed b shell p) (is_true_iff (lookup "shell" p.device.capabilities))
              (allowed_to-Direct roles permissions shell device id)),
      )
