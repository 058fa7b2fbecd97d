-- ===== src/Utils/Notifications/Windows.antt =====
-- A notification opens no window.
use rdfm.Base.{String, Option, ◌≡◌, arith}
use rdfm.Utils.World.{Browser, World, Toast}
use rdfm.Utils.Notifications.{call, enqueue, notify_success, notify_error}

module _ (b : Browser) where
  windows-enqueue : (t : Toast) (w : World b) → (enqueue b t w).windows ≡ w.windows
  unfolding enqueue call
  windows-enqueue t w = ground arith

  pub windows-notify_success :
      (headline : String) (msg : Option String) (w : World b)
      → (notify_success b headline msg w).windows ≡ w.windows
  unfolding notify_success
  windows-notify_success headline msg w = windows-enqueue _ w

  pub windows-notify_error :
      (headline : String) (msg : Option String) (w : World b)
      → (notify_error b headline msg w).windows ≡ w.windows
  unfolding notify_error
  windows-notify_error headline msg w = windows-enqueue _ w

  -- Nor does it change what the user may do.
  access-enqueue :
      (t : Toast) (w : World b)
      → let v = enqueue b t w in
        (v.admin_roles ≡ w.admin_roles) × (v.permissions ≡ w.permissions) × (v.stores ≡ w.stores)
  unfolding enqueue call
  access-enqueue t w = ground arith

  pub access-notify_success :
      (headline : String) (msg : Option String) (w : World b)
      → let v = notify_success b headline msg w in
        (v.admin_roles ≡ w.admin_roles) × (v.permissions ≡ w.permissions) × (v.stores ≡ w.stores)
  unfolding notify_success
  access-notify_success headline msg w = access-enqueue _ w

  pub access-notify_error :
      (headline : String) (msg : Option String) (w : World b)
      → let v = notify_error b headline msg w in
        (v.admin_roles ≡ w.admin_roles) × (v.permissions ≡ w.permissions) × (v.stores ≡ w.stores)
  unfolding notify_error
  access-notify_error headline msg w = access-enqueue _ w
