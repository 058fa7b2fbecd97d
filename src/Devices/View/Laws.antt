-- ===== src/Devices/View/Laws.antt =====
-- What the page of devices offers to a user.
use rdfm.Base.{ℕ, String, ◌≡◌, ◌↔◌, some, Option, List}
use rdfm.Utils.Model.{delete, device, RegisteredDevice}
use rdfm.Utils.World.{Browser, World}
use rdfm.Utils.Access.Granted.{Direct}
use rdfm.Utils.Access.Offered.{offered-Direct}
use rdfm.Devices.View.{device_row}

module _ (b : Browser) (updates : List (String × ℕ)) (versions : List (String × String))
    (devices : Option (List RegisteredDevice)) (w : World b) where
  -- The list of devices offers to remove a device exactly to those to whom deleting it is granted
  -- by a role or by a permission on the device itself: a permission on a group of the device does
  -- not count.
  pub device_row-Direct :
      (d : RegisteredDevice)
      → ((device_row b updates versions devices w d).remove ≡ some d.id)
        ↔ Direct w.admin_roles w.permissions delete device d.id
  unfolding device_row
  device_row-Direct d = offered-Direct w.admin_roles w.permissions delete device d.id d.id
