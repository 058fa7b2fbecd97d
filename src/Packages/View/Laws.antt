-- ===== src/Packages/View/Laws.antt =====
-- What the page of packages offers to a user.
use rdfm.Base.{◌≡◌, ◌↔◌, some, List}
use rdfm.Utils.Model.{read, delete, pckg, Package, Group}
use rdfm.Utils.World.{Browser, World}
use rdfm.Utils.Access.Granted.{Granted}
use rdfm.Utils.Access.Offered.{offered-Granted}
use rdfm.Packages.View.{package_row}

module _ (b : Browser) (w : World b) (gs : List Group) where
  -- Once the groups are loaded, the row of a package offers its download exactly when reading it is
  -- granted, by a role, a permission on the package, or one on a group that has it; and it offers
  -- the removal exactly when deleting it is granted.
  pub package_row-Granted :
      w.stores.package_groups.resources ≡ some gs
      → (k : Package)
      → let r = package_row b w k in
        ((r.download ≡ some k.id) ↔ Granted w.admin_roles w.permissions gs read pckg k.id)
        × ((r.remove ≡ some k.id) ↔ Granted w.admin_roles w.permissions gs delete pckg k.id)
  unfolding package_row
  package_row-Granted loaded k = (
    offered-Granted w.admin_roles w.permissions read pckg k.id _ gs loaded,
    offered-Granted w.admin_roles w.permissions delete pckg k.id _ gs loaded,
  )
