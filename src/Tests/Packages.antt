-- ===== src/Tests/Packages.antt =====
-- packages.ts and PackagesList.vue.
use rdfm.Base.{false, none, some, [], ◌∷◌, ◌≡◌, ◌↔◌}
use rdfm.Packages.Requests.{NewPackageData, upload_package_request, remove_package_request}
use rdfm.Packages.Page.{Page, add_package, upload_package}
use rdfm.Packages.Page.Laws.{Shown, upload_package-Shown}
use rdfm.Base.{refl}
use rdfm.Utils.Model.{Package, read, delete, pckg}
use rdfm.Utils.World.{World, active_polling}
use rdfm.Utils.Access.Granted.{Granted}
use rdfm.Packages.View.{package_row}
use rdfm.Packages.View.Laws.{package_row-Granted}
use mathlib.Core.List.{Memᴰ}
use rdfm.Utils.Access.Granted.{on_resource, as_admin}
use rdfm.Packages.Page.{
  no_popup, remove_package, open_remove_package_popup, remove_selected_package, after_remove,
}
use rdfm.Packages.View.Removal.{Reached, start, removal_clicked, remove_selected_package-Granted}
use rdfm.Tests.Setup.{browser, first_world, first_stores, fleet, group_permission}

abbrev version_1 : NewPackageData
version_1 = record { version = some "1.0"; device_type = some "board" }

abbrev pub upload_page : Page browser
upload_page = record {
  world = first_world;
  popup_open = add_package;
  upload_in_progress = false;
  uploaded_files = "image" ∷ [];
  upload_data = version_1;
  validation_errors = ("version", "No package version provided") ∷ [];
  package_to_remove = none;
}

upload_package-Shown_example :
    ((upload_package browser upload_page).upload_in_progress ≡ false)
    × Shown browser upload_page
        (upload_package browser upload_page)
        (upload_package_request browser ("image" ∷ []) version_1 first_world).0
upload_package-Shown_example = upload_package-Shown browser upload_page

abbrev image : Package
image = record { id = 4; created = ""; sha256 = ""; driver = "local"; metadata = [] }

-- A user who may update the group 7, which has the package 4.
abbrev member : World browser
member = record first_world {
  permissions = group_permission ∷ [];
  stores = record first_stores {
    package_groups = record { resources = some (fleet ∷ []); polling_status = active_polling };
  };
}

package_row-Granted_example :
    let r = package_row browser member image in
    ((r.download ≡ some 4) ↔ Granted [] (group_permission ∷ []) (fleet ∷ []) read pckg 4)
    × ((r.remove ≡ some 4) ↔ Granted [] (group_permission ∷ []) (fleet ∷ []) delete pckg 4)
package_row-Granted_example = package_row-Granted browser member (fleet ∷ []) refl image

-- An administrator who asked to remove the package 4.
abbrev admin_page : Page browser
admin_page = record upload_page {
  world = record member { admin_roles = "rdfm_admin_rw" ∷ [] };
  popup_open = no_popup;
}

abbrev asked_page : Page browser
asked_page = record admin_page { popup_open = remove_package; package_to_remove = some 4 }

asked_page-Reached : Reached browser admin_page asked_page
unfolding open_remove_package_popup
asked_page-Reached = removal_clicked image (start refl refl) (
    (package_row-Granted browser admin_page.world (fleet ∷ []) refl image).1.1
      (on_resource (as_admin (Memᴰ.head refl))))

remove_selected_package-Granted_example :
    let r = remove_package_request browser 4 asked_page.world in
    Granted ("rdfm_admin_rw" ∷ []) (group_permission ∷ []) (fleet ∷ []) delete pckg 4
    × ((remove_selected_package browser asked_page).world ≡ after_remove browser r.0 r.1)
remove_selected_package-Granted_example =
    remove_selected_package-Granted browser admin_page (fleet ∷ []) 4 refl asked_page-Reached refl
