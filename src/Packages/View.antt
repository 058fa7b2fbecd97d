-- ===== src/Packages/View.antt =====
-- frontend/src/components/packages/PackagesList.vue: what the template shows and offers.
pub mod Laws
pub mod Removal
use rdfm.Base.{
  ℕ, show, ◌<>◌, ◌==◌, string_eq, String, Bool, true, false, not, Option, none, some, List, [], ◌∷◌,
  map,
}
use rdfm.Base.{if◌then◌else◌, lookup}
use rdfm.Utils.Model.{Verb, read, delete, pckg, Package, Group, text}
use rdfm.Utils.Form.{text_value}
use rdfm.Utils.World.{Browser, World}
use rdfm.Utils.Access.{allowed_to, offered, has_upload_access}
use rdfm.Components.TitleBar.{Props}
use rdfm.Components.RemovePopup.{RemovePopup, remove_popup, number_text, irrevocable, shown_error}
use rdfm.Packages.Page.{
  Page, PackagePopupOpen, add_package, remove_package, no_popup, packages_count,
}

-- The form of the upload: the error below each of its inputs, and whether its buttons react.
pub record UploadPopup : Type 0 where
  pub version_error : Option String
  pub device_type_error : Option String
  pub file_error : Option String
  pub is_enabled : Bool
  pub has_progress_bar : Bool

-- The row of a package: its titles and values, and the buttons, each with the number that it gives
-- to its handler.
pub record Row : Type 0 where
  pub entries : List (String × String)
  pub download : Option ℕ
  pub remove : Option ℕ

pub record View : Type 0 where
  pub remove_popup : Option RemovePopup
  pub upload_popup : Option UploadPopup
  pub title_bar : Props
  pub total : ℕ
  pub rows : Option (List Row)

abbrev is_adding : PackagePopupOpen → Bool
is_adding add_package = true
is_adding _ = false

abbrev pub is_removing : PackagePopupOpen → Bool
is_removing remove_package = true
is_removing _ = false

-- `(packages?.length ?? 0) > 0`
abbrev rows_of : (Package → Row) → Option (List Package) → Option (List Row)
rows_of f none = none
rows_of f (some []) = none
rows_of f (some (k ∷ ks)) = some (map f (k ∷ ks))

module _ (b : Browser) where
  abbrev button : World b → Verb → Package → Option ℕ
  button w verb k =
      offered
        (allowed_to w.admin_roles w.permissions verb pckg (some k.id)
          w.stores.package_groups.resources)
        k.id

  pub package_row : World b → Package → Row
  package_row w k = record {
    entries =
        ("ID", "#" <> show k.id)
        ∷ ("Version", text_value (lookup "rdfm.software.version" k.metadata))
        ∷ ("Device type", text_value (lookup "rdfm.hardware.devtype" k.metadata))
        ∷ ("Uploaded on", k.created)
        ∷ ("SHA256", k.sha256)
        ∷ ("Storage Driver", k.driver)
        ∷ [];
    download = button w read k;
    remove = button w delete k;
  }

  upload_popup_of : Page b → Option UploadPopup
  upload_popup_of p =
      if is_adding p.popup_open
      then some (record {
        version_error = shown_error "version" p.validation_errors;
        device_type_error = shown_error "deviceType" p.validation_errors;
        file_error = shown_error "file" p.validation_errors;
        is_enabled = not p.upload_in_progress;
        has_progress_bar = p.upload_in_progress;
      })
      else none

  pub view : Page b → View
  unfolding upload_popup_of package_row
  view p = record {
    remove_popup =
        remove_popup (is_removing p.popup_open)
          (irrevocable ("#" <> number_text p.package_to_remove <> " package."));
    upload_popup = upload_popup_of p;
    title_bar = record {
      title = "Packages";
      subtitle = some (text "manage your packages");
      action_button_name = some "Create new package";
      has_callback = has_upload_access p.world.admin_roles p.world.permissions;
      device = none;
      connected = false;
      small_button_name = none;
    };
    total = packages_count b p;
    rows = rows_of (package_row p.world) p.world.stores.packages.resources;
  }
