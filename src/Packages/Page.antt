-- ===== src/Packages/Page.antt =====
-- frontend/src/components/packages/PackagesList.vue: the page of packages, its popups, the upload
-- and the removal of a package.
pub mod Laws
pub mod Uploads
use rdfm.Base.{
  ℕ, String, Bool, true, false, Option, none, some, List, [], ◌∷◌, if◌then◌else◌, insert, length,
}
use rdfm.Utils.Model.{RequestOutput, Package}
use rdfm.Utils.Form.{or_text, set_errors, errors_of}
use rdfm.Utils.World.{Browser, World, Getter}
use rdfm.Utils.Resources.{fetch_resources}
use rdfm.Utils.Notifications.{notify_error, notify_success}
use rdfm.Packages.Requests.{NewPackageData, upload_package_request, remove_package_request}

pub data PackagePopupOpen : Type 0 where
  add_package remove_package no_popup : PackagePopupOpen

-- `uploaded_files` are the files of the form's input, by their text.
pub record Page (b : Browser) : Type 0 where
  pub world : World b
  pub popup_open : PackagePopupOpen
  pub upload_in_progress : Bool
  pub uploaded_files : List String
  pub upload_data : NewPackageData
  pub validation_errors : List (String × String)
  pub package_to_remove : Option ℕ

abbrev count_of : Option (List Package) → ℕ
count_of none = 0
count_of (some ps) = length ps

module _ (b : Browser) where
  unfoldable pub open_add_package_popup : Page b → Page b
  open_add_package_popup p = record p { popup_open = add_package }

  unfoldable pub close_add_package_popup : Page b → Page b
  close_add_package_popup p = record p {
    upload_data = record { version = none; device_type = none };
    popup_open = no_popup;
    upload_in_progress = false;
    validation_errors = [];
  }

  -- what follows `uploadPackageRequest`; a rejected promise ends the `try`
  uploaded : Option RequestOutput → Page b → Page b
  unfolding set_errors close_add_package_popup
  uploaded none p = p
  uploaded (some out) p =
      let q = record p {
        validation_errors = set_errors (errors_of out.errors) p.validation_errors;
      } in
      if out.success
      then close_add_package_popup
          (record q { world = notify_success b "Package was uploaded" none q.world })
      else record q {
        world =
            notify_error b "Error when uploading package"
              (some (or_text out.message "Uploading package failed")) q.world;
      }

  -- `try { … } finally { uploadInProgress.value = false; }`
  pub upload_package : Page b → Page b
  unfolding uploaded
  upload_package p =
      let q = record p { upload_in_progress = true; validation_errors = [] } in
      let r = upload_package_request b q.uploaded_files q.upload_data q.world in
      record (uploaded r.0 (record q { world = r.1 })) { upload_in_progress = false }

  unfoldable pub open_remove_package_popup : ℕ → Page b → Page b
  open_remove_package_popup id p = record p {
    package_to_remove = some id;
    popup_open = remove_package;
  }

  unfoldable pub close_remove_package_popup : Page b → Page b
  close_remove_package_popup p = record p { package_to_remove = none; popup_open = no_popup }

  unfoldable pub after_remove : RequestOutput → World b → World b
  after_remove out w =
      if out.success
      then notify_success b "Package was removed" none w
      else notify_error b "Error when removing package:"
          (some (or_text out.message "Removing package failed")) w

  -- The popup is open only with a package to remove.
  unfoldable pub remove_chosen : Option ℕ → Page b → Page b
  unfolding after_remove close_remove_package_popup
  remove_chosen none p = p
  remove_chosen (some id) p =
      let r = remove_package_request b id p.world in
      close_remove_package_popup (record p { world = after_remove r.0 r.1 })

  unfoldable pub remove_selected_package : Page b → Page b
  unfolding remove_chosen
  remove_selected_package p = remove_chosen p.package_to_remove p

  -- the callback of `onMounted`, but for the interval
  pub load_packages : Page b → Page b
  load_packages p = record p {
    world =
        (fetch_resources b Getter.package_groups (fetch_resources b Getter.packages p.world).1).1;
  }

  pub packages_count : Page b → ℕ
  packages_count p = count_of p.world.stores.packages.resources
