-- ===== src/Packages/Requests/Laws.antt =====
-- Uploading, removing and downloading a package.
use rdfm.Base.{ℕ, String, List, [], ◌∷◌, ◌≡◌, ◌≢◌, ◌↔◌}
use rdfm.Base.{refl, arith}
use rdfm.Utils.Model.{Shape}
use rdfm.Utils.Endpoints.{packages_endpoint, delete_package_endpoint}
use rdfm.Utils.Form.{HasText, is_falsy-false_iff, text_value}
use rdfm.Utils.World.{Browser, World, form, empty, Getter}
use rdfm.Utils.Fetch.{Output, fetch_post, fetch_delete, fetch_get, fetch_once, fetch_wrapper}
use rdfm.Utils.Command.{Command, Keeps, perform, perform-Keeps, refresh_all, Send}
use rdfm.Packages.Requests.{
  NewPackageData, upload_errors, remove_message, first_file, remove_package_request,
  download_package_request,
}

-- The form is complete: a file, a version and a device type are there, and not empty.
pub record IsComplete (files : List String) (new : NewPackageData) : Type 0 where
  pub has_file : files ≢ []
  pub has_version : HasText new.version
  pub has_type : HasText new.device_type

-- The form of a package has no errors exactly when it is complete: there is a file, and a version
-- and a device type that are not empty.
pub upload_errors-nil_iff :
    (files : List String) (new : NewPackageData)
    → (upload_errors files new ≡ []) ↔ IsComplete files new
unfolding upload_errors
upload_errors-nil_iff [] new = ((λ e. cc e), λ c. absurd (c.has_file refl))
upload_errors-nil_iff (f ∷ fs) new =
    let version = is_falsy-false_iff new.version in
    let device_type = is_falsy-false_iff new.device_type in
    (
      λ e. record {
        has_file = λ q. cc q;
        has_version = version.0 (ground arith);
        has_type = device_type.0 (ground arith);
      },
      λ c. ground (arith, version.1 c.has_version, device_type.1 c.has_type),
    )

module _ (b : Browser) where
  -- The POST of the form.
  abbrev pub post_form : List String → NewPackageData → World b → Output (Unit {0}) × World b
  post_form files new = fetch_post b Shape.ignored (packages_endpoint b.server_url) [] (
      form (
        ("file", first_file files)
        ∷ ("rdfm.software.version", text_value new.version)
        ∷ ("rdfm.hardware.devtype", text_value new.device_type)
        ∷ []))

  abbrev delete : Send b
  delete url method body = fetch_delete b Shape.ignored url

  abbrev removal : ℕ → Command
  removal id = record {
    url = delete_package_endpoint b.server_url id;
    method = "DELETE";
    body = empty;
    explain = remove_message;
    refreshes = Getter.packages ∷ [];
  }

  remove_package_request-perform :
      (id : ℕ) (w : World b) → remove_package_request b id w ≡ perform b delete (removal id) w
  unfolding remove_package_request perform refresh_all
  remove_package_request-perform id w = ground arith

  -- `removePackageRequest` sends one DELETE. It reports success exactly when the server accepted
  -- it, and then refreshes the packages; a failure has the message for its code, and nothing is
  -- refreshed or changed after the reply.
  pub remove_package_request-Keeps :
      (id : ℕ) (w : World b)
      → Keeps b
          (remove_package_request b id w)
          (fetch_delete b Shape.ignored (delete_package_endpoint b.server_url id) w)
          remove_message
          (Getter.packages ∷ [])
  remove_package_request-Keeps id w =
      rw (remove_package_request-perform id w) (perform-Keeps b delete (removal id) w)

-- Asking for the link of a package opens no window.
pub windows-download_package_request :
    (b : Browser) (id : ℕ) (w : World b) → (download_package_request b id w).1.windows ≡ w.windows
unfolding download_package_request fetch_get fetch_once fetch_wrapper
windows-download_package_request b id w = refl
