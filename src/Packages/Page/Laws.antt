-- ===== src/Packages/Page/Laws.antt =====
-- What the upload of a package leaves on the page.
use rdfm.Base.{true, false, Option, none, some, [], ◌≡◌, refl}
use rdfm.Base.{Bool-cases, inl, inr}
use rdfm.Utils.Model.{RequestOutput}
use rdfm.Utils.World.{Browser, World}
use rdfm.Utils.Form.{set_errors, errors_of}
use rdfm.Packages.Requests.{upload_package_request}
use rdfm.Packages.Page.{Page, no_popup, upload_package, uploaded, close_add_package_popup}

-- How the page `q` shows the result `out` of the request to the user who submitted page `p`.
pub data Shown (b : Browser) (p q : Page b) : Option RequestOutput → Type 0 where
  threw :
      q.popup_open ≡ p.popup_open
      → q.upload_data ≡ p.upload_data
      → q.validation_errors ≡ []
      → Shown b p q none
  closed :
      (out : RequestOutput)
      → out.success ≡ true
      → q.popup_open ≡ no_popup
      → q.upload_data ≡ record { version = none; device_type = none }
      → q.validation_errors ≡ []
      → Shown b p q (some out)
  kept :
      (out : RequestOutput)
      → out.success ≡ false
      → q.popup_open ≡ p.popup_open
      → q.upload_data ≡ p.upload_data
      → q.validation_errors ≡ set_errors (errors_of out.errors) []
      → Shown b p q (some out)

module _ (b : Browser) where
  uploaded-Shown :
      (p : Page b) (o : Option RequestOutput) (w : World b)
      → let q = record p { upload_in_progress = true; validation_errors = [] } in
        Shown b p (record (uploaded b o (record q { world = w })) { upload_in_progress = false }) o
  unfolding uploaded close_add_package_popup
  uploaded-Shown p none w = threw refl refl refl
  uploaded-Shown p (some out) w = elim (Bool-cases out.success) [
    | inl done ↦ simp done (closed out done refl refl refl)
    | inr bad ↦ simp bad (kept out bad refl refl refl)
  ]

  -- Whatever becomes of the request, the upload is over when `uploadPackage` ends. After a success
  -- the popup is closed and the form is empty; after a failure the popup and the form stay, with the
  -- errors of this attempt and no others; if the request throws they stay with no errors.
  pub upload_package-Shown :
      (p : Page b)
      → let r = upload_package_request b p.uploaded_files p.upload_data p.world in
        ((upload_package b p).upload_in_progress ≡ false) × Shown b p (upload_package b p) r.0
  unfolding upload_package
  upload_package-Shown p =
      let r = upload_package_request b p.uploaded_files p.upload_data p.world in
      (refl, uploaded-Shown p r.0 r.1)
