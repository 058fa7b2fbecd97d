-- ===== src/Tests/Uploads.antt =====
-- Uploads that overlap on the page of packages.
use rdfm.Base.{◌≡◌, ◌≤◌, refl, List, [], ◌∷◌}
use rdfm.Packages.Page.{close_add_package_popup, open_add_package_popup}
use rdfm.Packages.Page.Uploads.{
  Run, Event, press_upload, press_cancel, click_beside, open_popup, happen, happen_all, IsCounted,
  start_upload, one_upload,
}
use rdfm.Tests.Setup.{browser}
use rdfm.Tests.Packages.{upload_page}

abbrev quiet : Run browser
quiet = record { page = upload_page; waiting = 0 }

-- The second click and the cancel find their buttons disabled.
abbrev clicks : List (Event browser)
clicks = press_upload ∷ press_upload ∷ press_cancel ∷ []

one_upload_example :
    ((happen_all browser clicks quiet).waiting ≤ 1)
    × IsCounted browser (happen_all browser clicks quiet)
one_upload_example = one_upload browser clicks quiet (tt, (tt, (tt, tt))) refl

-- A click beside the popup during the upload, which enables the button again.
abbrev impatient : List (Event browser)
impatient = press_upload ∷ click_beside ∷ open_popup ∷ press_upload ∷ []

two_uploads : (happen_all browser impatient quiet).waiting ≡ 2
unfolding happen_all happen start_upload close_add_package_popup open_add_package_popup
two_uploads = refl
