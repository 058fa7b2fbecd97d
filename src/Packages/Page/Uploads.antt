-- ===== src/Packages/Page/Uploads.antt =====
-- `uploadPackage` of PackagesList.vue as it runs: its request is under way while the page goes on.
-- The buttons of the form are disabled by `uploadInProgress`; a click beside the popup is not.
use rdfm.Base.{
  ℕ, suc, zero, ◌≤◌, Bool, true, false, Option, List, [], ◌∷◌, String, ◌≡◌, refl, arith,
  if◌then◌else◌, Bool-cases, inl, inr, ap,
}
use rdfm.Utils.Model.{RequestOutput}
use rdfm.Utils.World.{Browser, World}
use rdfm.Packages.Requests.{NewPackageData}
use rdfm.Packages.Page.{
  Page, uploaded, open_add_package_popup, close_add_package_popup, open_remove_package_popup,
  close_remove_package_popup,
}

-- The page, and how many calls of `uploadPackage` wait for their request.
pub record Run (b : Browser) : Type 0 where
  pub page : Page b
  pub waiting : ℕ

-- What a user does, a refresh of the shared state, and the end of a request; `none` is a promise that
-- is rejected.
pub data Event (b : Browser) : Type 0 where
  open_popup press_cancel press_upload click_beside close_remove : Event b
  open_remove : ℕ → Event b
  fill : NewPackageData → List String → Event b
  refreshed : World b → Event b
  answered : Option RequestOutput → Event b

module _ (b : Browser) where
  abbrev pub on_page : (Page b → Page b) → Run b → Run b
  on_page f r = record r { page = f r.page }

  -- `uploadPackage` up to its `await`
  unfoldable pub start_upload : Page b → Page b
  start_upload p = record p { upload_in_progress = true; validation_errors = [] }

  -- and from there, the block `finally` included.
  pub end_upload : Option RequestOutput → Page b → Page b
  unfolding uploaded
  end_upload out p = record (uploaded b out p) { upload_in_progress = false }

  abbrev pub ended : Option RequestOutput → Run b → ℕ → Run b
  ended out r zero = r
  ended out r (suc n) = record { page = end_upload out r.page; waiting = n }

  unfoldable pub happen : Event b → Run b → Run b
  unfolding start_upload end_upload
  happen open_popup r = on_page (open_add_package_popup b) r
  happen press_cancel r =
      if r.page.upload_in_progress then r else on_page (close_add_package_popup b) r
  happen press_upload r =
      if r.page.upload_in_progress
      then r
      else record { page = start_upload r.page; waiting = suc r.waiting }
  happen click_beside r = on_page (close_add_package_popup b) r
  happen close_remove r = on_page (close_remove_package_popup b) r
  happen (open_remove id) r = on_page (open_remove_package_popup b id) r
  happen (fill new files) r =
      on_page (λ p. record p { upload_data = new; uploaded_files = files }) r
  happen (refreshed w) r = on_page (λ p. record p { world = w }) r
  happen (answered out) r = ended out r r.waiting

  unfoldable pub happen_all : List (Event b) → Run b → Run b
  unfolding happen
  happen_all [] r = r
  happen_all (e ∷ es) r = happen_all es (happen e r)

  abbrev pub flag : Bool → ℕ
  flag true = 1
  flag false = 0

  -- The flag is set exactly while one upload is under way.
  abbrev pub IsCounted : Run b → Type 0
  IsCounted r = r.waiting ≡ flag r.page.upload_in_progress

  -- Nobody clicks beside the popup during an upload.
  abbrev pub IsPatient : Event b → Run b → Type 0
  IsPatient click_beside r = r.page.upload_in_progress ≡ false
  IsPatient _ r = Unit

  abbrev pub AllPatient : List (Event b) → Run b → Type 0
  AllPatient [] r = Unit
  AllPatient (e ∷ es) r = IsPatient e r × AllPatient es (happen e r)

  ended-IsCounted :
      (out : Option RequestOutput) (r : Run b) (n : ℕ)
      → r.waiting ≡ n
      → IsCounted r
      → IsCounted (ended out r n)
  unfolding end_upload
  ended-IsCounted out r zero e k = k
  ended-IsCounted out r (suc n) e k = elim (Bool-cases r.page.upload_in_progress) [
    | inl busy ↦ let one = ap flag busy in omega (arith, e, k, one)
    | inr free ↦ let one = ap flag free in absurd (omega (arith, e, k, one))
  ]

  happen-IsCounted :
      (e : Event b) (r : Run b) → IsPatient e r → IsCounted r → IsCounted (happen e r)
  unfolding happen start_upload open_add_package_popup close_add_package_popup
      open_remove_package_popup close_remove_package_popup
  happen-IsCounted open_popup r i k = k
  happen-IsCounted press_cancel r i k = ground arith
  happen-IsCounted press_upload r i k = ground arith
  happen-IsCounted click_beside r i k = ground arith
  happen-IsCounted close_remove r i k = k
  happen-IsCounted (open_remove id) r i k = k
  happen-IsCounted (fill new files) r i k = k
  happen-IsCounted (refreshed w) r i k = k
  happen-IsCounted (answered out) r i k = ended-IsCounted out r r.waiting refl k

  counted-le : (r : Run b) → IsCounted r → r.waiting ≤ 1
  counted-le r k = ground arith

  -- From a page whose flag says whether an upload is under way, however clicks and answers are interleaved: as long
  -- as nobody clicks beside the popup during an upload, at most one upload is under way at any time,
  -- and the buttons of the form are disabled exactly while one is.
  pub one_upload :
      (es : List (Event b)) (r : Run b)
      → AllPatient es r
      → IsCounted r
      → ((happen_all es r).waiting ≤ 1) × IsCounted (happen_all es r)
  unfolding happen_all
  one_upload [] r i k = (counted-le r k, k)
  one_upload (e ∷ es) r i k = one_upload es (happen e r) i.1 (happen-IsCounted e r i.0 k)
