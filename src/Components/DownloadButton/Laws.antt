-- ===== src/Components/DownloadButton/Laws.antt =====
-- The link that is opened is the link that is copied.
use rdfm.Base.{String, Bool, true, false, Option, none, some, List, ◌∷◌, ◌≡◌, refl, ap, ◌∙◌, sym}
use rdfm.Base.{ℕ, ◌==◌, string_eq, Bool-cases, inl, inr, not, arith}
use rdfm.Utils.Form.{is_falsy, is_falsy_number, number_value, text_value}
use rdfm.Utils.World.{Browser, World}
use rdfm.Utils.Notifications.Windows.{windows-notify_error}
use rdfm.Packages.Requests.{download_package_request}
use rdfm.Packages.Requests.Laws.{windows-download_package_request}
use rdfm.Components.DownloadButton.{
  Props, link_of, open_link, get_package_download_url, open_url, download, copied,
  copy_download_link,
}

-- The windows with the link opened, if there is one.
abbrev pub opened : Option String → List String → List String
opened none links = links
opened (some link) links = link ∷ links

module _ (b : Browser) where
  windows-link_of :
      (success : Bool) (message : Option String) (w : World b)
      → (link_of b success message w).1.windows ≡ w.windows
  windows-link_of true (some link) w = elim (Bool-cases (link == "")) [
    | inl e ↦ rw e (windows-notify_error b _ _ w)
    | inr e ↦ rw e refl
  ]
  windows-link_of true none w = windows-notify_error b _ _ w
  windows-link_of false message w = windows-notify_error b _ _ w

  windows-url : (id : ℕ) (w : World b) → (get_package_download_url b id w).1.windows ≡ w.windows
  unfolding get_package_download_url
  windows-url id w =
      let r = download_package_request b id w in
      windows-link_of r.0.success r.0.message r.1 ∙ windows-download_package_request b id w

  windows-open_link :
      (r : Option String × World b) → (open_link b r).windows ≡ opened r.0 r.1.windows
  windows-open_link (none, w) = refl
  windows-open_link (some link, w) = refl

  copied-same : (r : Option String × World b) → (copied b r).0 ≡ r.0
  copied-same (none, w) = refl
  copied-same (some link, w) = refl

  open_url-link :
      (url : Option String) (w : World b)
      → is_falsy url ≡ false
      → (open_url b url w).windows ≡ opened (some (text_value url)) w.windows
  open_url-link none w there = absurd (ground arith)
  open_url-link (some url) w there = rw there refl

  -- A button with a package or with a link, and not with both, opens the link that it copies, if
  -- there is one, and no other window.
  pub download-copy :
      (p : Props) (w : World b)
      → is_falsy_number p.resource ≡ not (is_falsy p.url)
      → (download b p w).windows ≡ opened (copy_download_link b p w).0 w.windows
  unfolding download copy_download_link
  download-copy p w one = elim (Bool-cases (is_falsy_number p.resource)) [
    | inl missing ↦
        let link : is_falsy p.url ≡ false = ground arith in
        rw missing (rw link (open_url-link p.url w link))
    | inr there ↦
        let no_link : is_falsy p.url ≡ true = ground arith in
        let r = get_package_download_url b (number_value p.resource) w in
        rw there (
          rw no_link (
            windows-open_link r
            ∙ ap (opened r.0) (windows-url (number_value p.resource) w)
            ∙ sym (ap (λ o. opened o w.windows) (copied-same r))))
  ]
