-- ===== src/Components/DownloadButton.antt =====
-- frontend/src/components/DownloadButton.vue: opening or copying the link to a package or a file.
pub mod Laws
use rdfm.Base.{ℕ, ◌==◌, nat_eq, string_eq, String, Bool, true, false, Option, none, some, List, ◌∷◌}
use rdfm.Base.{if◌then◌else◌, Exec}
use rdfm.Utils.Model.{RequestOutput}
use rdfm.Utils.Form.{is_falsy, is_falsy_number, or_text, number_value, text_value}
use rdfm.Utils.World.{Browser, World}
use rdfm.Utils.Notifications.{notify_error, notify_success}
use rdfm.Packages.Requests.{download_package_request}

-- The props: one of them is given.
pub record Props : Type 0 where
  pub resource : Option ℕ
  pub url : Option String

module _ (b : Browser) where
  abbrev window_open : String → World b → World b
  window_open url w = record w { windows = url ∷ w.windows }

  abbrev no_link : Option String → World b → World b
  no_link message w =
      notify_error b "Error when downloading the package:"
        (some (or_text message "Could not get the download link")) w

  -- `if (!success || !message) { …; throw … }; return message`: `none` is the exception.
  abbrev link_of : Bool → Option String → Exec (World b) (Option String)
  link_of true (some link) w = if link == "" then (none, no_link (some link) w) else (some link, w)
  link_of _ message w = (none, no_link message w)

  pub get_package_download_url : ℕ → Exec (World b) (Option String)
  get_package_download_url id w =
      let r = download_package_request b id w in link_of r.0.success r.0.message r.1

  abbrev open_link : Option String × World b → World b
  open_link (none, w) = w
  open_link (some link, w) = window_open link w

  -- `else if (props.url) window.open(props.url)`
  abbrev open_url : Option String → World b → World b
  open_url none w = w
  open_url (some url) w = if url == "" then w else window_open url w

  -- A resource of 0 counts as none.
  pub download : Props → World b → World b
  unfolding get_package_download_url
  download p w =
      if is_falsy_number p.resource
      then open_url p.url w
      else open_link (get_package_download_url (number_value p.resource) w)

  abbrev copied : Option String × World b → Option String × World b
  copied (none, w) = (none, w)
  copied (some link, w) = (some link, notify_success b "Download link copied!" none w)

  -- What is written to the clipboard, if anything.
  pub copy_download_link : Props → Exec (World b) (Option String)
  unfolding get_package_download_url
  copy_download_link p w = copied (
      if is_falsy p.url
      then get_package_download_url (number_value p.resource) w
      else (some (text_value p.url), w))
