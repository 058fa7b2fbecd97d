-- ===== src/Devices/Page.antt =====
-- frontend/src/components/devices/DevicesList.vue: the page of devices without a tag, the
-- registration of a pending device and the removal of a device.
use rdfm.Base.{ℕ, ◌+◌, String, Option, none, some, List, if◌then◌else◌, length}
use rdfm.Base.{Exec}
use rdfm.Utils.Model.{RequestOutput}
use rdfm.Utils.Form.{or_text}
use rdfm.Utils.World.{Browser, World, Getter}
use rdfm.Utils.Resources.{fetch_resources}
use rdfm.Utils.Notifications.{notify_error}
use rdfm.Devices.Requests.{
  register_device_request, remove_pending_device_request, remove_device_request,
}

pub data DevicePopupOpen : Type 0 where
  remove_device_popup remove_pending_device_popup no_popup : DevicePopupOpen

-- `pending_device_to_remove` holds the MAC address and the public key.
pub record Page (b : Browser) : Type 0 where
  pub world : World b
  pub popup_open : DevicePopupOpen
  pub device_to_remove : Option ℕ
  pub pending_device_to_remove : Option (String × String)

abbrev size : {A : Type 0} → Option (List A) → ℕ
size none = 0
size (some l) = length l

module _ (b : Browser) where
  -- `if (!success) notifyError(…)`
  abbrev warn : String → String → RequestOutput → World b → World b
  warn headline text out w =
      if out.success then w else notify_error b headline (some (or_text out.message text)) w

  abbrev warned : String → String → Exec (World b) RequestOutput → Page b → Page b
  warned headline text m p = let r = m p.world in record p { world = warn headline text r.0 r.1 }

  pub register_device : String → String → Page b → Page b
  register_device mac key =
      warned "Error when registering device:" "Registration of device failed"
        (register_device_request b mac key)

  pub close_remove_device_popup : Page b → Page b
  close_remove_device_popup p = record p { popup_open = no_popup }

  -- The popups are open only with a device to remove.
  pub remove_pending_device : Page b → Page b
  unfolding close_remove_device_popup
  remove_pending_device p = elim p.pending_device_to_remove [
    | none ↦ p
    | some (mac, key) ↦ close_remove_device_popup (
        warned "Error when removing device:" "Removal of device failed"
          (remove_pending_device_request b mac key) p)
  ]

  pub remove_device : Page b → Page b
  unfolding close_remove_device_popup
  remove_device p = elim p.device_to_remove [
    | none ↦ p
    | some id ↦ close_remove_device_popup (
        warned "Error when removing device:" "Removal of device failed" (remove_device_request b id)
          p)
  ]

  pub open_remove_device_popup : ℕ → Page b → Page b
  open_remove_device_popup id p = record p {
    device_to_remove = some id;
    popup_open = remove_device_popup;
  }

  pub open_remove_pending_device_popup : String → String → Page b → Page b
  open_remove_pending_device_popup mac key p = record p {
    pending_device_to_remove = some (mac, key);
    popup_open = remove_pending_device_popup;
  }

  pub fetch_all : Page b → Page b
  fetch_all p =
      let w₁ = (fetch_resources b Getter.registered_devices p.world).1 in
      let w₂ = (fetch_resources b Getter.pending_devices w₁).1 in
      record p { world = (fetch_resources b Getter.device_groups w₂).1 }

  pub devices_count : Page b → ℕ
  devices_count p =
      size p.world.stores.pending_devices.resources
      + size p.world.stores.registered_devices.resources
