-- ===== src/Devices/Route/Laws.antt =====
-- The device that an address finds, and the addresses that find none or make the search throw.
use mathlib.Core.List.{Memᴰ}
use rdfm.Base.{ℕ, nat_eq, string_eq, String, Option, true, false, none, some}
use rdfm.Base.{[]}
use rdfm.Base.{List, ◌≡◌}
use rdfm.Utils.Model.{RegisteredDevice}
use rdfm.Devices.Route.{is_mac, is_number, Pattern, mac_address, name, id, Found}

module _ (decode : String → Option String) (number : String → ℕ) where
  -- What each pattern compares, where it is tried.
  pub data Matches (route_id : String) (d : RegisteredDevice) : Pattern → Type 0 where
    same_mac : is_mac route_id ≡ true → d.mac_address ≡ route_id → Matches route_id d mac_address
    same_name : is_mac route_id ≡ false → decode route_id ≡ some d.name → Matches route_id d name
    same_id : is_number route_id ≡ true → d.id ≡ number route_id → Matches route_id d id

  -- A device of the list by its address or its name; else, no device having these, one by its
  -- id; else no device of the list matches in any way; or the search throws.
  pub data Finds (route_id : String) (devices : List RegisteredDevice) (r : Option Found)
      : Type 0 where
    by_mac :
        (d : RegisteredDevice)
        → r ≡ some (some d, mac_address)
        → Memᴰ d devices
        → Matches route_id d mac_address
        → Finds route_id devices r
    by_name :
        (d : RegisteredDevice)
        → r ≡ some (some d, name)
        → Memᴰ d devices
        → Matches route_id d name
        → Finds route_id devices r
    by_id :
        (d : RegisteredDevice)
        → r ≡ some (some d, id)
        → Memᴰ d devices
        → Matches route_id d id
        → ((e : RegisteredDevice) → Memᴰ e devices → ¬ Matches route_id e mac_address)
        → ((e : RegisteredDevice) → Memᴰ e devices → ¬ Matches route_id e name)
        → Finds route_id devices r
    -- An address that is no MAC address and cannot be decoded, where there is a device to compare.
    threw :
        r ≡ none
        → is_mac route_id ≡ false
        → decode route_id ≡ none
        → ¬ (devices ≡ [])
        → Finds route_id devices r
    missing :
        (pattern : Pattern)
        → r ≡ some (none, pattern)
        → ((e : RegisteredDevice) (by : Pattern) → Memᴰ e devices → ¬ Matches route_id e by)
        → Finds route_id devices r

  -- No device has the address or the name.
  record NoneDirect (route_id : String) (devices : List RegisteredDevice) : Type 0 where
    no_mac : (e : RegisteredDevice) → Memᴰ e devices → ¬ Matches route_id e mac_address
    no_name : (e : RegisteredDevice) → Memᴰ e devices → ¬ Matches route_id e name
