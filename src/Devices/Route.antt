-- ===== src/Devices/Route.antt =====
-- frontend/src/components/devices/Device.vue: which device the page's address means.
-- `decodeURIComponent`, which may throw, is the parameter `decode`, and `Number` of a text of digits `number`.
pub mod Laws
use Prim.Native.Char.{Char, code}
use Prim.Native.String
use rdfm.Base.{
  ℕ, zero, suc, ◌==◌, nat_eq, string_eq, String, Bool, true, false, not, ◌&&◌, ◌||◌, leb,
}
use rdfm.Base.{Option, none, some, List, [], ◌∷◌, if◌then◌else◌, find}
use rdfm.Utils.Model.{RegisteredDevice}

abbrev between : ℕ → ℕ → ℕ → Bool
between low high n = leb low n && leb n high

-- `[0-9A-Fa-f]`
unfoldable pub is_hex : Char → Bool
is_hex c = between 48 57 (code c) || (between 65 70 (code c) || between 97 102 (code c))

-- `[:-]`
unfoldable pub is_separator : Char → Bool
is_separator c = code c == 58 || code c == 45

-- n times two digits and a separator, then two digits, then the end.
unfoldable pub is_mac_from : ℕ → String → Bool
unfolding is_hex is_separator
is_mac_from zero (String.◌∷◌ c (String.◌∷◌ d String.[])) = is_hex c && is_hex d
is_mac_from (suc n) (String.◌∷◌ c (String.◌∷◌ d (String.◌∷◌ s rest))) =
    is_hex c && (is_hex d && (is_separator s && is_mac_from n rest))
is_mac_from _ _ = false

-- `MAC_ADDR_REGEX`
unfoldable pub is_mac : String → Bool
unfolding is_mac_from
is_mac = is_mac_from 5

all_digits : String → Bool
all_digits String.[] = true
all_digits (String.◌∷◌ c s) = between 48 57 (code c) && all_digits s

-- `/^\d+$/`
pub is_number : String → Bool
unfolding all_digits
is_number String.[] = false
is_number (String.◌∷◌ c s) = all_digits (String.◌∷◌ c s)

pub data Pattern : Type 0 where
  mac_address name id : Pattern

-- The device, if there is one, and the pattern tried last.
abbrev pub Found : Type 0
Found = Option RegisteredDevice × Pattern

-- The search by name, with the decoded text. The text is decoded for each device that is compared,
-- hence not for an empty list; if that throws, there is no result.
abbrev pub named_by : Option String → List RegisteredDevice → Option Found
named_by decoded [] = some (none, name)
named_by none (d ∷ devices) = none
named_by (some text) (d ∷ devices) = some (find (λ e. e.name == text) (d ∷ devices), name)

-- `decode` is none where `decodeURIComponent` throws.
module _ (decode : String → Option String) (number : String → ℕ) where
  unfoldable pub by_mac_or_name : String → List RegisteredDevice → Option Found
  unfolding is_mac
  by_mac_or_name route_id devices =
      if is_mac route_id
      then some (find (λ d. d.mac_address == route_id) devices, mac_address)
      else named_by (decode route_id) devices

  -- `if (!foundDevice && /^\d+$/g.test(routeId)) …`
  unfoldable pub or_by_id : String → List RegisteredDevice → Option Found → Option Found
  unfolding is_number
  or_by_id route_id devices none = none
  or_by_id route_id devices (some (some d, pattern)) = some (some d, pattern)
  or_by_id route_id devices (some (none, pattern)) =
      if is_number route_id
      then some (find (λ d. d.id == number route_id) devices, id)
      else some (none, pattern)

  -- None where the callback throws.
  unfoldable pub find_by_route : String → List RegisteredDevice → Option Found
  unfolding by_mac_or_name or_by_id
  find_by_route route_id devices = or_by_id route_id devices (by_mac_or_name route_id devices)
