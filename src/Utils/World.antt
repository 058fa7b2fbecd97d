-- ===== src/Utils/World.antt =====
-- What stands outside the program, and the state that its modules share.
use rdfm.Base.{ℕ, String, Bool, ◌==◌, string_eq, Option, none, some, List, [], ◌∷◌, if◌then◌else◌}
use rdfm.Base.{◌≡◌, refl, eq_iff, arith}
use rdfm.Utils.Model.{Permission, Shape, Body, Claims}

-- The text of a request's body is JSON, or a form with one file.
mutual
  pub data Json : Type 0 where
    null : Json
    str : String → Json
    num : ℕ → Json
    strs : List String → Json
    nums : List ℕ → Json
    obj : Fields → Json

  pub data Fields : Type 0 where
    end : Fields
    field : String → Json → Fields → Fields

pub data RequestBody : Type 0 where
  empty : RequestBody
  json : Json → RequestBody
  form : List (String × String) → RequestBody

abbrev pub Headers : Type 0
Headers = List (String × String)

-- `headers.set(name, value)`; the names that the program sets do not differ by case alone.
pub set_header : String → String → Headers → Headers
set_header name value [] = (name, value) ∷ []
set_header name value ((n, v) ∷ hs) =
    if n == name then (name, value) ∷ hs else (n, v) ∷ set_header name value hs

pub get_header : String → Headers → Option String
get_header name [] = none
get_header name ((n, v) ∷ hs) = if n == name then some v else get_header name hs

pub record Request : Type 0 where
  pub url : String
  pub method : String
  pub headers : Headers
  pub body : RequestBody

-- How the promise of `fetch` settles: it is rejected, or there is a response with a status and a
-- body, which may fail to parse as JSON.
pub data Reply (A : Type 0) : Type 0 where
  rejected : Reply A
  response : ℕ → Option A → Reply A

pub data ToastKind : Type 0 where
  success error : ToastKind

pub record Toast : Type 0 where
  pub kind : ToastKind
  pub html : String

-- The network, the toast plugin and the configuration. `State` is all that they keep: the server's
-- data, the toasts on the screen. `decode_claims` is `JSON.parse(atob(part))`, which may
-- throw, and `locale_le a b` is `a.localeCompare(b) <= 0`.
pub record Browser : Type 1 where
  pub State : Type 0
  pub fetch : (s : Shape) → Request → State → Reply (Body s) × State
  pub count_toasts : State → ℕ
  pub open_toast : Toast → State → State
  pub decode_claims : String → Option Claims
  pub locale_le : String → String → Bool
  pub server_url : String
  pub login_url : String
  pub logout_url : String
  pub oauth2_client : String
  pub frontend_url : String

pub data PollingStatus : Type 0 where
  initial_poll unreachable_url active_polling : PollingStatus

-- The refs `resources` and `pollingStatus` of one call of `resourcesGetter`.
pub record Resource (A : Type 0) : Type 0 where
  pub resources : Option A
  pub polling_status : PollingStatus

-- One constructor for each call of `resourcesGetter` at the top of a module. devices.ts:
-- `pendingDevicesResources`, `registeredDevicesResources`, `groupResources`; packages.ts:
-- `packageResources`, `groupsResources`; groups.ts: `groupResources`, `packagesResources`,
-- `devicesResources`.
pub data Getter : Type 0 where
  pending_devices registered_devices device_groups : Getter
  packages package_groups : Getter
  groups group_packages group_devices : Getter

abbrev pub shape : Getter → Shape
shape Getter.pending_devices = Shape.pending
shape Getter.registered_devices = Shape.devices
shape Getter.device_groups = Shape.groups
shape Getter.packages = Shape.packages
shape Getter.package_groups = Shape.groups
shape Getter.groups = Shape.groups
shape Getter.group_packages = Shape.packages
shape Getter.group_devices = Shape.devices

pub record Stores : Type 0 where
  pub pending_devices : Resource (Body Shape.pending)
  pub registered_devices : Resource (Body Shape.devices)
  pub device_groups : Resource (Body Shape.groups)
  pub packages : Resource (Body Shape.packages)
  pub package_groups : Resource (Body Shape.groups)
  pub groups : Resource (Body Shape.groups)
  pub group_packages : Resource (Body Shape.packages)
  pub group_devices : Resource (Body Shape.devices)

abbrev pub read : (g : Getter) → Stores → Resource (Body (shape g))
read Getter.pending_devices s = s.pending_devices
read Getter.registered_devices s = s.registered_devices
read Getter.device_groups s = s.device_groups
read Getter.packages s = s.packages
read Getter.package_groups s = s.package_groups
read Getter.groups s = s.groups
read Getter.group_packages s = s.group_packages
read Getter.group_devices s = s.group_devices

abbrev pub write : (g : Getter) → Resource (Body (shape g)) → Stores → Stores
write Getter.pending_devices r s = record s { pending_devices = r }
write Getter.registered_devices r s = record s { registered_devices = r }
write Getter.device_groups r s = record s { device_groups = r }
write Getter.packages r s = record s { packages = r }
write Getter.package_groups r s = record s { package_groups = r }
write Getter.groups r s = record s { groups = r }
write Getter.group_packages r s = record s { group_packages = r }
write Getter.group_devices r s = record s { group_devices = r }

-- `localStorage`, the module-level variables, the requests sent, the pages navigated to and
-- the windows opened, the latest first. `group_headers` is the one `Headers` object that the requests of groups.ts share.
pub record World (b : Browser) : Type 0 where
  pub ext : b.State
  pub sent : List Request
  pub access_token : Option String
  pub current_path : Option String
  pub hrefs : List String
  pub windows : List String
  pub admin_roles : List String
  pub permissions : List Permission
  pub stores : Stores
  pub enqueued : List Toast
  pub group_headers : Headers

-- Reading a header that was set.
pub get_header-set_header :
    (name value other : String) (hs : Headers)
    → get_header other (set_header name value hs)
      ≡ (if name == other then some value else get_header other hs)
unfolding get_header set_header
get_header-set_header name value other [] = refl
get_header-set_header name value other ((n, v) ∷ hs) = ground (
  arith,
  get_header-set_header name value other hs,
  eq_iff n name,
  eq_iff n other,
  eq_iff name other,
)
