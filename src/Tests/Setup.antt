-- ===== src/Tests/Setup.antt =====
-- A browser whose server always answers with the same status, and a page that was just loaded.
use rdfm.Base.{ℕ, ◌≤◌, pos, true, none, some, List, [], ◌∷◌, ◌++◌}
use rdfm.Base.{refl, arith, length}
use rdfm.Utils.Model.{Shape, Body, Permission, update, group, Group, RegisteredDevice}
use rdfm.Utils.World.{Browser, World, response, Toast, Stores, Resource, initial_poll, Getter}
use rdfm.Utils.Resources.Laws.{AllConsistent}
use rdfm.Groups.Requests.{first_headers}

-- The toasts on the screen, all that were opened, and the status of every answer.
pub record Screen : Type 0 where
  pub toasts : List Toast
  pub opened : List Toast
  pub status : ℕ

abbrev pub group_permission : Permission
group_permission = record { permission = update; resource = group; resource_id = 7; user_id = "u" }

abbrev pub fleet : Group
fleet = record {
  id = 7;
  created = "";
  packages = 4 ∷ [];
  devices = 3 ∷ [];
  metadata = [];
  policy = "no_update,";
  priority = 2;
}

abbrev pub board : RegisteredDevice
board = record {
  id = 3;
  last_access = "";
  name = "12";
  mac_address = "00:11:22:aa:bb:cc";
  groups = some (7 ∷ []);
  metadata = [];
  capabilities = [];
  public_key = "";
  connected = true;
  progress = none;
}

abbrev answer_body : (s : Shape) → Body s
answer_body Shape.packages = []
answer_body Shape.groups = fleet ∷ []
answer_body Shape.devices = board ∷ []
answer_body Shape.pending = []
answer_body Shape.permissions = group_permission ∷ []
answer_body Shape.actions = []
answer_body Shape.tags = []
answer_body Shape.tasks = []
answer_body Shape.executed = pos 0
answer_body Shape.stored = (pos 0, "file")
answer_body Shape.link = "link"
answer_body Shape.ignored = tt

abbrev pub browser : Browser
browser = record {
  State = Screen;
  fetch = λ s req st. (response st.status (some (answer_body s)), st);
  count_toasts = λ st. length st.toasts;
  open_toast =
      λ t st. record { toasts = t ∷ st.toasts; opened = st.opened ++ t ∷ []; status = st.status };
  decode_claims = λ part. some (record { sub = "u"; preferred_username = "user"; roles = [] });
  locale_le = λ s t. true;
  server_url = "https://server";
  login_url = "https://login";
  logout_url = "https://logout";
  oauth2_client = "client";
  frontend_url = "https://front";
}

abbrev nothing : {A : Type 0} → Resource A
nothing = record { resources = none; polling_status = initial_poll }

abbrev pub first_stores : Stores
first_stores = record {
  pending_devices = nothing;
  registered_devices = nothing;
  device_groups = nothing;
  packages = nothing;
  package_groups = nothing;
  groups = nothing;
  group_packages = nothing;
  group_devices = nothing;
}

pub first_stores-AllConsistent : AllConsistent first_stores
first_stores-AllConsistent Getter.pending_devices = refl
first_stores-AllConsistent Getter.registered_devices = refl
first_stores-AllConsistent Getter.device_groups = refl
first_stores-AllConsistent Getter.packages = refl
first_stores-AllConsistent Getter.package_groups = refl
first_stores-AllConsistent Getter.groups = refl
first_stores-AllConsistent Getter.group_packages = refl
first_stores-AllConsistent Getter.group_devices = refl

abbrev pub world_at : ℕ → World browser
world_at status = record {
  ext = record { toasts = []; opened = []; status = status };
  sent = [];
  access_token = some "a.b.c";
  current_path = none;
  hrefs = [];
  windows = [];
  admin_roles = [];
  permissions = [];
  stores = first_stores;
  enqueued = [];
  group_headers = first_headers;
}

abbrev pub first_world : World browser
first_world = world_at 200

-- The oldest toast fades, or all do.
abbrev tail : List Toast → List Toast
tail [] = []
tail (t ∷ ts) = ts

abbrev pub fade_one : Screen → Screen
fade_one s = record s { toasts = tail s.toasts }

length-tail : (ts : List Toast) → length (tail ts) ≤ length ts
length-tail [] = omega arith
length-tail (t ∷ ts) = omega arith

pub fade_one-le : (s : Screen) → length (fade_one s).toasts ≤ length s.toasts
fade_one-le s = length-tail s.toasts
