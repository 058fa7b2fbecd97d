-- ===== src/Tests/Home.antt =====
-- HomeView.vue.
use rdfm.Base.{ℕ, String, false, some, List, [], ◌∷◌, ◌≡◌, lookup, filter}
use rdfm.Home.Events.{
  on_event, on_update, announce_start, announce_end, store_message, set_version, set_progress,
  is_full, is_idle, Message, Event, update, connect, disconnect, Live, on_events,
}
use rdfm.Home.Events.Laws.{IsProper, updates-own, about}
use rdfm.Base.{true, string_eq, insert, erase, has, none, refl, includes, ◌&&◌, split}
use rdfm.Utils.Model.{Claims}
use rdfm.Utils.World.{Browser, World}
use rdfm.Utils.Access.{AdminRole, has_admin_role, role_name}
use rdfm.Utils.Permissions.{stored_claims, parse_jwt, payload_part}
use rdfm.Components.TitleBar.{Props, shown_update, underway, underway_or}
use rdfm.Home.Roles.{mounted}
use rdfm.Home.Roles.Laws.{mounted-has_admin_role}
use rdfm.Session.{starts_with}
use rdfm.Tests.Setup.{browser, first_world}

abbrev live : Live browser
live = record { world = first_world; updates = []; versions = []; connections = [] }

abbrev message : String → ℕ → Message
message device n = record { device = device; version = some "1.0"; progress = some n }

-- The updates of two devices, one of which is finished.
abbrev stream : List Event
stream =
    connect "a"
    ∷ update (message "a" 0)
    ∷ update (message "b" 40)
    ∷ update (message "a" 100)
    ∷ disconnect "a"
    ∷ []

live-IsProper : IsProper live
unfolding lookup
live-IsProper j = (λ e. cc e, λ e. cc e)

updates-own_example :
    lookup "a" (on_events browser stream live).updates
    ≡ lookup "a" (on_events browser (filter (about "a") stream) live).updates
updates-own_example = updates-own browser "a" stream live

abbrev bar : Props
bar = record {
  title = "Device b";
  subtitle = none;
  action_button_name = none;
  has_callback = false;
  device = some "b";
  connected = true;
  small_button_name = none;
}

stream_shown :
    shown_update bar
      (on_events browser stream live).updates
      (on_events browser stream live).versions
    ≡ underway 40 "1.0"
unfolding shown_update underway_or on_events on_event on_update announce_start announce_end
    store_message set_version set_progress is_full is_idle insert lookup erase has
stream_shown = refl

-- A user with one role of the program, and one that it does not know.
abbrev decoded : Claims
decoded = record {
  sub = "u";
  preferred_username = "user";
  roles = "offline_access" ∷ "rdfm_create_group" ∷ [];
}

abbrev reader : Browser
reader = record browser { decode_claims = λ part. some decoded }

abbrev reader_world : World reader
reader_world = record {
  ext = first_world.ext;
  sent = [];
  access_token = some "a.b.c";
  current_path = none;
  hrefs = [];
  windows = [];
  admin_roles = [];
  permissions = [];
  stores = first_world.stores;
  enqueued = [];
  group_headers = first_world.group_headers;
}

reader_claims : stored_claims reader reader_world ≡ some decoded
unfolding stored_claims parse_jwt payload_part split
reader_claims = refl

mounted-has_admin_role_example :
    let v = mounted reader (λ s. []) reader_world in
    ((r : AdminRole)
      → has_admin_role v.admin_roles v.permissions r ≡ includes decoded.roles (role_name r))
    × ((r : String) → includes v.admin_roles r ≡ (includes decoded.roles r && starts_with "rdfm" r))
mounted-has_admin_role_example =
    mounted-has_admin_role reader (λ s. []) reader_world "a.b.c" decoded refl reader_claims
