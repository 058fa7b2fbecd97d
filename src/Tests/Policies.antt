-- ===== src/Tests/Policies.antt =====
-- The policies of GroupsList.vue.
use rdfm.Base.{ℕ, true, none, some, [], ◌∷◌, ◌≡◌, ◌↔◌, refl}
use rdfm.Base.{split, string_eq}
use rdfm.Utils.Model.{Package}
use rdfm.Utils.World.{num, active_polling}
use rdfm.Groups.Page.{Page, DataEntry, configure_group_popup, no_dropdown, no_group_data}
use rdfm.Groups.Policies.{
  version_eq, selected_packages, selected_devices, policy_arg, unapplicable_policy_warning,
}
use rdfm.Groups.Policies.Laws.{Unapplicable, unapplicable_policy_warning_iff}
use rdfm.Tests.Setup.{browser, first_world, first_stores, board}

abbrev image : ℕ → Package
image id = record {
  id = id;
  created = "";
  sha256 = "";
  driver = "";
  metadata = ("rdfm.software.version", "2") ∷ ("rdfm.hardware.devtype", "other") ∷ [];
}

abbrev row : ℕ → DataEntry
row id = record { id = id; selected = true; columns = [] }

-- Two packages of one version and a board are selected.
abbrev policy_page : Page browser
policy_page = record {
  world = record first_world {
    stores = record first_stores {
      group_packages = record {
        resources = some (image 4 ∷ image 5 ∷ []);
        polling_status = active_polling;
      };
      group_devices = record { resources = some (board ∷ []); polling_status = active_polling };
    };
  };
  popup_open = configure_group_popup;
  new_group_data = no_group_data;
  validation_errors = [];
  group_to_remove = none;
  configuration = record {
    id = some 7;
    priority = some (num 2);
    policy = some "exact_match,2";
    devices = some (3 ∷ []);
    packages = some (4 ∷ 5 ∷ []);
  };
  initial = none;
  package_list = row 4 ∷ row 5 ∷ [];
  device_list = row 3 ∷ [];
  open_dropdown = no_dropdown;
}

arg_is_2 : policy_arg (some "exact_match,2") ≡ some "2"
unfolding policy_arg split
arg_is_2 = refl

unapplicable_policy_warning_iff_example :
    (unapplicable_policy_warning browser policy_page ≡ true)
    ↔ Unapplicable
        (selected_devices browser policy_page)
        (selected_packages browser policy_page)
        "2"
unapplicable_policy_warning_iff_example =
    unapplicable_policy_warning_iff browser policy_page "2" arg_is_2
