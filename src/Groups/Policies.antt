-- ===== src/Groups/Policies.antt =====
-- The update policies that GroupsList.vue offers for a group, and the warning that a policy has no
-- effect: `selectedPackages`, `selectedDevices`, `availablePolicies`, `unapplicablePolicyWarning`.
pub mod Laws
use rdfm.Base.{
  sort, ℕ, ◌==◌, Eq, nat_eq, string_eq, eq_iff, String, ◌<>◌, Bool, true, false, not, ◌&&◌, Option,
}
use rdfm.Base.{
  none, some, List, [], ◌∷◌, ◌++◌, ◌≡◌, ◌↔◌, refl, arith, map, filter, find, all, includes, lookup,
  split,
}
use rdfm.Base.{if◌then◌else◌}
use rdfm.Utils.Model.{Package, RegisteredDevice, MetaValue, text, texts}
use rdfm.Utils.World.{Browser, World}
use rdfm.Utils.Form.{is_falsy, text_value}
use rdfm.Groups.Configure.{selected_ids}
use rdfm.Groups.Requests.{find_package, find_device}
use rdfm.Groups.Page.{Page, field_text}

-- `map(find).filter(Boolean)`
unfoldable pub found_all : {A : Type 0} → (ℕ → Option A) → List ℕ → List A
found_all f [] = []
found_all f (id ∷ ids) = elim (f id) [ none ↦ found_all f ids | some a ↦ a ∷ found_all f ids ]

-- `metadata[...]` of a package; the field may be missing.
abbrev pub version_of : Package → Option String
version_of p = lookup "rdfm.software.version" p.metadata

abbrev pub type_of : Package → Option String
type_of p = lookup "rdfm.hardware.devtype" p.metadata

abbrev pub device_type_of : RegisteredDevice → Option MetaValue
device_type_of d = lookup "rdfm.hardware.devtype" d.metadata

pub join : List String → String
join [] = ""
join (s ∷ []) = s
join (s ∷ t ∷ ss) = s <> "," <> join (t ∷ ss)

-- `a == b`, where an array is compared as its text.
pub loosely_same : Option String → Option MetaValue → Bool
unfolding join
loosely_same none none = true
loosely_same (some s) (some (text t)) = s == t
loosely_same (some s) (some (texts ts)) = s == join ts
loosely_same _ _ = false

-- `policy?.split(',')[1]`
pub second_part : List String → Option String
second_part (head ∷ arg ∷ rest) = some arg
second_part _ = none

unfoldable pub policy_arg : Option String → Option String
unfolding second_part split
policy_arg none = none
policy_arg (some policy) = second_part (split b',' policy)

abbrev pub is_version : Option String → String → Bool
is_version none arg = false
is_version (some v) arg = v == arg

-- The packages of the version, and whether none of them fits any of the devices.
pub fits_none : List RegisteredDevice → List Package → String → Bool
unfolding loosely_same
fits_none devices packages arg =
    let matching = filter (λ p. is_version (version_of p) arg) packages in
    all (λ d. all (λ p. not (loosely_same (type_of p) (device_type_of d))) matching) devices

abbrev none_selected : List RegisteredDevice → Bool
none_selected [] = true
none_selected (d ∷ ds) = false

pub warns : List RegisteredDevice → List Package → Option String → Bool
unfolding fits_none
warns devices packages arg =
    if none_selected devices
    then false
    else if is_falsy arg
    then false
    else fits_none devices packages (text_value arg)

-- One version, or `undefined`.
abbrev pub same_version : Option String → Option String → Bool
same_version none none = true
same_version (some s) (some t) = s == t
same_version _ _ = false

pub same_version_iff : (s t : Option String) → (same_version s t ≡ true) ↔ (s ≡ t)
same_version_iff none none = ground arith
same_version_iff none (some t) = ground arith
same_version_iff (some s) none = ground arith
same_version_iff (some s) (some t) = ground (arith, eq_iff s t)

instance abbrev pub version_eq : Eq (Option String)
version_eq = record { beq = same_version; beq_iff = same_version_iff }

-- `new Set(versions)`: the first of each, in order.
pub distinct : List (Option String) → List (Option String)
distinct [] = []
distinct (v ∷ vs) = v ∷ filter (λ w. not (w == v)) (distinct vs)

pub record PolicyChoice : Type 0 where
  pub id : String
  pub display : String

pub exact_choice : Option String → PolicyChoice
exact_choice version = record {
  id = "exact_match," <> field_text version;
  display = "Match version " <> field_text version;
}

pub no_update_choice : PolicyChoice
no_update_choice = record { id = "no_update,"; display = "No Update" }

module _ (b : Browser) where
  -- `a` before `b`: `sort` puts what is undefined last, and compares the rest by `localeCompare`.
  abbrev pub precedes : Option String → Option String → Bool
  precedes (some s) (some t) = b.locale_le s t
  precedes (some s) none = true
  precedes none (some t) = false
  precedes none none = true

  pub sorted : List (Option String) → List (Option String)
  sorted vs = sort precedes vs

  pub selected_packages : Page b → List Package
  unfolding found_all selected_ids find_package
  selected_packages p = found_all (λ id. find_package b id p.world) (selected_ids p.package_list)

  pub selected_devices : Page b → List RegisteredDevice
  unfolding found_all selected_ids find_device
  selected_devices p = found_all (λ id. find_device b id p.world) (selected_ids p.device_list)

  pub unapplicable_policy_warning : Page b → Bool
  unfolding warns selected_devices selected_packages policy_arg
  unapplicable_policy_warning p =
      warns (selected_devices p) (selected_packages p) (policy_arg p.configuration.policy)

  pub available_versions : Page b → List (Option String)
  unfolding distinct sorted selected_packages
  available_versions p = distinct (sorted (map version_of (selected_packages p)))

  pub available_policies : Page b → List PolicyChoice
  unfolding available_versions exact_choice no_update_choice
  available_policies p = no_update_choice ∷ map exact_choice (available_versions p)
