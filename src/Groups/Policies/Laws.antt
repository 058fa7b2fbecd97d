-- ===== src/Groups/Policies/Laws.antt =====
-- Which policies are offered, and when the user is warned.
use mathlib.Core.List.{Memᴰ}
use rdfm.Base.{any-sort, ℕ, ◌+◌, ◌==◌, nat_eq, string_eq, eq_iff, String, ◌<>◌, true, false, not}
use rdfm.Base.{Option, none, some, List, [], ◌∷◌, ◌≡◌, ◌≢◌, ◌↔◌, refl, ap, ◌∙◌, arith}
use rdfm.Base.{
  map, filter, all, includes, if◌then◌else◌, count_char, includes-filter, all_sound, all_complete,
}
use rdfm.Base.{mem-filter_of_mem, mem_of_mem-filter, count_char-append}
use rdfm.Utils.Model.{Package, RegisteredDevice}
use rdfm.Utils.World.{Browser}
use rdfm.Groups.Requests.{is_malformed}
use rdfm.Groups.Requests.Policy.{is_malformed_iff}
use rdfm.Groups.Page.{Page}
use rdfm.Groups.Policies.{
  is_version, policy_arg, version_of, type_of, device_type_of, loosely_same, fits_none, warns,
  version_eq, same_version_iff, distinct, exact_choice, precedes, sorted, selected_packages,
  selected_devices, unapplicable_policy_warning, available_versions,
}

includes-distinct :
    (vs : List (Option String)) (v : Option String) → includes (distinct vs) v ≡ includes vs v
unfolding distinct
includes-distinct [] v = refl
includes-distinct (w ∷ vs) v = ground (
  arith,
  includes-filter (λ x. not (x == w)) (distinct vs) v,
  includes-distinct vs v,
  same_version_iff w v,
  same_version_iff v w,
)

module _ (b : Browser) where
  includes-sorted :
      (vs : List (Option String)) (v : Option String) → includes (sorted b vs) v ≡ includes vs v
  unfolding sorted
  includes-sorted vs v = any-sort (λ x. x == v) (precedes b) vs

-- How often a version is in a list.
abbrev pub occurrences : Option String → List (Option String) → ℕ
occurrences v [] = 0
occurrences v (w ∷ ws) = (if w == v then 1 else 0) + occurrences v ws

occurrences-filter :
    (w v : Option String) (vs : List (Option String))
    → occurrences v (filter (λ x. not (x == w)) vs) ≡ (if w == v then 0 else occurrences v vs)
occurrences-filter w v [] = ground arith
occurrences-filter w v (x ∷ vs) = ground (
  arith,
  occurrences-filter w v vs,
  same_version_iff w v,
  same_version_iff x w,
  same_version_iff x v,
)

occurrences-distinct :
    (vs : List (Option String)) (v : Option String)
    → occurrences v (distinct vs) ≡ (if includes vs v then 1 else 0)
unfolding distinct
occurrences-distinct [] v = refl
occurrences-distinct (w ∷ vs) v =
    ground (arith, occurrences-filter w v (distinct vs), occurrences-distinct vs v)

-- The policy that is offered for a version is well-formed for `updatePolicyRequest` exactly when
-- the version has no comma.
pub exact_choice_iff :
    (version : String)
    → (is_malformed (exact_choice (some version)).id ≡ false) ↔ (count_char b',' version ≡ 0)
unfolding exact_choice count_char
exact_choice_iff version = ground (
  arith,
  is_malformed_iff ("exact_match," <> version),
  count_char-append b',' "exact_match," version,
)

-- No package of the version `arg` fits any of the devices, and there are devices.
pub record Unapplicable (devices : List RegisteredDevice) (packages : List Package) (arg : String)
    : Type 0 where
  pub has_device : devices ≢ []
  pub has_arg : arg ≢ ""
  pub fits_no_device :
      (d : RegisteredDevice) (p : Package)
      → Memᴰ d devices
      → Memᴰ p packages
      → version_of p ≡ some arg
      → loosely_same (type_of p) (device_type_of d) ≡ false

is_version_sound : (o : Option String) (arg : String) → is_version o arg ≡ true → o ≡ some arg
is_version_sound none arg h = cc
is_version_sound (some v) arg h = ap some ((eq_iff v arg).0 h)

fits_none_sound :
    (devices : List RegisteredDevice) (packages : List Package) (arg : String)
    → fits_none devices packages arg ≡ true
    → (d : RegisteredDevice) (p : Package) → Memᴰ d devices
    → Memᴰ p packages
    → version_of p ≡ some arg
    → loosely_same (type_of p) (device_type_of d) ≡ false
unfolding fits_none
fits_none_sound devices packages arg h d p md mp e =
    let hp =
      all_sound _ _ (all_sound _ devices h d md) p
        (mem-filter_of_mem _ packages mp (rw e (ground (arith, eq_iff arg arg)))) in
    ground arith

fits_none_complete :
    (devices : List RegisteredDevice) (packages : List Package) (arg : String)
    → ((d : RegisteredDevice) (p : Package)
        → Memᴰ d devices
        → Memᴰ p packages
        → version_of p ≡ some arg
        → loosely_same (type_of p) (device_type_of d) ≡ false)
    → fits_none devices packages arg ≡ true
unfolding fits_none
fits_none_complete devices packages arg h =
    all_complete
      (λ d.
        all (λ p. not (loosely_same (type_of p) (device_type_of d)))
          (filter (λ p. is_version (version_of p) arg) packages))
      devices
      (λ d md.
        all_complete (λ p. not (loosely_same (type_of p) (device_type_of d)))
          (filter (λ p. is_version (version_of p) arg) packages)
          (λ p mp.
            let (m, t) = mem_of_mem-filter (λ p. is_version (version_of p) arg) packages p mp in
            let e = h d p md m (is_version_sound (version_of p) arg t) in ground arith))

module _ (b : Browser) where
  -- The versions offered to choose from are those of the selected packages, each once.
  pub available_versions-once :
      (p : Page b) (v : Option String)
      → occurrences v (available_versions b p)
        ≡ (if includes (map version_of (selected_packages b p)) v then 1 else 0)
  unfolding available_versions
  available_versions-once p v =
      let vs = map version_of (selected_packages b p) in
      occurrences-distinct (sorted b vs) v ∙ ap (λ t. if t then 1 else 0) (includes-sorted b vs v)

  warns_iff :
      (devices : List RegisteredDevice) (packages : List Package) (arg : String)
      → (warns devices packages (some arg) ≡ true) ↔ Unapplicable devices packages arg
  unfolding warns
  warns_iff [] packages arg = ((λ e. cc e), λ h. absurd (h.has_device refl))
  warns_iff (d ∷ ds) packages arg = (
    λ e. record {
      has_device = λ q. cc q;
      has_arg = λ q. ground (arith, eq_iff arg "");
      fits_no_device = fits_none_sound (d ∷ ds) packages arg (ground arith);
    },
    λ h.
        let f = fits_none_complete (d ∷ ds) packages arg h.fits_no_device in
        let n = h.has_arg in ground (arith, eq_iff arg ""),
  )

  -- Once the policy has an argument, the warning is shown exactly when the argument is not empty,
  -- devices are selected, and no selected package of that version is made for the type of any
  -- selected device.
  pub unapplicable_policy_warning_iff :
      (p : Page b) (arg : String)
      → policy_arg p.configuration.policy ≡ some arg
      → (unapplicable_policy_warning b p ≡ true)
        ↔ Unapplicable (selected_devices b p) (selected_packages b p) arg
  unfolding unapplicable_policy_warning
  unapplicable_policy_warning_iff p arg e =
      rw e (warns_iff (selected_devices b p) (selected_packages b p) arg)
