-- ===== src/Utils/Access.antt =====
-- Roles and permissions in utils.ts: what the user interface offers to the user. The refs
-- `adminRoles` and `permissions` are the section's parameters.
pub mod Granted
pub mod Offered
use rdfm.Base.{ℕ, String, ◌==◌, Eq, nat_eq, string_eq, Bool, true, false, ◌&&◌, ◌||◌}
use rdfm.Base.{
  Option, none, some, List, [], ◌∷◌, ◌≡◌, ◌↔◌, arith, if◌then◌else◌, any, filter, includes,
}
use rdfm.Utils.Model.{Verb, read, Kind, pckg, group, device, Permission, Group}

pub data AdminRole : Type 0 where
  rw_all ro upload_rootfs_image upload_single_file upload_nonstandard_artifact : AdminRole
  create_group : AdminRole

abbrev pub role_name : AdminRole → String
role_name rw_all = "rdfm_admin_rw"
role_name ro = "rdfm_admin_ro"
role_name upload_rootfs_image = "rdfm_upload_rootfs_image"
role_name upload_single_file = "rdfm_upload_single_file"
role_name upload_nonstandard_artifact = "rdfm_upload_nonstandard_artifact"
role_name create_group = "rdfm_create_group"

abbrev verb_beq : Verb → Verb → Bool
verb_beq Verb.read Verb.read = true
verb_beq Verb.update Verb.update = true
verb_beq Verb.delete Verb.delete = true
verb_beq Verb.shell Verb.shell = true
verb_beq _ _ = false

abbrev kind_beq : Kind → Kind → Bool
kind_beq Kind.pckg Kind.pckg = true
kind_beq Kind.group Kind.group = true
kind_beq Kind.device Kind.device = true
kind_beq _ _ = false

pub verb_beq_iff : (a b : Verb) → (verb_beq a b ≡ true) ↔ (a ≡ b)
verb_beq_iff a b = ground arith

pub kind_beq_iff : (a b : Kind) → (kind_beq a b ≡ true) ↔ (a ≡ b)
kind_beq_iff a b = ground arith

instance abbrev pub verb_eq : Eq Verb
verb_eq = record { beq = verb_beq; beq_iff = verb_beq_iff }

instance abbrev pub kind_eq : Eq Kind
kind_eq = record { beq = kind_beq; beq_iff = kind_beq_iff }

-- `id == n`, where `id` may be undefined.
abbrev pub id_is : Option ℕ → ℕ → Bool
id_is none n = false
id_is (some i) n = i == n

-- A button that is shown under a test, by what it gives to its handler.
abbrev pub offered : {A : Type 0} → Bool → A → Option A
offered true a = some a
offered false a = none

module _ (admin_roles : List String) (permissions : List Permission) where
  pub has_permission : Verb → Kind → Option ℕ → Bool
  has_permission verb kind id =
      any (λ p. p.resource == kind && id_is id p.resource_id && verb == p.permission) permissions

  unfoldable pub has_admin_role : AdminRole → Bool
  has_admin_role r = includes admin_roles (role_name r)

  pub has_upload_access : Bool
  has_upload_access =
      any (λ r. includes admin_roles (role_name r))
        (rw_all ∷ upload_rootfs_image ∷ upload_single_file ∷ upload_nonstandard_artifact ∷ [])

  -- `allowedTo` with no groups given, as it calls itself.
  pub allowed_directly : Verb → Kind → Option ℕ → Bool
  unfolding has_permission has_admin_role
  allowed_directly verb kind id =
      (has_admin_role rw_all || (has_admin_role ro && verb == read)) || has_permission verb kind id

  -- the test of the filter over the groups
  holds_resource : Kind → ℕ → Group → Bool
  holds_resource kind id g =
      (kind == pckg && includes g.packages id) || (kind == device && includes g.devices id)

  has_group_permission : Verb → Kind → ℕ → List Group → Bool
  unfolding holds_resource allowed_directly
  has_group_permission verb kind id groups =
      any (λ g. allowed_directly verb group (some g.id)) (filter (holds_resource kind id) groups)

  pub allowed_to : Verb → Kind → Option ℕ → Option (List Group) → Bool
  unfolding has_group_permission
  allowed_to verb kind (some id) (some groups) =
      allowed_directly verb kind (some id) || has_group_permission verb kind id groups
  allowed_to verb kind id groups = allowed_directly verb kind id
