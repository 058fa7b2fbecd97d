-- ===== src/Utils/Access/Granted.antt =====
-- When the interface offers an operation, said without the code: by a role, by a permission on the
-- resource itself, or by one on a group that holds it.
use mathlib.Core.List.{Memᴰ}
use rdfm.Base.{ℕ, String, ◌==◌, nat_eq, string_eq, true, ◌&&◌, inl, inr}
use rdfm.Base.{some, List, ◌≡◌, ◌↔◌, arith, filter, includes}
use rdfm.Base.{Bool-cases, any_sound, any_complete, includes_iff, includes_complete}
use rdfm.Base.{mem_of_mem-filter, mem-filter_of_mem}
use rdfm.Utils.Model.{Verb, read, Kind, pckg, group, device, Permission, Group}
use rdfm.Utils.Access.{rw_all, ro, role_name, verb_eq, kind_eq, verb_beq_iff, kind_beq_iff}
use rdfm.Utils.Access.{has_permission, holds_resource, allowed_directly}
use rdfm.Utils.Access.{has_group_permission, allowed_to}

-- `p` permits `verb` on the resource `id` of the kind `kind`.
pub record Permits (p : Permission) (verb : Verb) (kind : Kind) (id : ℕ) : Type 0 where
  pub verb_is : p.permission ≡ verb
  pub kind_is : p.resource ≡ kind
  pub id_same : p.resource_id ≡ id

pub data Holds (g : Group) (id : ℕ) : Kind → Type 0 where
  a_package : Memᴰ id g.packages → Holds g id pckg
  a_device : Memᴰ id g.devices → Holds g id device

module _ (admin_roles : List String) (permissions : List Permission) where
  -- By a role, or by a permission on the resource itself.
  pub data Direct (verb : Verb) (kind : Kind) (id : ℕ) : Type 0 where
    as_admin : Memᴰ "rdfm_admin_rw" admin_roles → Direct verb kind id
    as_reader : Memᴰ "rdfm_admin_ro" admin_roles → verb ≡ read → Direct verb kind id
    by_permission :
        (p : Permission) → Memᴰ p permissions → Permits p verb kind id → Direct verb kind id

  -- Or through a group that holds the resource, where the group itself is granted.
  pub data Granted (groups : List Group) (verb : Verb) (kind : Kind) (id : ℕ) : Type 0 where
    on_resource : Direct verb kind id → Granted groups verb kind id
    through_group :
        (g : Group)
        → Memᴰ g groups
        → Holds g id kind
        → Direct verb group g.id
        → Granted groups verb kind id

  has_permission_sound :
      (verb : Verb) (kind : Kind) (id : ℕ)
      → has_permission admin_roles permissions verb kind (some id) ≡ true
      → (p : Permission) × Memᴰ p permissions × Permits p verb kind id
  unfolding has_permission
  has_permission_sound verb kind id h =
      let (p, m, t) = any_sound _ permissions h in
      (p, m, ground (arith, kind_beq_iff p.resource kind, verb_beq_iff verb p.permission))

  has_permission_complete :
      (verb : Verb) (kind : Kind) (id : ℕ) (p : Permission)
      → Memᴰ p permissions
      → Permits p verb kind id
      → has_permission admin_roles permissions verb kind (some id) ≡ true
  unfolding has_permission
  has_permission_complete verb kind id p m h =
      any_complete _ permissions m
        (ground (arith, kind_beq_iff p.resource kind, verb_beq_iff verb p.permission))

  pub allowed_directly_sound :
      (verb : Verb) (kind : Kind) (id : ℕ)
      → allowed_directly admin_roles permissions verb kind (some id) ≡ true
      → Direct verb kind id
  unfolding allowed_directly
  allowed_directly_sound verb kind id h =
      elim (Bool-cases (includes admin_roles (role_name rw_all))) [
        | inl admin ↦ as_admin ((includes_iff admin_roles _).0 admin)
        | inr plain ↦ elim (Bool-cases (includes admin_roles (role_name ro) && verb == read)) [
          | inl reader ↦
              as_reader ((includes_iff admin_roles _).0 (ground arith))
                (ground (arith, verb_beq_iff verb read))
          | inr other ↦
              let (p, m, t) = has_permission_sound verb kind id (ground arith) in
              by_permission p m t
        ]
      ]

  holds_resource_sound :
      (kind : Kind) (id : ℕ) (g : Group)
      → holds_resource admin_roles permissions kind id g ≡ true
      → Holds g id kind
  unfolding holds_resource
  holds_resource_sound pckg id g h = a_package ((includes_iff g.packages id).0 (ground arith))
  holds_resource_sound device id g h = a_device ((includes_iff g.devices id).0 (ground arith))
  holds_resource_sound group id g h = cc

  holds_resource_complete :
      {kind : Kind} {id : ℕ} (g : Group)
      → Holds g id kind
      → holds_resource admin_roles permissions kind id g ≡ true
  unfolding holds_resource
  holds_resource_complete {id} g (a_package m) = rw ((includes_iff g.packages id).1 m)
  holds_resource_complete {id} g (a_device m) = rw ((includes_iff g.devices id).1 m)

  pub allowed_directly_complete :
      {verb : Verb} {kind : Kind} {id : ℕ}
      → Direct verb kind id
      → allowed_directly admin_roles permissions verb kind (some id) ≡ true
  unfolding allowed_directly
  allowed_directly_complete (as_admin m) =
      ground (arith, includes_complete admin_roles (role_name rw_all) m)
  allowed_directly_complete {verb} (as_reader m e) =
      ground (arith, includes_complete admin_roles (role_name ro) m, verb_beq_iff verb read)
  allowed_directly_complete {verb} {kind} {id} (by_permission p m t) =
      ground (arith, has_permission_complete verb kind id p m t)

  has_group_permission_sound :
      (groups : List Group) (verb : Verb) (kind : Kind) (id : ℕ)
      → has_group_permission admin_roles permissions verb kind id groups ≡ true
      → Granted groups verb kind id
  unfolding has_group_permission
  has_group_permission_sound groups verb kind id h =
      let (g, m, t) =
        any_sound _ (filter (holds_resource admin_roles permissions kind id) groups) h in
      let (listed, held) = mem_of_mem-filter _ groups g m in
      through_group g listed (holds_resource_sound kind id g held)
        (allowed_directly_sound verb group g.id t)

  has_group_permission_complete :
      {verb : Verb} {kind : Kind} {id : ℕ} (groups : List Group) (g : Group)
      → Memᴰ g groups
      → Holds g id kind
      → Direct verb group g.id
      → has_group_permission admin_roles permissions verb kind id groups ≡ true
  unfolding has_group_permission
  has_group_permission_complete groups g m held d =
      any_complete _ _ (mem-filter_of_mem _ groups m (holds_resource_complete g held))
        (allowed_directly_complete d)

  allowed_to_sound :
      (groups : List Group) (verb : Verb) (kind : Kind) (id : ℕ)
      → allowed_to admin_roles permissions verb kind (some id) (some groups) ≡ true
      → Granted groups verb kind id
  unfolding allowed_to
  allowed_to_sound groups verb kind id h =
      elim (Bool-cases (allowed_directly admin_roles permissions verb kind (some id))) [
        | inl direct ↦ on_resource (allowed_directly_sound verb kind id direct)
        | inr other ↦ has_group_permission_sound groups verb kind id (rw other at h)
      ]

  allowed_to_complete :
      {groups : List Group} {verb : Verb} {kind : Kind} {id : ℕ}
      → Granted groups verb kind id
      → allowed_to admin_roles permissions verb kind (some id) (some groups) ≡ true
  unfolding allowed_to
  allowed_to_complete (on_resource d) = rw (allowed_directly_complete d)
  allowed_to_complete {groups} (through_group g m held d) =
      ground (arith, has_group_permission_complete groups g m held d)

  -- `allowedTo` for an identified resource, given the groups, is true exactly when the roles or
  -- the permissions grant the operation: on the resource itself, or on a group that holds it.
  pub allowed_to_iff_Granted :
      (groups : List Group) (verb : Verb) (kind : Kind) (id : ℕ)
      → (allowed_to admin_roles permissions verb kind (some id) (some groups) ≡ true)
        ↔ Granted groups verb kind id
  allowed_to_iff_Granted groups verb kind id =
      (allowed_to_sound groups verb kind id, allowed_to_complete)
