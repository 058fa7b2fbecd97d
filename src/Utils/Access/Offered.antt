-- ===== src/Utils/Access/Offered.antt =====
-- When a button is offered that stands under a test of `allowedTo`.
use rdfm.Base.{ℕ, String, ◌≡◌, ◌↔◌, refl, arith, Bool, true, false, ◌&&◌, Option, none, some, List}
use rdfm.Utils.Model.{Verb, Kind, Permission, Group}
use rdfm.Utils.Access.{allowed_to, offered}
use rdfm.Utils.Access.Granted.{
  Direct, Granted, allowed_to_iff_Granted, allowed_directly_sound, allowed_directly_complete,
}

-- Of two tests, one after the other.
pub and_iff :
    {P Q : Type 0} (x y : Bool) → (x ≡ true) ↔ P → (y ≡ true) ↔ Q → ((x && y) ≡ true) ↔ (P × Q)
and_iff true y h k = (λ e. (h.0 refl, k.0 e), λ pq. k.1 pq.1)
and_iff false y h k = (λ e. absurd (ground (arith, e)), λ pq. h.1 pq.0)

pub offered_iff :
    {A P : Type 0} (test : Bool) (a : A) → (test ≡ true) ↔ P → (offered test a ≡ some a) ↔ P
offered_iff true a h = (λ e. h.0 refl, λ x. refl)
offered_iff false a h = (λ e. cc e, λ x. absurd (ground (arith, h.1 x)))

module _ (admin_roles : List String) (permissions : List Permission) (verb : Verb) (kind : Kind)
    (id : ℕ) where
  pub offered-Granted :
      (groups : Option (List Group)) (gs : List Group)
      → groups ≡ some gs
      → (offered (allowed_to admin_roles permissions verb kind (some id) groups) id ≡ some id)
        ↔ Granted admin_roles permissions gs verb kind id
  offered-Granted groups gs loaded =
      rw loaded (offered_iff _ id (allowed_to_iff_Granted admin_roles permissions gs verb kind id))

  -- Without the groups, what is granted through a group does not count.
  pub allowed_to-Direct :
      (allowed_to admin_roles permissions verb kind (some id) none ≡ true)
      ↔ Direct admin_roles permissions verb kind id
  unfolding allowed_to
  allowed_to-Direct = (
    allowed_directly_sound admin_roles permissions verb kind id,
    allowed_directly_complete admin_roles permissions,
  )

  pub offered-Direct :
      {A : Type 0} (a : A)
      → (offered (allowed_to admin_roles permissions verb kind (some id) none) a ≡ some a)
        ↔ Direct admin_roles permissions verb kind id
  offered-Direct a = offered_iff _ a allowed_to-Direct
