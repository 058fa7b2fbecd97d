-- ===== src/Groups/Configure/Steps/Safety.antt =====
-- Which groups the requests of `configureGroup` are for.
use rdfm.Base.{ℕ, Option, none, some, List, [], ◌∷◌, ◌≡◌, refl}
use mathlib.Core.List.{Memᴰ}
use rdfm.Utils.Model.{update, group, Group}
use rdfm.Utils.World.{Browser, World}
use rdfm.Utils.Access.Granted.{Granted}
use rdfm.Groups.Page.{Page}
use rdfm.Groups.View.{group_row}
use rdfm.Groups.View.Laws.{group_row-Granted}
use rdfm.Groups.Configure.Steps.{
  Call, Happening, event, configure, cancel, open_group, type_priority, choose_policy,
  click_package, click_device, answered, refreshed, happen_all, idle,
}
use rdfm.Groups.Configure.Steps.Kept.{IsOpenFor, OpensOwn, AllOpenOwn, calls-kept}

module _ (b : Browser) where
  -- The number of one group.
  abbrev pub IsNumber : ℕ → Option ℕ → Type 0
  IsNumber id o = o ≡ some id

  -- On a page whose configuration, if one is open, is that of the group: as long as the popup is
  -- opened for no other group, whatever else happens and however many calls of `configureGroup`
  -- overlap, all the requests that they send are for the group.
  pub calls-own :
      (id : ℕ) (hs : List (Happening b)) (p : Page b)
      → IsOpenFor b (IsNumber id) p
      → AllOpenOwn b (IsNumber id) hs
      → (c : Call) → Memᴰ c (happen_all b hs (idle b p)).calls
      → c.group ≡ some id
  calls-own id hs p = calls-kept b (IsNumber id) hs p

  module _ (w : World b) (gs : List Group) where
    -- A group that the user may update.
    abbrev pub MayUpdate : Option ℕ → Type 0
    MayUpdate o = (id : ℕ) × (o ≡ some id) × Granted w.admin_roles w.permissions gs update group id

    -- The popup is opened only from rows that offer it.
    abbrev pub IsOffered : Happening b → Type 0
    IsOffered (event (open_group g)) = (group_row b w g).configure ≡ some g
    IsOffered _ = Unit

    abbrev pub AllOffered : List (Happening b) → Type 0
    AllOffered [] = Unit
    AllOffered (h ∷ hs) = IsOffered h × AllOffered hs

    IsOffered-OpensOwn : (h : Happening b) → IsOffered h → OpensOwn b MayUpdate h
    IsOffered-OpensOwn (event (open_group g)) o = (g.id, refl, (group_row-Granted b w g gs).0.0 o)
    IsOffered-OpensOwn (event configure) o = tt
    IsOffered-OpensOwn (event cancel) o = tt
    IsOffered-OpensOwn (event (type_priority s)) o = tt
    IsOffered-OpensOwn (event (choose_policy s)) o = tt
    IsOffered-OpensOwn (event (click_package k)) o = tt
    IsOffered-OpensOwn (event (click_device k)) o = tt
    IsOffered-OpensOwn (event (answered k out)) o = tt
    IsOffered-OpensOwn (refreshed v) o = tt

    AllOffered-AllOpenOwn : (hs : List (Happening b)) → AllOffered hs → AllOpenOwn b MayUpdate hs
    AllOffered-AllOpenOwn [] o = tt
    AllOffered-AllOpenOwn (h ∷ hs) o = (IsOffered-OpensOwn h o.0, AllOffered-AllOpenOwn hs o.1)

    -- From a page on which no configuration is open, for a user whose roles and permissions are
    -- those of `w` throughout: if the popup is opened only from rows of groups that offer to
    -- configure them, then every request that any call of `configureGroup` sends, whatever happens
    -- in between, is for a group whose update is granted to the user.
    pub calls-Granted :
        (hs : List (Happening b)) (p : Page b)
        → p.initial ≡ none
        → AllOffered hs
        → (c : Call) → Memᴰ c (happen_all b hs (idle b p)).calls
        → (id : ℕ) × (c.group ≡ some id) × Granted w.admin_roles w.permissions gs update group id
    calls-Granted hs p closed o =
        calls-kept b MayUpdate hs p (λ i e. cc) (AllOffered-AllOpenOwn hs o)
