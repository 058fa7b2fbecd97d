-- ===== src/Packages/View/Removal.antt =====
-- The removal of a package, from the button in its row to the request: what is removed was granted.
use rdfm.Base.{
  ℕ, true, false, Option, none, some, List, ◌≡◌, ◌≢◌, refl, ap, subst, ◌∙◌, arith, Bool-cases, inl,
  inr,
}
use rdfm.Utils.Model.{delete, pckg, Package, Group, RequestOutput, Shape}
use rdfm.Utils.World.{Browser, World, Getter}
use rdfm.Utils.Endpoints.{delete_package_endpoint}
use rdfm.Utils.Form.{or_text}
use rdfm.Utils.Fetch.{Output, fetch_get, fetch_delete, fetch_once, fetch_wrapper}
use rdfm.Utils.Resources.{fetch_resources, settle, put_resource, go_to, getter_url}
use rdfm.Utils.Command.{refused, accepted, refresh_all}
use rdfm.Utils.Notifications.Windows.{access-notify_success, access-notify_error}
use rdfm.Utils.Access.Granted.{Granted}
use rdfm.Packages.Requests.{remove_package_request}
use rdfm.Packages.Requests.Laws.{remove_package_request-Keeps}
use rdfm.Packages.Page.{
  Page, no_popup, open_add_package_popup, close_add_package_popup, open_remove_package_popup,
  close_remove_package_popup, after_remove, remove_chosen, remove_selected_package,
}
use rdfm.Packages.View.{package_row, is_removing}
use rdfm.Packages.View.Laws.{package_row-Granted}

module _ (b : Browser) where
  -- What decides on access is the same.
  abbrev pub SameAccess : World b → World b → Type 0
  SameAccess w v =
      (v.admin_roles ≡ w.admin_roles)
      × (v.permissions ≡ w.permissions)
      × (v.stores.package_groups ≡ w.stores.package_groups)

  SameAccess-trans : (u v w : World b) → SameAccess u v → SameAccess v w → SameAccess u w
  SameAccess-trans u v w h k = (k.0 ∙ h.0, k.1 ∙ h.1, k.2 ∙ h.2)

  settle-SameAccess :
      (out : Output (List Package)) (w : World b) → SameAccess w (settle b Getter.packages out w)
  unfolding settle put_resource go_to
  settle-SameAccess out w = ground arith

  fetch_packages-SameAccess : (w : World b) → SameAccess w (fetch_resources b Getter.packages w).1
  unfolding fetch_resources fetch_get fetch_once fetch_wrapper
  fetch_packages-SameAccess w =
      let r = fetch_get b Shape.packages (getter_url b.server_url Getter.packages) w in
      settle-SameAccess r.0 r.1

  remove_package_request-SameAccess :
      (id : ℕ) (w : World b) → SameAccess w (remove_package_request b id w).1
  unfolding fetch_delete fetch_once fetch_wrapper refresh_all
  remove_package_request-SameAccess id w =
      let r = fetch_delete b Shape.ignored (delete_package_endpoint b.server_url id) w in
      elim (remove_package_request-Keeps b id w) [
        | refused bad same ↦
            let e = ap (λ x. x.1) same in
            (
              ap (λ v. v.admin_roles) e,
              ap (λ v. v.permissions) e,
              ap (λ v. v.stores.package_groups) e,
            )
        | accepted done same ↦
            let e = ap (λ x. x.1) same in
            let k = fetch_packages-SameAccess r.1 in
            (
              ap (λ v. v.admin_roles) e ∙ k.0,
              ap (λ v. v.permissions) e ∙ k.1,
              ap (λ v. v.stores.package_groups) e ∙ k.2,
            )
      ]

  after_remove-SameAccess :
      (out : RequestOutput) (w : World b) → SameAccess w (after_remove b out w)
  unfolding after_remove
  after_remove-SameAccess out w = elim (Bool-cases out.success) [
    | inl done ↦ rw done (
        let k = access-notify_success b "Package was removed" none w in
        (k.0, k.1, ap (λ s. s.package_groups) k.2))
    | inr bad ↦ rw bad (
        let k =
          access-notify_error b "Error when removing package:"
            (some (or_text out.message "Removing package failed")) w in
        (k.0, k.1, ap (λ s. s.package_groups) k.2))
  ]

  -- What a user can bring about on the page without an upload: the buttons that it offers, and the
  -- ticks of its interval, which ask for the packages.
  pub data Reached (p : Page b) : Page b → Type 0 where
    start : p.package_to_remove ≡ none → p.popup_open ≡ no_popup → Reached p p
    ticked :
        {q : Page b}
        → Reached p q
        → Reached p (record q { world = (fetch_resources b Getter.packages q.world).1 })
    upload_opened : {q : Page b} → Reached p q → Reached p (open_add_package_popup b q)
    upload_cancelled : {q : Page b} → Reached p q → Reached p (close_add_package_popup b q)
    removal_clicked :
        {q : Page b} (k : Package)
        → Reached p q
        → (package_row b q.world k).remove ≡ some k.id
        → Reached p (open_remove_package_popup b k.id q)
    cancelled : {q : Page b} → Reached p q → Reached p (close_remove_package_popup b q)
    confirmed : {q : Page b} → Reached p q → Reached p (remove_selected_package b q)

  module _ (p : Page b) (gs : List Group) where
    -- The package to remove, if there is one, is one that may be deleted.
    pub record IsPermitted (q : Page b) : Type 0 where
      pub same : SameAccess p.world q.world
      pub granted :
          (id : ℕ)
          → q.package_to_remove ≡ some id
          → Granted p.world.admin_roles p.world.permissions gs delete pckg id
      pub chosen : is_removing q.popup_open ≡ true → q.package_to_remove ≢ none

    IsPermitted-closed :
        (q : Page b)
        → SameAccess p.world q.world
        → q.package_to_remove ≡ none
        → is_removing q.popup_open ≡ false
        → IsPermitted q
    IsPermitted-closed q same nothing shut = record {
      same = same;
      granted = λ id e. absurd (ground (arith, nothing, e));
      chosen = λ e. absurd (ground (arith, shut, e));
    }

    remove_chosen-IsPermitted :
        (o : Option ℕ) (q : Page b) → IsPermitted q → IsPermitted (remove_chosen b o q)
    unfolding remove_chosen close_remove_package_popup
    remove_chosen-IsPermitted none q h = h
    remove_chosen-IsPermitted (some id) q h =
        let r = remove_package_request b id q.world in
        IsPermitted-closed
          (close_remove_package_popup b (record q { world = after_remove b r.0 r.1 }))
          (SameAccess-trans p.world r.1 (after_remove b r.0 r.1)
            (SameAccess-trans p.world q.world r.1 h.same
              (remove_package_request-SameAccess id q.world))
            (after_remove-SameAccess r.0 r.1))
          refl refl

    clicked-IsPermitted :
        (k : Package) (q : Page b)
        → p.world.stores.package_groups.resources ≡ some gs
        → IsPermitted q
        → (package_row b q.world k).remove ≡ some k.id
        → IsPermitted (open_remove_package_popup b k.id q)
    unfolding open_remove_package_popup
    clicked-IsPermitted k q loaded h offered =
        let held =
          (package_row-Granted b q.world gs (ap (λ r. r.resources) h.same.2 ∙ loaded) k).1.0
            offered in
        let mine =
          subst (λ r. Granted r p.world.permissions gs delete pckg k.id) h.same.0
            (subst (λ r. Granted q.world.admin_roles r gs delete pckg k.id) h.same.1 held) in
        record {
          same = h.same;
          granted = λ id e.
              subst (Granted p.world.admin_roles p.world.permissions gs delete pckg)
                (ground (arith, e)) mine;
          chosen = λ e n. ground (arith, n);
        }

    -- Hence whatever the user does, the popup of the removal has a package that may be deleted.
    pub Reached-IsPermitted :
        {q : Page b}
        → p.world.stores.package_groups.resources ≡ some gs
        → Reached p q
        → IsPermitted q
    unfolding open_add_package_popup close_add_package_popup open_remove_package_popup
        close_remove_package_popup remove_selected_package
    Reached-IsPermitted loaded (start nothing shut) =
        IsPermitted-closed p (refl, refl, refl) nothing (ap is_removing shut)
    Reached-IsPermitted loaded (ticked {q = q} r) =
        let h = Reached-IsPermitted loaded r in
        record {
          same =
              SameAccess-trans p.world q.world (fetch_resources b Getter.packages q.world).1 h.same
                (fetch_packages-SameAccess q.world);
          granted = h.granted;
          chosen = h.chosen;
        }
    Reached-IsPermitted loaded (upload_opened r) =
        let h = Reached-IsPermitted loaded r in
        record { same = h.same; granted = h.granted; chosen = λ e. absurd (ground (arith, e)) }
    Reached-IsPermitted loaded (upload_cancelled r) =
        let h = Reached-IsPermitted loaded r in
        record { same = h.same; granted = h.granted; chosen = λ e. absurd (ground (arith, e)) }
    Reached-IsPermitted loaded (removal_clicked {q = q} k r offered) =
        clicked-IsPermitted k q loaded (Reached-IsPermitted loaded r) offered
    Reached-IsPermitted loaded (cancelled {q = q} r) =
        IsPermitted-closed (close_remove_package_popup b q) (Reached-IsPermitted loaded r).same refl
          refl
    Reached-IsPermitted loaded (confirmed {q = q} r) =
        remove_chosen-IsPermitted q.package_to_remove q (Reached-IsPermitted loaded r)

    -- On a page where the groups are loaded, and on which nothing is uploaded, whatever buttons were
    -- offered and clicked and however often the packages were fetched again: the package that is to
    -- be removed may be deleted by the user, and confirming the removal asks the server to delete
    -- that package.
    pub remove_selected_package-Granted :
        {q : Page b} (id : ℕ)
        → p.world.stores.package_groups.resources ≡ some gs
        → Reached p q
        → q.package_to_remove ≡ some id
        → let r = remove_package_request b id q.world in
          Granted p.world.admin_roles p.world.permissions gs delete pckg id
          × ((remove_selected_package b q).world ≡ after_remove b r.0 r.1)
    unfolding remove_selected_package remove_chosen close_remove_package_popup
    remove_selected_package-Granted {q} id loaded r chosen = (
      (Reached-IsPermitted loaded r).granted id chosen,
      ap (λ o. (remove_chosen b o q).world) chosen,
    )
