-- ===== src/Session/Expiry.antt =====
-- From an expired session to the page that was left: `fetchResources` of utils.ts, the test in
-- main.ts, the navigation guard, LoginHandler.vue and HomeView.vue, one after the other.
use rdfm.Base.{
  ℕ, String, ◌<>◌, ◌==◌, string_eq, eq_iff, Bool, true, false, Option, none, some, List, ◌∷◌, ◌≡◌,
  ◌≢◌, ◌∙◌, sym, ap, subst, [], refl, arith, filter, includes, if◌then◌else◌,
}
use rdfm.Utils.Model.{Body, Claims}
use rdfm.Utils.World.{Browser, World, Getter, shape, response, get_header, get_header-set_header}
use rdfm.Utils.Access.{AdminRole, role_name, has_admin_role}
use rdfm.Utils.Fetch.{authorize, output}
use rdfm.Utils.Resources.{fetch_resources, settle, login_url, go_to}
use rdfm.Utils.Resources.Laws.{got, after_get}
use rdfm.Utils.Permissions.{parse_jwt, stored_claims}
use rdfm.Home.Roles.{mounted}
use rdfm.Home.Roles.Laws.{mounted-has_admin_role}
use rdfm.Session.{Session, starts_with, ends_with, or_root, before_each, log_in, start}
use rdfm.Session.Laws.{is_page, last_of, visit, visit-current_path, log_in-visit}

-- What a load of the application keeps: the local storage.
pub record IsReloaded {b : Browser} (w v : World b) : Type 0 where
  pub same_path : v.current_path ≡ w.current_path
  pub same_token : v.access_token ≡ w.access_token

module _ (b : Browser) (g : Getter) where
  -- A refresh with the status 401 sends the user to the login page, and changes nothing else of what
  -- the page keeps.
  record IsExpelled (w v : World b) : Type 0 where
    pub to_login : v.hrefs ≡ login_url b ∷ w.hrefs
    pub same_stores : v.stores ≡ w.stores
    pub same_path : v.current_path ≡ w.current_path

  settle-IsExpelled :
      (body : Option (Body (shape g))) (w : World b)
      → IsExpelled w (settle b g (output (response 401 body)) w)
  unfolding settle output go_to
  settle-IsExpelled none w = record { to_login = refl; same_stores = refl; same_path = refl }
  settle-IsExpelled (some value) w = record {
    to_login = refl;
    same_stores = refl;
    same_path = refl;
  }

  fetch_resources-IsExpelled :
      (body : Option (Body (shape g))) (w : World b)
      → got b g w ≡ response 401 body
      → IsExpelled w (fetch_resources b g w).1
  unfolding fetch_resources
  fetch_resources-IsExpelled body w e =
      let h = settle-IsExpelled body (after_get b g w) in
      let k : IsExpelled w (settle b g (output (response 401 body)) (after_get b g w)) = record {
        to_login = h.to_login;
        same_stores = h.same_stores;
        same_path = h.same_path;
      } in
      subst (λ r. IsExpelled w (settle b g (output r) (after_get b g w))) (sym e) k

bearer-authorize :
    (token : String)
    → token ≢ ""
    → get_header "Authorization" (authorize (some token) []) ≡ some ("Bearer token=" <> token)
unfolding authorize
bearer-authorize token h =
    let e : (token == "") ≡ false = ground (arith, eq_iff token "") in
    rw (e, get_header-set_header "Authorization" ("Bearer token=" <> token) "Authorization" []) refl

module _ (b : Browser) (codes : String → List ℕ) (g : Getter) where
  -- The application is started at the page of the login, which the guard does not store.
  start-auth_data :
      (path : String) (s : Session b)
      → ends_with "/auth_data" path ≡ true
      → (start b path s).0 ≡ true
  unfolding start
  start-auth_data path s h = ground arith

  before_each-auth_data :
      (path : String) (s : Session b)
      → starts_with "/auth_data" path ≡ true
      → before_each b path s ≡ s
  unfolding before_each
  before_each-auth_data path s h = rw h refl

  stored_claims-token :
      (w : World b) (token : String)
      → w.access_token ≡ some token
      → stored_claims b w ≡ parse_jwt b token
  unfolding stored_claims
  stored_claims-token w token e = rw e refl

  -- The login on the page that was loaded, for the path that the storage holds.
  log_in-stored :
      (resolves : String → Bool) (token : String) (s : Session b)
      → token ≢ ""
      → let page = or_root s.world.current_path in
        ((log_in b resolves (some token) s).world.access_token ≡ some token)
        × ((log_in b resolves (some token) s).pushed
            ≡ (if resolves page then page else "/") ∷ s.pushed)
  unfolding visit
  log_in-stored resolves token s h = log_in-visit b [] resolves token s h

  -- A user moved through the pages, and a refresh was answered with the status 401: the page goes to
  -- the login. When the application is loaded again at the page of the login, with what the local
  -- storage keeps, it starts; a login with a token that is not empty asks once for the page that was
  -- left (or the root, as in `or_root` and if the router does not know it), the token goes with the
  -- next request, and the home view takes the administrator's roles from the token.
  pub expired-returns :
      (paths : List String) (resolves : String → Bool) (token : String) (claims : Claims)
      (body : Option (Body (shape g))) (s : Session b) (v : World b) (target path : String)
      → got b g (visit b paths s).world ≡ response 401 body
      → IsReloaded (fetch_resources b g (visit b paths s).world).1 v
      → starts_with "/auth_data" target ≡ true
      → ends_with "/auth_data" path ≡ true
      → token ≢ ""
      → parse_jwt b token ≡ some claims
      → let left = (visit b paths s).world in
        let arrived : Session b = record { world = v; pushed = [] } in
        let t = log_in b resolves (some token) (before_each b target arrived) in
        let page = or_root (last_of (filter is_page paths) s.world.current_path) in
        let home = mounted b codes t.world in
        ((fetch_resources b g left).1.hrefs ≡ login_url b ∷ left.hrefs)
        × ((start b path arrived).0 ≡ true)
        × (t.pushed ≡ (if resolves page then page else "/") ∷ [])
        × (get_header "Authorization" (authorize t.world.access_token [])
            ≡ some ("Bearer token=" <> token))
        × ((r : AdminRole)
            → has_admin_role home.admin_roles home.permissions r
              ≡ includes claims.roles (role_name r))
  expired-returns paths resolves token claims body s v target path e kept auth ends h parsed =
      let out = fetch_resources-IsExpelled b g body (visit b paths s).world e in
      let arrived : Session b = record { world = v; pushed = [] } in
      let (stored, asked) = log_in-stored resolves token arrived h in
      let left = kept.same_path ∙ out.same_path ∙ visit-current_path b paths s in
      let t = log_in b resolves (some token) arrived in
      let known = stored_claims-token t.world token stored ∙ parsed in
      rw (before_each-auth_data target arrived auth) (
        out.to_login,
        start-auth_data path arrived ends,
        asked ∙ ap (λ o. (if resolves (or_root o) then or_root o else "/") ∷ []) left,
        ap (λ o. get_header "Authorization" (authorize o [])) stored ∙ bearer-authorize token h,
        (mounted-has_admin_role b codes t.world token claims stored known).0,
      )
