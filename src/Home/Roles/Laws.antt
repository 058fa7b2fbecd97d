-- ===== src/Home/Roles/Laws.antt =====
-- The roles that the interface goes by are those of the token.
use rdfm.Base.{
  ℕ, String, ◌==◌, string_eq, true, ◌&&◌, Option, none, some, List, ◌≡◌, refl, ap, ◌∙◌, arith,
  includes, any-sort, includes-filter, filter,
}
use rdfm.Utils.Model.{Claims, Permission}
use rdfm.Utils.World.{Browser, World}
use rdfm.Utils.Access.{
  AdminRole, rw_all, ro, upload_rootfs_image, upload_single_file, upload_nonstandard_artifact,
  create_group, role_name, has_admin_role,
}
use rdfm.Utils.Fetch.{fetch_get, fetch_once, fetch_wrapper}
use rdfm.Utils.Permissions.{stored_claims, keep_own}
use rdfm.Home.Roles.{role_names, on_user_roles, entered, mounted}
use rdfm.Session.{starts_with}

-- Every role that the program asks for has the prefix that the home view keeps.
role_name-prefix : (r : AdminRole) → starts_with "rdfm" (role_name r) ≡ true
unfolding starts_with
role_name-prefix rw_all = refl
role_name-prefix ro = refl
role_name-prefix upload_rootfs_image = refl
role_name-prefix upload_single_file = refl
role_name-prefix upload_nonstandard_artifact = refl
role_name-prefix create_group = refl

includes-role_names :
    (roles : List String) (r : String)
    → includes (role_names roles) r ≡ (includes roles r && starts_with "rdfm" r)
unfolding role_names
includes-role_names roles r =
    any-sort (λ x. x == r) _ (filter (starts_with "rdfm") roles)
    ∙ includes-filter (starts_with "rdfm") roles r

module _ (b : Browser) (codes : String → List ℕ) where
  keep_own-admin_roles :
      (sub : String) (o : Option (List Permission)) (w : World b)
      → (keep_own b sub o w).admin_roles ≡ w.admin_roles
  keep_own-admin_roles sub none w = refl
  keep_own-admin_roles sub (some ps) w = refl

  on_user_roles-admin_roles :
      (claims : Claims) (w : World b)
      → (on_user_roles b codes claims w).admin_roles ≡ role_names claims.roles
  unfolding on_user_roles fetch_get fetch_once fetch_wrapper
  on_user_roles-admin_roles claims w = keep_own-admin_roles claims.sub _ _

  mounted-admin_roles :
      (w : World b) (token : String) (claims : Claims)
      → w.access_token ≡ some token
      → stored_claims b w ≡ some claims
      → (mounted b codes w).admin_roles ≡ role_names claims.roles
  unfolding mounted entered
  mounted-admin_roles w token claims there parsed =
      ap (λ o. (entered b codes o (stored_claims b w) w).admin_roles) there
      ∙ ap (λ c. (entered b codes (some token) c w).admin_roles) parsed
      ∙ on_user_roles-admin_roles claims w

  -- Once the home view is mounted with a token that can be parsed, a user has an administrator's
  -- role, in the eyes of the interface, exactly when the token lists it; and no role of the token
  -- without the prefix `rdfm` is kept.
  pub mounted-has_admin_role :
      (w : World b) (token : String) (claims : Claims)
      → w.access_token ≡ some token
      → stored_claims b w ≡ some claims
      → let v = mounted b codes w in
        ((r : AdminRole)
          → has_admin_role v.admin_roles v.permissions r ≡ includes claims.roles (role_name r))
        × ((r : String)
            → includes v.admin_roles r ≡ (includes claims.roles r && starts_with "rdfm" r))
  unfolding has_admin_role
  mounted-has_admin_role w token claims there parsed =
      let names = mounted-admin_roles w token claims there parsed in
      (
        λ r. rw names (
            includes-role_names claims.roles (role_name r)
            ∙ rw (role_name-prefix r) (ground arith)),
        λ r. rw names (includes-role_names claims.roles r),
      )
