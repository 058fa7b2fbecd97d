-- ===== src/Session/Laws.antt =====
-- Where a user comes back to, and what a user without a token sees.
use text.Mathlib.TextLemmas.{cons-append}
use rdfm.Base.{◌==◌, string_eq, eq_iff, String, Bool, false, not, Option, some, List, []}
use rdfm.Base.{
  ◌∷◌, ◌≡◌, ◌≢◌, ◌<>◌, true, nat_eq, subst, refl, sym, ap, ◌∙◌, arith, filter, if◌then◌else◌,
  Bool-cases, inl, inr,
}
use rdfm.Utils.World.{Browser}
use rdfm.Utils.Resources.{go_to, login_url}
use rdfm.Session.{
  Session, starts_with, ends_with, or_root, before_each, enter, log_in, log_out, start,
}

-- A text starts with what was put in front of it.
pub starts_with-append : (prefix s : String) → starts_with prefix (prefix <> s) ≡ true
unfolding starts_with
starts_with-append String.[] s = refl
starts_with-append (String.◌∷◌ c prefix) s =
    let rest = starts_with-append prefix s in
    let step : starts_with (String.◌∷◌ c prefix) (String.◌∷◌ c (prefix <> s)) ≡ true =
      ground (arith, rest) in
    subst (λ t. starts_with (String.◌∷◌ c prefix) t ≡ true) (sym (cons-append c prefix s)) step

abbrev pub is_page : String → Bool
is_page path = not (starts_with "/auth_data" path)

abbrev pub last_of : List String → Option String → Option String
last_of [] before = before
last_of (path ∷ paths) before = last_of paths (some path)

module _ (b : Browser) where
  -- The user moves through the pages.
  unfoldable pub visit : List String → Session b → Session b
  visit [] s = s
  visit (path ∷ paths) s = visit paths (before_each b path s)

  before_each-current_path :
      (path : String) (s : Session b)
      → (before_each b path s).world.current_path
        ≡ (if is_page path then some path else s.world.current_path)
  unfolding before_each
  before_each-current_path path s = ground arith

  pub visit-current_path :
      (paths : List String) (s : Session b)
      → (visit paths s).world.current_path ≡ last_of (filter is_page paths) s.world.current_path
  unfolding visit
  visit-current_path [] s = refl
  visit-current_path (path ∷ paths) s =
      visit-current_path paths (before_each b path s)
      ∙ ap (last_of (filter is_page paths)) (before_each-current_path path s)
      ∙ elim (Bool-cases (is_page path)) [ inl page ↦ rw page | inr auth ↦ rw auth ]

  pub log_in-visit :
      (paths : List String) (resolves : String → Bool) (token : String) (s : Session b)
      → token ≢ ""
      → let t = log_in b resolves (some token) (visit paths s) in
        let page = or_root (last_of (filter is_page paths) s.world.current_path) in
        (t.world.access_token ≡ some token)
        × (t.pushed ≡ (if resolves page then page else "/") ∷ (visit paths s).pushed)
  unfolding log_in enter
  log_in-visit paths resolves token s h =
      let e : (token == "") ≡ false = ground (arith, eq_iff token "") in
      rw (e, sym (visit-current_path paths s)) (refl, refl)

  -- After a logout the application does not start at any address that does not end in
  -- `/auth_data`, and sends the user to the login page.
  pub start-log_out :
      (path : String) (s : Session b)
      → ends_with "/auth_data" path ≡ false
      → ((start b path (log_out b s)).0 ≡ false)
        × ((start b path (log_out b s)).1.world.hrefs ≡ login_url b ∷ s.world.hrefs)
  unfolding start log_out go_to
  start-log_out path s h = rw h (refl, refl)
