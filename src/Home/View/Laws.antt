-- ===== src/Home/View/Laws.antt =====
-- What the home view shows of the token and of the route.
use rdfm.Base.{ℕ, String, Bool, none, List, [], ◌∷◌, map, filter, ◌≡◌, refl, string_eq}
use rdfm.Utils.World.{Browser, World}
use rdfm.Utils.Resources.{login_url, go_to}
use rdfm.Home.Roles.{mounted, entered}
use rdfm.Home.Tabs.{Instance}
use rdfm.Home.View.{NavbarItem, view, stream_headers}

-- The labels of the entries that are marked.
abbrev pub marked : List NavbarItem → List String
marked items = map (λ i. i.label) (filter (λ i. i.is_active) items)

module _ (b : Browser) (codes : String → List ℕ) where
  -- Without a token the home view shows nothing, and `mounted` goes to the login page; it opens the
  -- event stream all the same.
  pub view-no_token :
      (w : World b) (menu_open : Bool) (i : Instance)
      → w.access_token ≡ none
      → (view b codes menu_open i w ≡ none)
        × ((mounted b codes w).hrefs ≡ login_url b ∷ w.hrefs)
        × (stream_headers b codes w ≡ ("Authorization", "Bearer token=null") ∷ [])
  unfolding view mounted entered go_to stream_headers
  view-no_token w menu_open i e = rw e (refl, refl, refl)
