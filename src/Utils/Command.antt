-- ===== src/Utils/Command.antt =====
-- What the requests that change something at the server have in common, as a specification: the
-- modules of devices, packages and groups are proved to run such commands.
use rdfm.Base.{ℕ, String, Bool, true, false, Option, List, [], ◌∷◌, ◌≡◌}
use rdfm.Base.{Exec, Bool-cases, inl, inr}
use rdfm.Utils.Model.{RequestOutput, succeeded, failed}
use rdfm.Utils.World.{Browser, World, RequestBody, Getter}
use rdfm.Utils.Fetch.{Output}
use rdfm.Utils.Resources.{fetch_resources}

pub record Command : Type 0 where
  pub url : String
  pub method : String
  pub body : RequestBody
  -- the message for each code that is no success
  pub explain : Option ℕ → String
  -- the getters that are refreshed after success, in order
  pub refreshes : List Getter

module _ (b : Browser) where
  abbrev pub Send : Type 0
  Send = String → String → RequestBody → Exec (World b) (Output (Unit {0}))

  unfoldable pub refresh_all : List Getter → World b → World b
  refresh_all [] w = w
  refresh_all (g ∷ gs) w = refresh_all gs (fetch_resources b g w).1

  abbrev pub sent_by : Send → Command → World b → Output (Unit {0}) × World b
  sent_by send c w = send c.url c.method c.body w

  abbrev conclude : Command → Bool → Option ℕ → World b → RequestOutput × World b
  conclude c true code w = (succeeded, refresh_all c.refreshes w)
  conclude c false code w = (failed (c.explain code), w)

  -- Send the request; then refresh, or explain the failure.
  unfoldable pub perform : Send → Command → Exec (World b) RequestOutput
  perform send c w = let r = sent_by send c w in conclude c r.0.success r.0.code r.1

  -- What a command promises, `r` being the outcome of its request. A failure says why and leaves
  -- the state as the request left it; a success says nothing and refreshes what the page shows.
  pub data Keeps (m : RequestOutput × World b) (r : Output (Unit {0}) × World b)
      (explain : Option ℕ → String) (refreshes : List Getter) : Type 0 where
    refused :
        r.0.success ≡ false → m ≡ (failed (explain r.0.code), r.1) → Keeps m r explain refreshes
    accepted :
        r.0.success ≡ true
        → m ≡ (succeeded, refresh_all refreshes r.1)
        → Keeps m r explain refreshes

  pub perform-Keeps :
      (send : Send) (c : Command) (w : World b)
      → Keeps (perform send c w) (sent_by send c w) c.explain c.refreshes
  unfolding perform
  perform-Keeps send c w = elim (Bool-cases (sent_by send c w).0.success) [
    | inl done ↦ accepted done (rw done)
    | inr bad ↦ refused bad (rw bad)
  ]
