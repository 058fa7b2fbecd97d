-- ===== src/Tests/Race.antt =====
-- Replies that overtake each other.
use rdfm.Base.{none, some, List, [], ◌∷◌, ◌≡◌, inr, refl, nat_eq}
use rdfm.Utils.World.{Getter, Resource, response, read, active_polling}
use rdfm.Utils.Model.{Group}
use rdfm.Utils.Fetch.{output}
use rdfm.Utils.Resources.Race.{Arrival, verdict, arrive_all, last_arrival-read}
use rdfm.Tests.Setup.{browser, first_world, fleet}

abbrev groups_reply : List Group → Arrival
groups_reply gs = record { getter = Getter.groups; reply = response 200 (some gs) }

-- A session that has expired in between.
abbrev expired_reply : Arrival
expired_reply = record { getter = Getter.groups; reply = response 401 none }

abbrev listed : List Group → Resource (List Group)
listed gs = record { resources = some gs; polling_status = active_polling }

listed-verdict :
    verdict Getter.groups (output (response 200 (some (fleet ∷ [])))) ≡ some (listed (fleet ∷ []))
unfolding verdict output
listed-verdict = refl

expired-verdict : verdict Getter.groups (output (response 401 none)) ≡ none
unfolding verdict output
expired-verdict = refl

-- The answer sent before the group was removed arrives after the one sent after it: the group is
-- shown again.
last_arrival-read_example :
    read Getter.groups
      (arrive_all browser
        (groups_reply [] ∷ groups_reply (fleet ∷ []) ∷ expired_reply ∷ [])
        first_world).stores
    ≡ listed (fleet ∷ [])
last_arrival-read_example =
    last_arrival-read browser (groups_reply [] ∷ []) (groups_reply (fleet ∷ []))
      (expired_reply ∷ []) first_world (listed (fleet ∷ [])) listed-verdict
      (inr expired-verdict, tt)
