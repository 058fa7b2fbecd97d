-- ===== src/Utils/Fetch.antt =====
-- `fetchWrapper` of utils.ts. It never throws: every way that `fetch` or `json` can fail is a
-- result with `success` false.
pub mod Laws
use rdfm.Base.{ℕ, String, ◌<>◌, ◌==◌, string_eq, Bool, true, false, ◌&&◌, leb, Option, none, some}
use rdfm.Base.{List, [], ◌∷◌, if◌then◌else◌, Exec}
use rdfm.Utils.Model.{Shape, Body}
use rdfm.Utils.World.{Browser, World, Headers, set_header, Request, RequestBody, empty}
use rdfm.Utils.World.{Reply, rejected, response}

-- The result of `fetchWrapper`; `result` is its field `data`.
pub record Output (A : Type 0) : Type 0 where
  pub success : Bool
  pub code : Option ℕ
  pub result : Option A

-- `if (accessToken) headers.set('Authorization', …)`; an empty token is falsy.
unfoldable pub authorize : Option String → Headers → Headers
authorize none headers = headers
authorize (some token) headers =
    if token == "" then headers else set_header "Authorization" ("Bearer token=" <> token) headers

-- `response.ok`
abbrev pub is_ok : ℕ → Bool
is_ok status = leb 200 status && leb status 299

unfoldable pub output : {A : Type 0} → Reply A → Output A
output rejected = record { success = false; code = none; result = none }
output (response status none) = record { success = false; code = some status; result = none }
output (response status (some value)) =
    if is_ok status
    then record { success = true; code = some status; result = some value }
    else record { success = false; code = some status; result = none }

module _ (b : Browser) where
  -- The second result is the caller's `Headers` object, which `headers.set` has changed.
  unfoldable pub fetch_wrapper :
      (s : Shape)
      → String
      → String
      → Headers
      → RequestBody
      → Exec (World b) (Output (Body s) × Headers)
  unfolding authorize output
  fetch_wrapper s url method headers body w =
      let headers' = authorize w.access_token headers in
      let req : Request = record { url = url; method = method; headers = headers'; body = body } in
      let r = b.fetch s req w.ext in
      ((output r.0, headers'), record w { ext = r.1; sent = req ∷ w.sent })

  -- The callers that drop their headers afterwards.
  unfoldable pub fetch_once :
      (s : Shape) → String → String → Headers → RequestBody → Exec (World b) (Output (Body s))
  unfolding fetch_wrapper
  fetch_once s url method headers body w =
      let r = fetch_wrapper s url method headers body w in (r.0.0, r.1)

  -- The wrappers that `resourcesGetter` returns.
  unfoldable pub fetch_get : (s : Shape) → String → Exec (World b) (Output (Body s))
  unfolding fetch_once
  fetch_get s url = fetch_once s url "GET" [] empty

  unfoldable pub fetch_post :
      (s : Shape) → String → Headers → RequestBody → Exec (World b) (Output (Body s))
  unfolding fetch_once
  fetch_post s url headers body = fetch_once s url "POST" headers body

  unfoldable pub fetch_delete : (s : Shape) → String → Exec (World b) (Output (Body s))
  unfolding fetch_once
  fetch_delete s url = fetch_once s url "DELETE" [] empty
