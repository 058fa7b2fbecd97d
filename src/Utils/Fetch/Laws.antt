-- ===== src/Utils/Fetch/Laws.antt =====
-- What a caller of `fetchWrapper` may rely on.
use rdfm.Base.{ℕ, ◌≤◌, String, ◌<>◌, ◌==◌, string_eq, eq_iff, true, false, Option, none, some}
use rdfm.Base.{◌∷◌, ◌≡◌, ◌∙◌, refl, inl, inr, arith, if◌then◌else◌, Bool-cases}
use rdfm.Utils.Model.{Shape, Body}
use rdfm.Utils.World.{Browser, World, Headers, get_header, Request, RequestBody}
use rdfm.Utils.World.{get_header-set_header, Reply, rejected, response}
use rdfm.Utils.Fetch.{Output, authorize, is_ok, output, fetch_wrapper}

-- How a fetch went, in the words of the Fetch standard.
pub data Outcome {A : Type 0} (o : Output A) : Reply A → Type 0 where
  network_error : o.success ≡ false → o.code ≡ none → o.result ≡ none → Outcome o rejected
  http_error :
      (status : ℕ) (body : Option A)
      → ¬ ((200 ≤ status) × (status ≤ 299))
      → o.success ≡ false
      → o.code ≡ some status
      → o.result ≡ none
      → Outcome o (response status body)
  not_json :
      (status : ℕ)
      → o.success ≡ false
      → o.code ≡ some status
      → o.result ≡ none
      → Outcome o (response status none)
  delivered :
      (status : ℕ) (value : A)
      → 200 ≤ status
      → status ≤ 299
      → o.success ≡ true
      → o.code ≡ some status
      → o.result ≡ some value
      → Outcome o (response status (some value))

output-Outcome : {A : Type 0} (r : Reply A) → Outcome (output r) r
unfolding output
output-Outcome rejected = network_error refl refl refl
output-Outcome (response status none) = not_json status refl refl refl
output-Outcome (response status (some value)) = elim (Bool-cases (is_ok status)) [
  | inl fine ↦ rw fine (delivered status value (ground arith) (ground arith) refl refl refl)
  | inr bad ↦ rw bad (http_error status (some value) (ground arith) refl refl refl)
]

-- A request carries each header of the caller, except that `Authorization` is `Bearer token=` and
-- the stored token, if there is a token and it is not empty.
pub get_header-authorize :
    (token : Option String) (name : String) (headers : Headers)
    → get_header name (authorize token headers) ≡ elim token [
      | none ↦ get_header name headers
      | some t ↦
          if t == ""
          then get_header name headers
          else if name == "Authorization"
          then some ("Bearer token=" <> t)
          else get_header name headers
    ]
unfolding authorize
get_header-authorize none name headers = refl
get_header-authorize (some t) name headers = ground (
  arith,
  get_header-set_header "Authorization" ("Bearer token=" <> t) name headers,
  eq_iff name "Authorization",
  eq_iff "Authorization" name,
)

-- The stored token, or the empty text.
abbrev pub or_empty : Option String → String
or_empty none = ""
or_empty (some token) = token

authorize-others :
    (token : Option String) (name : String) (headers : Headers)
    → (name ≡ "Authorization" → or_empty token ≡ "")
    → get_header name (authorize token headers) ≡ get_header name headers
authorize-others none name headers h = get_header-authorize none name headers
authorize-others (some t) name headers h =
    get_header-authorize (some t) name headers
    ∙ ground (arith, eq_iff name "Authorization", eq_iff t "", h)

module _ (b : Browser) (s : Shape) (url method : String) (headers : Headers)
    (body : RequestBody) where
  -- The request that `fetchWrapper` makes, the reply to it, and the state once it is there.
  abbrev pub request_of : World b → Request
  request_of w = record {
    url = url;
    method = method;
    headers = authorize w.access_token headers;
    body = body;
  }

  abbrev pub reply_to : World b → Reply (Body s)
  reply_to w = (b.fetch s (request_of w) w.ext).0

  abbrev pub after_request : World b → World b
  after_request w = record w {
    ext = (b.fetch s (request_of w) w.ext).1;
    sent = request_of w ∷ w.sent;
  }

  -- `fetchWrapper` sends one request. Of what the program keeps it changes nothing else but the
  -- `Headers` object of the caller, which is afterwards the one of the request: each header but
  -- `Authorization` is as it was, and this one too without a token, or with an empty one. Its result
  -- follows the reply to that request: `success` exactly for a status from 200 to 299 whose body is
  -- JSON, with the JSON as its data; else no data, and the status as the code unless the request
  -- itself failed.
  pub fetch_wrapper-Outcome :
      (w : World b)
      → let r = fetch_wrapper b s url method headers body w in
        (r.1 ≡ after_request w)
        × Outcome r.0.0 (reply_to w)
        × (r.0.1 ≡ (request_of w).headers)
        × ((name : String)
            → (name ≡ "Authorization" → or_empty w.access_token ≡ "")
            → get_header name r.0.1 ≡ get_header name headers)
  unfolding fetch_wrapper
  fetch_wrapper-Outcome w =
      (refl, output-Outcome _, refl, λ name h. authorize-others w.access_token name headers h)
