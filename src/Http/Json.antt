-- ===== src/Http/Json.antt =====
-- `DoJSON`, `APIError` and `redactURL` of internal/provider/httpclient/client.go.
use unseat.Base.{
  ℕ, zero, suc, String, ◌<>◌, List, [], ◌∷◌, Bool, false, ◌||◌, Option, none, some, ◌==◌,
  if◌then◌else◌, ltb, nat_eq, Result, ok, err, to_lower, contains, any, map,
}
use unseat.Base.Decimal.{decimal}
use unseat.Base.Dict.{Dict}
use unseat.Http.Client.{Client, Request, Event, Network, Outcome, returned, panicked, do_request}

pub record ApiError : Type 0 where
  pub provider : String
  pub status_code : ℕ
  pub body : String
  pub url : String

-- An error of `DoJSON`: an `*APIError`, or one that is only a text.
pub data Failure : Type 0 where
  api : (error : ApiError) → Failure
  plain : (why : String) → Failure

-- `APIError.Error`
unfoldable pub error_text : Failure → String
error_text (plain why) = why
error_text (api e) =
    e.provider
    <> (": API error (status "
        <> (decimal e.status_code <> (") for " <> (e.url <> (": " <> e.body)))))

-- `IsNotFound`
unfoldable pub is_not_found : Failure → Bool
is_not_found (plain why) = false
is_not_found (api e) = nat_eq e.status_code 404

-- `IsUnauthorized`
unfoldable pub is_unauthorized : Failure → Bool
is_unauthorized (plain why) = false
is_unauthorized (api e) = nat_eq e.status_code 401 || nat_eq e.status_code 403

-- The parts of a `url.URL` that are read.
pub record Url : Type 0 where
  pub location : String
  pub user : Option String
  pub raw_query : String

abbrev pub sensitive_params : List String
sensitive_params =
    "key" ∷ "token" ∷ "secret" ∷ "password" ∷ "api_key" ∷ "apikey" ∷ "access_token" ∷ "auth"
    ∷ "signature" ∷ "sig" ∷ []

unfoldable pub is_sensitive : String → Bool
is_sensitive name = let lower = to_lower name in any (λ s. contains lower s) sensitive_params

-- The loop of `redactURL` over the parameters of the query.
unfoldable pub redact_query : Dict (List String) → Dict (List String)
redact_query q = map (λ entry. if is_sensitive entry.0 then (entry.0, "REDACTED" ∷ []) else entry) q

-- The reading and the writing of a URL are the library's.
pub record UrlText : Type 0 where
  pub parse_query : String → Dict (List String)
  pub encode : Dict (List String) → String
  pub text : Url → String

redacted_user : Option String → Option String
redacted_user none = none
redacted_user (some user) = some "REDACTED"

-- `redactURL`; `none` stands for a nil URL.
unfoldable pub redact_url : UrlText → Option Url → String
unfolding redacted_user
redact_url lib none = ""
redact_url lib (some u) =
    let clone = record u { user = redacted_user u.user } in
    if clone.raw_query == ""
    then lib.text clone
    else lib.text
        (record clone { raw_query = lib.encode (redact_query (lib.parse_query clone.raw_query)) })

-- `io.LimitReader`, over characters.
limited : ℕ → String → String
limited zero s = String.[]
limited (suc n) String.[] = String.[]
limited (suc n) (String.◌∷◌ c s) = String.◌∷◌ c (limited n s)

-- What `DoJSON` comes to; `crashed` is a panic below it.
pub data Decoded {ℓ} (V : Type ℓ) : Type ℓ where
  value : V → Decoded V
  failed : (failure : Failure) → Decoded V
  crashed : Decoded V

module _ {ℓ} {V : Type ℓ} (lib : UrlText) (provider : String) (url : Option Url)
    (decode : String → Result V) where
  decoded : Result V → Decoded V
  decoded (ok v) = value v
  decoded (err why) = failed (plain (provider <> (": decode response: " <> why)))

  -- What `DoJSON` makes of the answer, whose body `json.Decoder` reads.
  unfoldable pub from_outcome : Outcome → Decoded V
  unfolding decoded limited
  from_outcome panicked = crashed
  from_outcome (returned (err why)) = failed (plain (provider <> (": " <> why)))
  from_outcome (returned (ok resp)) =
      if ltb resp.status 200 || ltb 299 resp.status
      then failed (
          api (record {
            provider = provider;
            status_code = resp.status;
            body = limited 2048 resp.body;
            url = redact_url lib url;
          }))
      else decoded (decode resp.body)

  -- `DoJSON`
  unfoldable pub do_json : Network → Client → Request → Option (Decoded V × List Event)
  unfolding from_outcome
  do_json net c req = elim (do_request net c req) [
    | none ↦ none
    | some (outcome, events) ↦ some (from_outcome outcome, events)
  ]
