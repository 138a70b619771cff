-- ===== src/Tests/Network.antt =====
-- The HTTP layer of the connectors, against servers that put it off.
use unseat.Base.{
  ℕ, suc, ◌/◌, ◌<◌, ◌≤◌, String, List, [], ◌∷◌, true, none, some, ◌≡◌, ◌≢◌, refl, arith, ok, any,
  contains, to_lower,
}
use unseat.Base.Int64.{is_negative, mul64}
use unseat.Http.Client.{
  new, Request, Response, Reply, answered, Event, sent, Network, Outcome, returned, panicked,
  do_request, should_retry, is_safe_method, parse_retry_after, atoi,
}
use unseat.Http.Client.Laws.{do_request-Stops, all_but_last_repeatable, sends}
use unseat.Http.Client.Waits.{do_request-Waits, naps_capped}
use unseat.Http.Json.{redact_query, is_sensitive}
use unseat.Http.Scim.{list_scim, page_size}
use unseat.Http.Scim.Laws.{list_scim-serve, serve, smaller}

-- The removal of a seat.
abbrev removal : Request
removal = record { method = "DELETE"; url = "https://api/users/1"; body = ""; get_body = none }

abbrev listing : Request
listing = record { method = "GET"; url = "https://api/users"; body = ""; get_body = none }

abbrev limited : Response
limited = record { status = 429; retry_after = "2"; body = "" }

abbrev down : Response
down = record { status = 503; retry_after = ""; body = "" }

abbrev fine : Response
fine = record { status = 200; retry_after = ""; body = "{}" }

-- A server that gives the same answer always.
abbrev always : Reply → Network
always reply = record {
  send = λ past r. reply;
  ctx_err = λ past. none;
  sleep = λ past d. none;
  rand = λ past n. n / 2;
  until = λ past v. none;
}

do_request-Stops_example :
    (outcome : Outcome) × (events : List Event) × (do_request
        (always (answered limited))
        new
        removal
      ≡ some (outcome, events))
    × (all_but_last_repeatable events ≡ true)
    × (sends events ≤ suc new.max_retries)
do_request-Stops_example = do_request-Stops (always (answered limited)) new removal

half-below : (past : List Event) (n : ℕ) → 0 < n → n / 2 < n
half-below past n h = omega arith

do_request-Waits_example :
    (outcome : Outcome) × (events : List Event) × (do_request (always (answered down)) new listing
      ≡ some (outcome, events))
    × (outcome ≢ panicked)
    × (naps_capped events ≡ true)
do_request-Waits_example =
    do_request-Waits (always (answered down)) new listing (omega arith) (omega arith) half-below

abbrev three : List String
three = "ann" ∷ "bob" ∷ "cat" ∷ []

list_scim-serve_example : list_scim "slack" (serve 2 (three)) 0 ≡ (three, none)
list_scim-serve_example =
    unfold smaller page_size in list_scim-serve "slack" (three) 2 0 (omega arith) (omega arith)

-- A removal that a server fails is not sent again; one that is rate-limited is.
removal_sent_once :
    do_request (always (answered down)) new removal
    ≡ some (returned (ok down), sent removal (answered down) ∷ [])
unfolding do_request should_retry is_safe_method
removal_sent_once = refl

seconds_read : parse_retry_after none "120" ≡ 120000000000
unfolding parse_retry_after atoi mul64
seconds_read = refl

-- A number of seconds that is too large wraps around to a negative duration.
seconds_wrap : is_negative (parse_retry_after none "9223372037") ≡ true
unfolding parse_retry_after atoi mul64
seconds_wrap = refl

secret_redacted :
    redact_query (("api_key", "s3cret" ∷ []) ∷ ("page", "2" ∷ []) ∷ [])
    ≡ ("api_key", "REDACTED" ∷ []) ∷ ("page", "2" ∷ []) ∷ []
unfolding redact_query is_sensitive any contains to_lower
secret_redacted = refl
