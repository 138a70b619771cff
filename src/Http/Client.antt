-- ===== src/Http/Client.antt =====
-- `Client.Do` of internal/provider/httpclient/client.go. What is outside of the program (the
-- server, the context, the random numbers, the clock) answers by functions of the events so far,
-- the latest first. Durations are nanoseconds, as bit patterns of an `int64`.
pub mod Rounds
pub mod Laws
pub mod Waits
use Prim.Native.Nat.{◌^◌, ◌%◌}
use Prim.Native.Char.{code}
use unseat.Base.{
  ℕ, zero, suc, ◌+◌, ◌-◌, ◌*◌, ◌/◌, String, ◌<>◌, List, [], ◌∷◌, Bool, true, false, not, ◌&&◌, ◌||◌,
  Option, none, some, ◌==◌, if◌then◌else◌, ltb, leb, nat_eq, Result, ok, err,
}
use unseat.Base.Int64.{is_negative, is_positive, add64, mul64}

-- `Client`, without what is injected into it. A negative `maxRetries` acts as 0 does.
pub record Client : Type 0 where
  pub max_retries : ℕ
  pub base_delay : ℕ

-- The defaults of `New`.
abbrev pub new : Client
new = record { max_retries = 3; base_delay = 500000000 }

abbrev pub max_retry_after : ℕ
max_retry_after = 60000000000

-- The parts of an `http.Request` that are read. `get_body` is nil, or gives the body or an error.
pub record Request : Type 0 where
  pub method : String
  pub url : String
  pub body : String
  pub get_body : Option (Result String)

pub record Response : Type 0 where
  pub status : ℕ
  pub retry_after : String
  pub body : String

-- What `http.Client.Do` returns.
pub data Reply : Type 0 where
  answered : (response : Response) → Reply
  broken : (why : String) → Reply

pub data Event : Type 0 where
  sent : (request : Request) (reply : Reply) → Event
  drained : Event
  slept : (delay : ℕ) → Event

pub record Network : Type 0 where
  pub send : List Event → Request → Reply
  -- `ctx.Err()`
  pub ctx_err : List Event → Option String
  -- `sleep`, which the context may cut short.
  pub sleep : List Event → ℕ → Option String
  -- `rand.Int64N`
  pub rand : List Event → ℕ → ℕ
  -- `http.ParseTime` and `time.Until`: the time left, where the text is a date.
  pub until : List Event → String → Option ℕ

-- What comes of a call: Go's two results, or the panic of `rand.Int64N`.
pub data Outcome : Type 0 where
  returned : (result : Result Response) → Outcome
  panicked : Outcome

unfoldable pub is_safe_method : String → Bool
is_safe_method m = m == "GET" || m == "HEAD"

-- `shouldRetry`
unfoldable pub should_retry : String → ℕ → Bool
should_retry method status =
    if nat_eq status 429
    then true
    else if leb 500 status && leb status 599
    then is_safe_method method
    else false

-- The digits of `strconv.Atoi`, onto the number read so far.
digits : ℕ → String → Option ℕ
digits n String.[] = some n
digits n (String.◌∷◌ c s) =
    let rest = digits (n * 10 + (code c - b'0')) s in
    if leb b'0' (code c) && leb (code c) b'9' then rest else none

in_range : Option ℕ → Option ℕ
in_range none = none
in_range (some n) = if ltb n (2 ^ 63) then some n else none

unsigned : String → Option ℕ
unfolding digits in_range
unsigned s = if s == "" then none else in_range (digits 0 s)

-- `strconv.Atoi` where it gives no error and a number that is not negative.
unfoldable pub atoi : String → Option ℕ
unfolding unsigned
atoi String.[] = none
atoi (String.◌∷◌ c s) =
    if nat_eq (code c) b'+'
    then unsigned s
    else if nat_eq (code c) b'-'
    then (elim (unsigned s) [ none ↦ none | some n ↦ if nat_eq n 0 then some 0 else none ])
    else unsigned (String.◌∷◌ c s)

-- `parseRetryAfter`. The seconds are multiplied with wrap-around.
unfoldable pub parse_retry_after : Option ℕ → String → ℕ
parse_retry_after until v = if v == "" then 0 else elim (atoi v) [
  | some secs ↦ mul64 secs 1000000000
  | none ↦ elim until [ none ↦ 0 | some d ↦ if is_positive d then d else 0 ]
]

-- How a wait ends.
pub data Waited : Type 0 where
  over : Waited
  cut : (why : String) → Waited
  no_delay : Waited

-- `baseDelay * (1 << attempt)`
unfoldable pub backoff : Client → ℕ → ℕ
backoff c attempt = mul64 c.base_delay (2 ^ attempt % 2 ^ 64)

unfoldable pub capped : ℕ → ℕ
capped d = if not (is_negative d) && ltb max_retry_after d then max_retry_after else d

nap_result : Option String → Waited
nap_result none = over
nap_result (some why) = cut why

-- The last lines of `wait`.
nap : Network → List Event → ℕ → Waited × List Event
unfolding nap_result
nap net past d = (nap_result (net.sleep past (capped d)), slept (capped d) ∷ past)

-- `Client.wait`
unfoldable pub wait : Network → Client → ℕ → ℕ → List Event → Waited × List Event
unfolding nap
wait net c attempt retry_after past =
    if is_positive retry_after
    then nap net past retry_after
    else let d = backoff c attempt in
      if is_positive d then nap net past (add64 (net.rand past d) (d / 2)) else (no_delay, past)

-- How a round of the loop ends.
pub data Next : Type 0 where
  stop : (outcome : Outcome) → Next
  again : Next

after_wait : Waited × List Event → Next × List Event
after_wait (over, past) = (again, past)
after_wait (cut why, past) = (stop (returned (err why)), past)
after_wait (no_delay, past) = (stop panicked, past)

-- The body of an attempt after the first is made anew.
rewound : ℕ → Request → Result Request
rewound zero req = ok req
rewound (suc n) req = elim req.get_body [
  | none ↦ ok req
  | some (err why) ↦ err ("rewind request body: " <> why)
  | some (ok body) ↦ ok (record req { body = body })
]

-- What follows an attempt that `http.Client.Do` fails, or answers.
after_reply : Network → Client → ℕ → Request → List Event → Reply → Next × List Event
unfolding after_wait
after_reply net c attempt req past (broken why) = elim (net.ctx_err past) [
  | some cause ↦ (stop (returned (err cause)), past)
  | none ↦
      if leb c.max_retries attempt || not (is_safe_method req.method)
      then (stop (returned (err why)), past)
      else after_wait (wait net c attempt 0 past)
]
after_reply net c attempt req past (answered resp) =
    if not (should_retry req.method resp.status) || leb c.max_retries attempt
    then (stop (returned (ok resp)), past)
    else let retry_after = parse_retry_after (net.until past resp.retry_after) resp.retry_after in
      after_wait (wait net c attempt retry_after (drained ∷ past))

-- One round of the loop of `Do`.
unfoldable pub round : Network → Client → ℕ → Request → List Event → Next × List Event
unfolding rewound after_reply
round net c attempt req past = elim (rewound attempt req) [
  | err why ↦ (stop (returned (err why)), past)
  | ok r ↦ let reply = net.send past r in after_reply net c attempt r (sent r reply ∷ past) reply
]

-- The loop of `Do`, on fuel.
unfoldable pub do_from :
    Network → Client → ℕ → ℕ → Request → List Event → Option (Outcome × List Event)
unfolding round
do_from net c zero attempt req past = none
do_from net c (suc fuel) attempt req past =
    let step = round net c attempt req past in
    elim step.0 [
      | stop outcome ↦ some (outcome, step.1)
      | again ↦ do_from net c fuel (suc attempt) req step.1
    ]

-- `Client.Do`: the outcome, and the events, the latest first.
unfoldable pub do_request : Network → Client → Request → Option (Outcome × List Event)
unfolding do_from
do_request net c req = do_from net c (suc c.max_retries) 0 req []
