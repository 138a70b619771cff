-- ===== src/Http/Client/Waits.antt =====
-- The waits of `Client.Do` of internal/provider/httpclient/client.go: how long they are, and when the
-- backoff stays within 64 bits.
use Prim.Native.Nat.{◌^◌, ◌%◌}
use native.Mathlib.Nat.{pow-le-pow_right, mul-le-mul_left, mul-le-mul_right, one-le-pow}
use unseat.Base.{
  ℕ, suc, ◌*◌, ◌/◌, ◌≤◌, ◌<◌, List, [], ◌∷◌, Bool, true, false, not, ◌&&◌, ◌||◌, some, ◌≡◌, ◌≢◌,
  refl, arith, leb, inl, inr, Bool-cases, Option-cases, Result-cases, Result,
}
use unseat.Base.Int64.{is_negative, is_positive, add64, mul64}
use unseat.Http.Client.Rounds.{AfterRound, do_from-keeps}
use unseat.Http.Client.{
  Client, Request, Reply, answered, broken, Event, sent, drained, slept, Network, Outcome, returned,
  panicked, Response, Next, is_safe_method, should_retry, wait, round, rewound, after_reply,
  after_wait, do_request, Waited, over, cut, no_delay, nap, nap_result, backoff, capped,
  max_retry_after, parse_retry_after,
}

-- Every wait was of a duration from 0 to the cap.
unfoldable pub naps_capped : List Event → Bool
naps_capped [] = true
naps_capped (slept d ∷ past) = (not (is_negative d) && leb d max_retry_after) && naps_capped past
naps_capped (sent req reply ∷ past) = naps_capped past
naps_capped (drained ∷ past) = naps_capped past

module _ (c : Client) (some_delay : 0 < c.base_delay)
    (small : c.base_delay * 2 ^ c.max_retries < 2 ^ 62) where
  base-pow-small : (attempt : ℕ) → attempt < c.max_retries → c.base_delay * 2 ^ attempt < 2 ^ 62
  base-pow-small attempt lt =
      let pow : 2 ^ attempt ≤ 2 ^ c.max_retries = pow-le-pow_right (omega arith) (omega arith) in
      let below : c.base_delay * 2 ^ attempt ≤ c.base_delay * 2 ^ c.max_retries =
        mul-le-mul_left c.base_delay pow in
      omega arith

  -- The backoff before an attempt that is due does not wrap around.
  backoff_lem :
      (attempt : ℕ) → attempt < c.max_retries → backoff c attempt ≡ c.base_delay * 2 ^ attempt
  unfolding backoff mul64
  backoff_lem attempt lt =
      let pow : 1 * 2 ^ attempt ≤ c.base_delay * 2 ^ attempt =
        mul-le-mul_right (2 ^ attempt) (omega arith) in
      let below = base-pow-small attempt lt in
      let kept : 2 ^ attempt % 2 ^ 64 ≡ 2 ^ attempt = omega arith in rw (kept) (omega arith)

  backoff-pos : (attempt : ℕ) → attempt < c.max_retries → 0 < backoff c attempt
  backoff-pos attempt lt =
      let pow : 1 * 2 ^ attempt ≤ c.base_delay * 2 ^ attempt =
        mul-le-mul_right (2 ^ attempt) (omega arith) in
      let one : 1 ≤ 2 ^ attempt = one-le-pow attempt 2 (omega arith) in
      omega (arith, backoff_lem attempt lt)

  backoff-small : (attempt : ℕ) → attempt < c.max_retries → backoff c attempt < 2 ^ 62
  backoff-small attempt lt = omega (arith, backoff_lem attempt lt, base-pow-small attempt lt)

  module _ (net : Network)
      (rand_below : (past : List Event) (n : ℕ) → 0 < n → net.rand past n < n) where
    abbrev Fine : Waited × List Event → Type 0
    Fine (over, past) = naps_capped past ≡ true
    Fine (cut why, past) = naps_capped past ≡ true
    Fine (no_delay, past) = ⊥

    nap-Fine :
        (past : List Event) (d : ℕ)
        → is_negative d ≡ false
        → naps_capped past ≡ true
        → Fine (nap net past d)
    unfolding nap nap_result capped naps_capped
    nap-Fine past d h k = ground arith

    wait-Fine :
        (attempt retry_after : ℕ) (past : List Event)
        → attempt < c.max_retries
        → naps_capped past ≡ true
        → Fine (wait net c attempt retry_after past)
    unfolding wait
    wait-Fine attempt ra past lt h = elim (Bool-cases (is_positive ra)) [
      | inl p ↦ rw (p) (nap-Fine past ra (ground arith) h)
      | inr p ↦
          let d = backoff c attempt in
          let pos = backoff-pos attempt lt in
          let below = backoff-small attempt lt in
          let rand = rand_below past d pos in
          let due : is_positive d ≡ true = ground arith in
          let nap_size = add64 (net.rand past d) (d / 2) in
          let fits : nap_size < 2 ^ 63 = unfold add64 in omega arith in
          rw (p, due) (nap-Fine past nap_size (ground arith) h)
    ]

    abbrev Before : ℕ → List Event → Type 0
    Before attempt past = naps_capped past ≡ true

    abbrev Ended : Outcome → List Event → Type 0
    Ended outcome past = (outcome ≢ panicked) × (naps_capped past ≡ true)

    abbrev Left : Request → ℕ → Next × List Event → Type 0
    Left req attempt step = AfterRound net c req Before Ended attempt step

    returned-ne-panicked : (result : Result Response) → returned result ≢ panicked
    returned-ne-panicked result e = cc

    after_wait-Left :
        (req : Request) (attempt : ℕ) (w : Waited × List Event)
        → attempt < c.max_retries
        → Fine w
        → Left req attempt (after_wait w)
    unfolding after_wait
    after_wait-Left req attempt (over, past) lt h = (lt, h)
    after_wait-Left req attempt (cut why, past) lt h = (returned-ne-panicked _, h)
    after_wait-Left req attempt (no_delay, past) lt h = elim h [ ]

    after_reply-Left :
        (old : Request) (attempt : ℕ) (req : Request) (past : List Event) (reply : Reply)
        → attempt ≤ c.max_retries
        → naps_capped past ≡ true
        → Left old attempt (after_reply net c attempt req (sent req reply ∷ past) reply)
    unfolding after_reply naps_capped
    after_reply-Left old attempt req past (broken why) le h =
        let all = sent req (broken why) ∷ past in
        elim (Option-cases (net.ctx_err all)) [
          | inr (cause, e) ↦ rw (after_reply, e) (returned-ne-panicked _, h)
          | inl e ↦
              elim (Bool-cases (leb c.max_retries attempt || not (is_safe_method req.method))) [
                | inl t ↦ rw (after_reply, e, t) (returned-ne-panicked _, h)
                | inr t ↦
                    let lt : attempt < c.max_retries = ground arith in
                    rw (after_reply, e, t)
                      (after_wait-Left old attempt (wait net c attempt 0 all) lt
                        (wait-Fine attempt 0 all lt h))
              ]
        ]
    after_reply-Left old attempt req past (answered resp) le h =
        let all = sent req (answered resp) ∷ past in
        let ra = parse_retry_after (net.until all resp.retry_after) resp.retry_after in
        elim (Bool-cases (not (should_retry req.method resp.status) || leb c.max_retries attempt)) [
          | inl t ↦ rw (t) (returned-ne-panicked _, h)
          | inr t ↦
              let lt : attempt < c.max_retries = ground arith in
              rw (t) (
                after_wait-Left old attempt (wait net c attempt ra (drained ∷ all)) lt
                  (wait-Fine attempt ra (drained ∷ all) lt h))
        ]

    round-Left :
        (req : Request) (attempt : ℕ) (past : List Event)
        → attempt ≤ c.max_retries
        → naps_capped past ≡ true
        → Left req attempt (round net c attempt req past)
    unfolding round
    round-Left req attempt past le h = elim (Result-cases (rewound attempt req)) [
      | inl (r, e) ↦ rw (round, e) (after_reply-Left req attempt r past (net.send past r) le h)
      | inr (why, e) ↦ rw (round, e) (returned-ne-panicked _, h)
    ]

-- With a base delay of at least one nanosecond, such that the base delay times 2 ^ `maxRetries` is
-- below 2 ^ 62, and random numbers below their bound: `Do` comes to an outcome without the panic of
-- `rand.Int64N`, and every wait lasts from 0 to 60 seconds, also where a `Retry-After` header is
-- longer or wraps around.
pub do_request-Waits :
    (net : Network) (c : Client) (req : Request)
    → 0 < c.base_delay
    → c.base_delay * 2 ^ c.max_retries < 2 ^ 62
    → ((past : List Event) (n : ℕ) → 0 < n → net.rand past n < n)
    → (outcome : Outcome) × (events : List Event) × (do_request net c req ≡ some (outcome, events))
      × (outcome ≢ panicked)
      × (naps_capped events ≡ true)
unfolding do_request naps_capped
do_request-Waits net c req some_delay small rand_below =
    let (outcome, events, r, ended) =
      do_from-keeps net c req (Before c some_delay small net rand_below)
        (Ended c some_delay small net rand_below) (round-Left c some_delay small net rand_below req)
        (suc c.max_retries) 0 [] (omega arith) (omega arith) refl in
    (outcome, events, r, ended.0, ended.1)
