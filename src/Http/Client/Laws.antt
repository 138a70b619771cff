-- ===== src/Http/Client/Laws.antt =====
-- How often `Client.Do` of internal/provider/httpclient/client.go sends a request, and after what.
use unseat.Base.{
  ℕ, suc, ◌≤◌, ◌<◌, List, [], ◌∷◌, Bool, true, ◌&&◌, ◌||◌, some, ◌≡◌, refl, arith, leb, nat_eq, inl,
  inr, Bool-cases, Option-cases, not, Result-cases,
}
use unseat.Http.Client.Rounds.{AfterRound, do_from-keeps}
use unseat.Http.Client.{
  Client, Request, Reply, answered, broken, Event, sent, drained, slept, Network, Outcome, Next,
  is_safe_method, should_retry, wait, round, rewound, after_reply, after_wait, do_request, Waited,
  over, cut, no_delay, nap, is_safe_method, parse_retry_after,
}

-- What may be sent again: what the server put off with a 429, and, by a method that changes
-- nothing, also what came to no answer or to an error of the server.
may_repeat : Request → Reply → Bool
unfolding is_safe_method
may_repeat req (answered resp) =
    nat_eq resp.status 429
    || (is_safe_method req.method && (leb 500 resp.status && leb resp.status 599))
may_repeat req (broken why) = is_safe_method req.method

-- Every request that was sent may be sent again.
all_repeatable : List Event → Bool
unfolding may_repeat
all_repeatable [] = true
all_repeatable (sent req reply ∷ past) = may_repeat req reply && all_repeatable past
all_repeatable (drained ∷ past) = all_repeatable past
all_repeatable (slept d ∷ past) = all_repeatable past

-- Every request but the last that was sent may be sent again. The latest event stands first.
unfoldable pub all_but_last_repeatable : List Event → Bool
unfolding all_repeatable
all_but_last_repeatable [] = true
all_but_last_repeatable (sent req reply ∷ past) = all_repeatable past
all_but_last_repeatable (drained ∷ past) = all_but_last_repeatable past
all_but_last_repeatable (slept d ∷ past) = all_but_last_repeatable past

-- How many requests were sent.
unfoldable pub sends : List Event → ℕ
sends [] = 0
sends (sent req reply ∷ past) = suc (sends past)
sends (drained ∷ past) = sends past
sends (slept d ∷ past) = sends past

all_repeatable_but_last :
    (past : List Event) → all_repeatable past ≡ true → all_but_last_repeatable past ≡ true
unfolding all_repeatable all_but_last_repeatable
all_repeatable_but_last [] h = refl
all_repeatable_but_last (sent req reply ∷ past) h = ground arith
all_repeatable_but_last (drained ∷ past) h = all_repeatable_but_last past h
all_repeatable_but_last (slept d ∷ past) h = all_repeatable_but_last past h

module _ (net : Network) (c : Client) where
  -- A wait sends nothing.
  wait-sends :
      (attempt retry_after : ℕ) (past : List Event)
      → sends (wait net c attempt retry_after past).1 ≡ sends past
  unfolding wait nap sends
  wait-sends attempt retry_after past = ground arith

  wait-all_repeatable :
      (attempt retry_after : ℕ) (past : List Event)
      → all_repeatable (wait net c attempt retry_after past).1 ≡ all_repeatable past
  unfolding wait nap all_repeatable
  wait-all_repeatable attempt retry_after past = ground arith

  wait-all_but_last :
      (attempt retry_after : ℕ) (past : List Event)
      → all_but_last_repeatable (wait net c attempt retry_after past).1
        ≡ all_but_last_repeatable past
  unfolding wait nap all_but_last_repeatable
  wait-all_but_last attempt retry_after past = ground arith

  abbrev Before : ℕ → List Event → Type 0
  Before attempt past = (all_repeatable past ≡ true) × (sends past ≤ attempt)

  abbrev Ended : Outcome → List Event → Type 0
  Ended outcome past = (all_but_last_repeatable past ≡ true) × (sends past ≤ suc c.max_retries)

  abbrev Left : Request → ℕ → Next × List Event → Type 0
  Left req attempt step = AfterRound net c req Before Ended attempt step

  after_wait-Left :
      (req : Request) (attempt : ℕ) (w : Waited × List Event)
      → all_repeatable w.1 ≡ true
      → sends w.1 ≤ suc attempt
      → attempt < c.max_retries
      → Left req attempt (after_wait w)
  unfolding after_wait
  after_wait-Left req attempt (over, past) h s lt = (lt, (h, s))
  after_wait-Left req attempt (cut why, past) h s lt = (all_repeatable_but_last past h, omega arith)
  after_wait-Left req attempt (no_delay, past) h s lt =
      (all_repeatable_but_last past h, omega arith)

  after_reply-Left :
      (old : Request) (attempt : ℕ) (req : Request) (past : List Event) (reply : Reply)
      → attempt ≤ c.max_retries
      → Before attempt past
      → Left old attempt (after_reply net c attempt req (sent req reply ∷ past) reply)
  unfolding after_reply all_but_last_repeatable all_repeatable sends should_retry
  after_reply-Left old attempt req past (broken why) le h =
      let all = sent req (broken why) ∷ past in
      elim (Option-cases (net.ctx_err all)) [
        | inr (cause, e) ↦ rw (after_reply, e) (h.0, omega (arith, h.1))
        | inl e ↦ elim (Bool-cases (leb c.max_retries attempt || not (is_safe_method req.method))) [
          | inl t ↦ rw (after_reply, e, t) (h.0, omega (arith, h.1))
          | inr t ↦
              rw (after_reply, e, t)
                (after_wait-Left old attempt (wait net c attempt 0 all)
                  (ground (arith, h.0, wait-all_repeatable attempt 0 all))
                  (omega (arith, h.1, wait-sends attempt 0 all)) (ground arith))
        ]
      ]
  after_reply-Left old attempt req past (answered resp) le h =
      let all = sent req (answered resp) ∷ past in
      let ra = parse_retry_after (net.until all resp.retry_after) resp.retry_after in
      elim (Bool-cases (not (should_retry req.method resp.status) || leb c.max_retries attempt)) [
        | inl t ↦ rw (t) (h.0, omega (arith, h.1))
        | inr t ↦ rw (t) (
            after_wait-Left old attempt (wait net c attempt ra (drained ∷ all))
              (ground (arith, h.0, wait-all_repeatable attempt ra (drained ∷ all)))
              (omega (arith, h.1, wait-sends attempt ra (drained ∷ all))) (ground arith))
      ]

  round-Left :
      (req : Request) (attempt : ℕ) (past : List Event)
      → attempt ≤ c.max_retries
      → Before attempt past
      → Left req attempt (round net c attempt req past)
  unfolding round
  round-Left req attempt past le h = elim (Result-cases (rewound attempt req)) [
    | inl (r, e) ↦ rw (round, e) (after_reply-Left req attempt r past (net.send past r) le h)
    | inr (why, e) ↦ rw (round, e) (all_repeatable_but_last past h.0, omega (arith, h.1))
  ]

-- `Do` ends: within `maxRetries` + 1 attempts it comes to an outcome, whatever the network answers.
-- Of the requests that it sent, every one but the last was answered with 429, or its method was GET
-- or HEAD and the answer was a 5xx or none; no other request is sent a second time.
pub do_request-Stops :
    (net : Network) (c : Client) (req : Request)
    → (outcome : Outcome) × (events : List Event) × (do_request net c req ≡ some (outcome, events))
      × (all_but_last_repeatable events ≡ true)
      × (sends events ≤ suc c.max_retries)
unfolding do_request all_repeatable sends
do_request-Stops net c req =
    let (outcome, events, r, ended) =
      do_from-keeps net c req (Before net c) (Ended net c) (round-Left net c req)
        (suc c.max_retries) 0 [] (omega arith) (omega arith) (refl, omega arith) in
    (outcome, events, r, ended.0, ended.1)
