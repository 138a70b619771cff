-- ===== src/Http/Client/Rounds.antt =====
-- The loop of `Client.Do` of internal/provider/httpclient/client.go by one rule: what each round
-- keeps, the loop keeps, and it ends.
use unseat.Base.{ℕ, zero, suc, ◌-◌, ◌≤◌, ◌<◌, List, some, ◌≡◌, refl, subst, arith, inl, inr, ◌⊎◌}
use unseat.Http.Client.{Client, Request, Event, Network, Outcome, Next, stop, again, round, do_from}

Next-cases : (step : Next) → ((outcome : Outcome) × (step ≡ stop outcome)) ⊎ (step ≡ again)
Next-cases (stop outcome) = inl (outcome, refl)
Next-cases again = inr refl

module _ (net : Network) (c : Client) (req : Request) (I : ℕ → List Event → Type 0)
    (Q : Outcome → List Event → Type 0) where
  -- What holds after a round: `Q` where it ends the loop, else `I` for the next, which is due.
  abbrev pub AfterRound : ℕ → Next × List Event → Type 0
  AfterRound attempt (stop outcome, past) = Q outcome past
  AfterRound attempt (again, past) = (attempt < c.max_retries) × I (suc attempt) past

  pub do_from-keeps :
      ((attempt : ℕ) (past : List Event)
        → attempt ≤ c.max_retries
        → I attempt past
        → AfterRound attempt (round net c attempt req past))
      → (fuel attempt : ℕ) (past : List Event) → attempt ≤ c.max_retries
      → c.max_retries - attempt < fuel
      → I attempt past
      → (outcome : Outcome) × (events : List Event) × (do_from net c fuel attempt req past
          ≡ some (outcome, events))
        × Q outcome events
  unfolding do_from
  do_from-keeps keeps zero attempt past le lt h = absurd (omega arith)
  do_from-keeps keeps (suc fuel) attempt past le lt h =
      let step = round net c attempt req past in
      let After : Next → Type 0 = λ n. AfterRound attempt (n, step.1) in
      let after = keeps attempt past le h in
      elim (Next-cases step.0) [
        | inl (outcome, e) ↦ (outcome, step.1, rw (do_from, e) refl, subst After e after)
        | inr e ↦
            let now = subst After e after in
            let (outcome, all, r, q) =
              do_from-keeps keeps fuel (suc attempt) step.1 (omega (arith, now.0))
                (omega (arith, now.0)) now.1 in
            (outcome, all, rw (do_from, e) r, q)
      ]
