-- ===== src/Ai/Provider/Runs.antt =====
-- DeepSeekProvider.invoke: how every call ends, and how many requests it sends.
use mathlib.Core.Path.{subst}
use legacy_vault.Base.{
  ℕ, zero, suc, ◌+◌, ◌≤◌, ◌<◌, ◌≡◌, ◌≢◌, ◌⊎◌, inl, inr, refl, String, Bool, true, false, arith,
  truthy?, ok, err, Result,
}
use legacy_vault.Ai.Provider.{
  ProviderError, ResponseProblem, ProviderRequest, ProviderResult, DeepSeekConfig, Reply, Judged,
  LoopEnd, answered, refused, retried, judge, returned, rejected, exhausted, attempts, Breaker,
  InvokeCall, InvokeRun, finish_invoke, invoke,
}
use legacy_vault.Ai.Provider.Judging.{Fate, judge-Fate}

nat_cases : (a b : ℕ) → (a ≡ b) ⊎ (a ≢ b)
nat_cases a b = ground arith

Judged-cases :
    (j : Judged)
    → ((r : ProviderResult) × (j ≡ answered r))
      ⊎ (((name : String) × (j ≡ retried name))
          ⊎ ((p : ResponseProblem) × (b : Bool) × (j ≡ refused p b)))
Judged-cases (answered r) = inl (r, refl)
Judged-cases (retried name) = inr (inl (name, refl))
Judged-cases (refused p b) = inr (inr (p, b, refl))

module _ (request : ProviderRequest) (replies : ℕ → Reply) where
  -- The attempt at which the loop stops, with the most that there may be.
  abbrev StopsAt : (most last : ℕ) → LoopEnd → Type 0
  StopsAt most last (returned r) = Fate request last (replies last) (answered r)
  StopsAt most last (rejected p b) = Fate request last (replies last) (refused p b)
  StopsAt most last (exhausted name) =
      (last ≡ most) × Fate request last (replies last) (retried name)

  Retries : (first last : ℕ) → Type 0
  Retries first last =
      (j : ℕ) → first ≤ j → j < last → (name : String) × Fate request j (replies j) (retried name)

  record LoopEnds (most first : ℕ) (end : LoopEnd × ℕ) : Type 0 where
    last : ℕ
    from : first ≤ last
    within : last ≤ most
    counted : end.1 + first ≡ last + 1
    retries : Retries first last
    stops : StopsAt most last end.0

  fate_of : (k : ℕ) (j : Judged) → judge request k (replies k) ≡ j → Fate request k (replies k) j
  fate_of k j e = subst (Fate request k (replies k)) e (judge-Fate request k (replies k))

  stops_now :
      (most k : ℕ) (end : LoopEnd) → k ≤ most → StopsAt most k end → LoopEnds most k (end, 1)
  unfolding Retries
  stops_now most k end le s = record {
    last = k;
    from = omega arith;
    within = le;
    counted = omega arith;
    retries = λ j a b. absurd (omega arith);
    stops = s;
  }

  goes_on :
      (most k : ℕ) (end : LoopEnd × ℕ) (name : String)
      → judge request k (replies k) ≡ retried name
      → LoopEnds most (k + 1) end
      → LoopEnds most k (end.0, end.1 + 1)
  unfolding Retries
  goes_on most k end name e l = record {
    last = l.last;
    from = let f = l.from in omega arith;
    within = l.within;
    counted = let c = l.counted in omega arith;
    retries = λ j a b. elim (nat_cases k j) [
      | inl same ↦ (
        name,
        subst (λ i. Fate request i (replies i) (retried name)) same (fate_of k (retried name) e),
      )
      | inr other ↦ l.retries j (omega arith) b
    ];
    stops = l.stops;
  }

  attempts-LoopEnds :
      (remaining k most : ℕ)
      → k + remaining ≡ most
      → LoopEnds most k (attempts request replies remaining k)
  unfolding attempts
  attempts-LoopEnds zero k most h = elim (Judged-cases (judge request k (replies k))) [
    | inl (r, e) ↦
        subst (LoopEnds most k) {x = (returned r, 1)} (ground (arith, e))
          (stops_now most k (returned r) (omega arith) (fate_of k (answered r) e))
    | inr (inl (name, e)) ↦
        subst (LoopEnds most k) {x = (exhausted name, 1)} (ground (arith, e)) (
          stops_now most k (exhausted name) (omega arith) (omega arith, fate_of k (retried name) e))
    | inr (inr (p, b, e)) ↦
        subst (LoopEnds most k) {x = (rejected p b, 1)} (ground (arith, e))
          (stops_now most k (rejected p b) (omega arith) (fate_of k (refused p b) e))
  ]
  attempts-LoopEnds (suc remaining) k most h =
      let rest = attempts request replies remaining (k + 1) in
      elim (Judged-cases (judge request k (replies k))) [
        | inl (r, e) ↦
            subst (LoopEnds most k) {x = (returned r, 1)} (ground (arith, e))
              (stops_now most k (returned r) (omega arith) (fate_of k (answered r) e))
        | inr (inl (name, e)) ↦
            subst (LoopEnds most k) {x = (rest.0, rest.1 + 1)} (ground (arith, e))
              (goes_on most k rest name e (attempts-LoopEnds remaining (k + 1) most (omega arith)))
        | inr (inr (p, b, e)) ↦
            subst (LoopEnds most k) {x = (rejected p b, 1)} (ground (arith, e))
              (stops_now most k (rejected p b) (omega arith) (fate_of k (refused p b) e))
      ]

-- How a call ends at its last attempt.
pub data Stops (config : DeepSeekConfig) (call : InvokeCall) (last : ℕ)
    : Result ProviderError ProviderResult → Type 0 where
  answers :
      {r : ProviderResult}
      → Fate call.request last (call.replies last) (answered r)
      → Stops config call last (ok r)
  refuses :
      {p : ResponseProblem} {reset : Bool}
      → Fate call.request last (call.replies last) (refused p reset)
      → Stops config call last (err (ProviderError.response_error p))
  gives_up :
      {name : String}
      → last ≡ config.max_retries
      → Fate call.request last (call.replies last) (retried name)
      → Stops config call last (err (ProviderError.unavailable name config.max_retries))

-- The attempts of a call: each but the last is to be tried again, and one request is sent for each.
pub record Tries (config : DeepSeekConfig) (call : InvokeCall) (run : InvokeRun) : Type 0 where
  pub last : ℕ
  pub within : last ≤ config.max_retries
  pub sent : run.sent ≡ last + 1
  pub retries :
      (j : ℕ) → j < last → (name : String) × Fate call.request j (call.replies j) (retried name)
  pub stops : Stops config call last run.result

LoopEnds-Tries :
    (config : DeepSeekConfig) (call : InvokeCall) (breaker : Breaker) (end : LoopEnd) (sent : ℕ)
    → LoopEnds call.request call.replies config.max_retries 0 (end, sent)
    → Tries config call (finish_invoke config call breaker (end, sent))
unfolding Retries
LoopEnds-Tries config call breaker (returned r) sent l = record {
  last = l.last;
  within = l.within;
  sent = let c = l.counted in omega arith;
  retries = λ j b. l.retries j (omega arith) b;
  stops = answers l.stops;
}
LoopEnds-Tries config call breaker (rejected p b) sent l = record {
  last = l.last;
  within = l.within;
  sent = let c = l.counted in omega arith;
  retries = λ j b. l.retries j (omega arith) b;
  stops = refuses l.stops;
}
LoopEnds-Tries config call breaker (exhausted name) sent l = record {
  last = l.last;
  within = l.within;
  sent = let c = l.counted in omega arith;
  retries = λ j b. l.retries j (omega arith) b;
  stops = gives_up l.stops.0 l.stops.1;
}

-- How every call ends and how many requests it sends. Without a key, or else while the circuit is open,
-- it fails and sends none. Otherwise it stops at an attempt, of the first one and the configured
-- retries, and sends one request for each attempt up to it: all before it were to be tried again, and it
-- is answered with the result, refused with its problem, or the last one that may be tried again.
pub invoke-Tries :
    (config : DeepSeekConfig) (call : InvokeCall) (breaker : Breaker)
    → (truthy? config.api_key ≡ false
        → ((invoke config call breaker).result ≡ err ProviderError.not_configured)
          × ((invoke config call breaker).sent ≡ 0))
      × (truthy? config.api_key ≡ true
          → call.now < breaker.open_until
          → ((invoke config call breaker).result ≡ err ProviderError.circuit_open)
            × ((invoke config call breaker).sent ≡ 0))
      × (truthy? config.api_key ≡ true
          → breaker.open_until ≤ call.now
          → Tries config call (invoke config call breaker))
unfolding invoke
invoke-Tries config call breaker =
    let run = attempts call.request call.replies config.max_retries 0 in
    (
      (λ h. ground arith),
      (λ h k. ground arith),
      (λ h k. subst (Tries config call) {x = finish_invoke config call breaker run} (ground arith) (
          LoopEnds-Tries config call breaker run.0 run.1 (
            attempts-LoopEnds call.request call.replies config.max_retries 0 config.max_retries
              (omega arith)))),
    )
