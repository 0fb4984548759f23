-- ===== src/Ai/Provider/Circuit.antt =====
-- DeepSeekProvider's circuit breaker: a history of calls on one provider.
use legacy_vault.Base.{
  ℕ, ◌+◌, ◌≤◌, ◌<◌, ◌≡◌, String, true, List, [], ◌∷◌, arith, truthy?, err, length,
}
use legacy_vault.Ai.Provider.{
  DeepSeekConfig, unavailable, circuit_open, Breaker, InvokeCall, invoke,
}

module _ (config : DeepSeekConfig) where
  -- The provider after some calls, each made when the one before it is over.
  unfoldable pub invoke_all : Breaker → List InvokeCall → Breaker
  invoke_all breaker [] = breaker
  invoke_all breaker (call ∷ calls) = invoke_all (invoke config call breaker).breaker calls

  -- Every one of the calls uses up its attempts.
  abbrev pub AllUnavailable : Breaker → List InvokeCall → Type 0
  AllUnavailable breaker [] = Unit
  AllUnavailable breaker (call ∷ calls) =
      ((name : String) × ((invoke config call breaker).result
          ≡ err (unavailable name config.max_retries)))
      × AllUnavailable (invoke config call breaker).breaker calls

  -- The time that the last of the calls read after its loop.
  abbrev pub last_time : ℕ → List InvokeCall → ℕ
  last_time time [] = time
  last_time time (call ∷ calls) = last_time call.later calls

  invoke_unavailable :
      (call : InvokeCall) (breaker : Breaker) (name : String)
      → (invoke config call breaker).result ≡ err (unavailable name config.max_retries)
      → ((invoke config call breaker).breaker.failure_count ≡ breaker.failure_count + 1)
        × (3 ≤ breaker.failure_count + 1
            → (invoke config call breaker).breaker.open_until ≡ call.later + 30_000)
  unfolding invoke
  invoke_unavailable call breaker name h = ground arith

  invoke_all_open :
      (call : InvokeCall) (calls : List InvokeCall) (breaker : Breaker) (time : ℕ)
      → AllUnavailable breaker (call ∷ calls)
      → 3 ≤ breaker.failure_count + length (call ∷ calls)
      → (invoke_all breaker (call ∷ calls)).open_until ≡ last_time time (call ∷ calls) + 30_000
  unfolding invoke_all
  invoke_all_open call [] breaker time ((name, h), hs) long =
      (invoke_unavailable call breaker name h).1 (omega arith)
  invoke_all_open call (next ∷ calls) breaker time ((name, h), hs) long =
      let count = (invoke_unavailable call breaker name h).0 in
      invoke_all_open next calls (invoke config call breaker).breaker call.later hs (omega arith)

  refused_lem :
      (call : InvokeCall) (breaker : Breaker)
      → truthy? config.api_key ≡ true
      → call.now < breaker.open_until
      → ((invoke config call breaker).result ≡ err circuit_open)
        × ((invoke config call breaker).sent ≡ 0)
        × ((invoke config call breaker).breaker ≡ breaker)
  unfolding invoke
  refused_lem call breaker key early = ground arith

-- After three or more calls in a row that use up their attempts, whatever came before them, each call
-- within 30 seconds of the last one's end is refused: nothing is sent, and the provider stays as it is.
pub circuit_opens :
    (config : DeepSeekConfig) (breaker : Breaker) (calls : List InvokeCall) (next : InvokeCall)
    → truthy? config.api_key ≡ true
    → AllUnavailable config breaker calls
    → 3 ≤ length calls
    → next.now < last_time config 0 calls + 30_000
    → ((invoke config next (invoke_all config breaker calls)).result ≡ err circuit_open)
      × ((invoke config next (invoke_all config breaker calls)).sent ≡ 0)
      × ((invoke config next (invoke_all config breaker calls)).breaker
          ≡ invoke_all config breaker calls)
circuit_opens config breaker [] next key h long early = absurd (omega arith)
circuit_opens config breaker (call ∷ calls) next key h long early =
    let opened = invoke_all_open config call calls breaker 0 h (omega arith) in
    refused_lem config next (invoke_all config breaker (call ∷ calls)) key (omega arith)
