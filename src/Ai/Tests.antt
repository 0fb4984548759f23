-- ===== src/Ai/Tests.antt =====
-- The provider at concrete calls.
use legacy_vault.Base.{
  true, ℕ, ◌+◌, ◌≤◌, ◌<◌, ◌≡◌, refl, none, some, List, [], ◌∷◌, false, ok, err, truthy?, arith,
}
use legacy_vault.Ai.Provider.{
  ProviderRequest, ProviderResult, ProviderUsage, DeepSeekConfig, Reply, Breaker, new_breaker,
  InvokeCall, circuit_open, not_configured, invoke, attempts, judge, judge_body, read_usage,
}
use legacy_vault.Ai.Provider
use legacy_vault.Ai.Provider.Runs.{Tries, invoke-Tries}
use legacy_vault.Ai.Provider.Circuit.{invoke_all, AllUnavailable, circuit_opens}

abbrev config : DeepSeekConfig
config = record { api_key = some "k"; model = "m"; max_retries = 2 }

abbrev request : ProviderRequest
request = record {
  stable_prefix = "s";
  volatile_content = "v";
  model = "m";
  thinking = false;
  max_output_tokens = 10;
}

-- Every attempt fails.
abbrev down : ℕ → InvokeCall
down t = record {
  request = request;
  replies = λ k. Reply.threw "TypeError";
  now = t;
  later = t + 10;
}

abbrev no_usage : Provider.ReplyUsage
no_usage = record {
  prompt_tokens = none;
  completion_tokens = none;
  prompt_cache_hit_tokens = none;
  prompt_cache_miss_tokens = none;
}

abbrev body : Provider.ReplyBody
body = record { id = none; model = none; content = some "{}"; usage = no_usage }

abbrev up : InvokeCall
up = record { request = request; replies = λ k. Reply.response 200 (ok body); now = 5; later = 6 }

abbrev no_tokens : ProviderUsage
no_tokens = record {
  input_tokens = 0;
  output_tokens = 0;
  cache_hit_tokens = 0;
  cache_miss_tokens = 0;
}

abbrev answer : ProviderResult
answer = record {
  content = "{}";
  model = "m";
  usage = no_tokens;
  retry_count = 0;
  request_id = none;
}

up_answers : (invoke config up new_breaker).result ≡ ok answer
unfolding invoke attempts judge judge_body read_usage
up_answers = refl

invoke-Tries_example :
    (truthy? config.api_key ≡ false
      → ((invoke config up new_breaker).result ≡ err not_configured)
        × ((invoke config up new_breaker).sent ≡ 0))
    × (truthy? config.api_key ≡ true
        → up.now < new_breaker.open_until
        → ((invoke config up new_breaker).result ≡ err circuit_open)
          × ((invoke config up new_breaker).sent ≡ 0))
    × (truthy? config.api_key ≡ true
        → new_breaker.open_until ≤ up.now
        → Tries config up (invoke config up new_breaker))
invoke-Tries_example = invoke-Tries config up new_breaker

abbrev outage : List InvokeCall
outage = down 1 ∷ down 20 ∷ down 40 ∷ []

outage_unavailable : AllUnavailable config new_breaker outage
unfolding invoke attempts judge
outage_unavailable = (("TypeError", refl), (("TypeError", refl), (("TypeError", refl), tt)))

circuit_opens_example :
    ((invoke config (down 60) (invoke_all config new_breaker outage)).result ≡ err circuit_open)
    × ((invoke config (down 60) (invoke_all config new_breaker outage)).sent ≡ 0)
    × ((invoke config (down 60) (invoke_all config new_breaker outage)).breaker
        ≡ invoke_all config new_breaker outage)
circuit_opens_example =
    circuit_opens config new_breaker outage (down 60) refl outage_unavailable (omega arith)
      (omega arith)
