-- ===== src/Ai/Provider.antt =====
-- packages/ai-gateway/src/provider.ts: DeepSeekProvider.invoke. The transport's replies are a parameter,
-- one for each attempt; a time is the value of `Date.now()` in milliseconds after 1970.
pub mod Judging
pub mod Runs
pub mod Circuit
use legacy_vault.Base.{
  ℕ, zero, suc, ◌+◌, ◌-◌, ◌^◌, String, Bool, true, false, not, ◌&&◌, ◌||◌, Option, none, some,
  if◌then◌else◌, truthy, truthy?, ltb, leb, ◌==◌, nat_eq, Result, ok, err, ◌>>=◌, ◌>>◌, throw_if,
}

pub record ProviderUsage : Type 0 where
  pub input_tokens : ℕ
  pub output_tokens : ℕ
  pub cache_hit_tokens : ℕ
  pub cache_miss_tokens : ℕ

pub record ProviderResult : Type 0 where
  pub content : String
  pub model : String
  pub usage : ProviderUsage
  pub retry_count : ℕ
  pub request_id : Option String

pub record ProviderRequest : Type 0 where
  pub stable_prefix : String
  pub volatile_content : String
  pub model : String
  pub thinking : Bool
  pub max_output_tokens : ℕ

pub record DeepSeekConfig : Type 0 where
  pub api_key : Option String
  pub model : String
  pub max_retries : ℕ

-- A property of the reply's `usage`: a whole number from 0 on, or any other value.
pub data Counter : Type 0 where
  whole : ℕ → Counter
  other : Counter

pub record ReplyUsage : Type 0 where
  pub prompt_tokens : Option Counter
  pub completion_tokens : Option Counter
  pub prompt_cache_hit_tokens : Option Counter
  pub prompt_cache_miss_tokens : Option Counter

-- `content` is `choices?.[0]?.message?.content`.
pub record ReplyBody : Type 0 where
  pub id : Option String
  pub model : Option String
  pub content : Option String
  pub usage : ReplyUsage

-- What the transport gives for one attempt: it throws an error of a name, also on abort; or it gives a
-- response with its status and the body that `json()` gives, where that does not throw.
pub data Reply : Type 0 where
  threw : (name : String) → Reply
  response : (status : ℕ) → (body : Result String ReplyBody) → Reply

pub data ResponseProblem : Type 0 where
  http : ℕ → ResponseProblem
  content_missing : ResponseProblem
  counter_invalid : (field : String) → ResponseProblem

pub data ProviderError : Type 0 where
  not_configured circuit_open : ProviderError
  unavailable : (message : String) → (retry_count : ℕ) → ProviderError
  response_error : ResponseProblem → ProviderError

unfoldable pub usage_counter : Option Counter → String → Result ResponseProblem ℕ
usage_counter none field = ok 0
usage_counter (some other) field = err (counter_invalid field)
usage_counter (some (whole n)) field = do
  throw_if (not (ltb n (2 ^ 53))) (counter_invalid field)
  ok n

unfoldable pub read_usage : ReplyUsage → Result ResponseProblem ProviderUsage
unfolding usage_counter
read_usage usage = do
  input ← usage_counter usage.prompt_tokens "prompt_tokens"
  output ← usage_counter usage.completion_tokens "completion_tokens"
  hit ← usage_counter usage.prompt_cache_hit_tokens "prompt_cache_hit_tokens"
  miss ← usage_counter usage.prompt_cache_miss_tokens "prompt_cache_miss_tokens"
  ok (record {
    input_tokens = input;
    output_tokens = output;
    cache_hit_tokens = hit;
    cache_miss_tokens = miss;
  })

-- How the body of the loop ends: it returns; it throws a ProviderResponseError, before or after the
-- count of failures is reset; or it goes on, with the name of `lastError`.
pub data Judged : Type 0 where
  answered : ProviderResult → Judged
  refused : ResponseProblem → (reset : Bool) → Judged
  retried : (name : String) → Judged

abbrev model_of : Option String → String → String
model_of none model = model
model_of (some name) model = name

abbrev pub content_of : Option String → String
content_of none = ""
content_of (some text) = text

abbrev pub answer : ProviderRequest → ℕ → ReplyBody → ProviderUsage → ProviderResult
answer request attempt body usage = record {
  content = content_of body.content;
  model = model_of body.model request.model;
  usage = usage;
  retry_count = attempt;
  request_id = if truthy? body.id then body.id else none;
}

unfoldable pub judge_body : ProviderRequest → ℕ → ReplyBody → Judged
judge_body request attempt body =
    if not (truthy? body.content)
    then refused content_missing false
    else elim (read_usage body.usage) [
      | err problem ↦ refused problem true
      | ok usage ↦ answered (answer request attempt body usage)
    ]

-- A status of 429 or of 500 and above makes an Error, whether the loop goes on or ends.
unfoldable pub judge : ProviderRequest → ℕ → Reply → Judged
judge request attempt (threw name) = retried name
judge request attempt (response status body) =
    if status == 429 || leb 500 status
    then retried "Error"
    else (if not (leb 200 status && leb status 299)
        then refused (http status) false
        else elim body [ err name ↦ retried name | ok b ↦ judge_body request attempt b ])

pub data LoopEnd : Type 0 where
  returned : ProviderResult → LoopEnd
  rejected : ResponseProblem → (reset : Bool) → LoopEnd
  exhausted : (name : String) → LoopEnd

-- The loop's end, and how many requests it sent.
unfoldable pub attempts : ProviderRequest → (ℕ → Reply) → (remaining attempt : ℕ) → LoopEnd × ℕ
attempts request replies zero attempt = elim (judge request attempt (replies attempt)) [
  | answered result ↦ (returned result, 1)
  | refused problem reset ↦ (rejected problem reset, 1)
  | retried name ↦ (exhausted name, 1)
]
attempts request replies (suc remaining) attempt =
    let rest = attempts request replies remaining (attempt + 1) in
    elim (judge request attempt (replies attempt)) [
      | answered result ↦ (returned result, 1)
      | refused problem reset ↦ (rejected problem reset, 1)
      | retried name ↦ (rest.0, rest.1 + 1)
    ]

pub record Breaker : Type 0 where
  pub failure_count : ℕ
  pub open_until : ℕ

-- The provider as it is constructed.
abbrev pub new_breaker : Breaker
new_breaker = record { failure_count = 0; open_until = 0 }

pub record InvokeRun : Type 0 where
  pub result : Result ProviderError ProviderResult
  pub breaker : Breaker
  pub sent : ℕ

-- `now` is read at the start of the call, `later` after the loop.
pub record InvokeCall : Type 0 where
  pub request : ProviderRequest
  pub replies : ℕ → Reply
  pub now : ℕ
  pub later : ℕ

abbrev pub reset_failures : Bool → Breaker → Breaker
reset_failures true breaker = record breaker { failure_count = 0 }
reset_failures false breaker = breaker

abbrev pub count_failure : ℕ → Breaker → Breaker
count_failure later breaker = record {
  failure_count = breaker.failure_count + 1;
  open_until = if leb 3 (breaker.failure_count + 1) then later + 30_000 else breaker.open_until;
}

abbrev pub finish_invoke : DeepSeekConfig → InvokeCall → Breaker → LoopEnd × ℕ → InvokeRun
finish_invoke config call breaker (returned result, sent) = record {
  result = ok result;
  breaker = reset_failures true breaker;
  sent = sent;
}
finish_invoke config call breaker (rejected problem reset, sent) = record {
  result = err (response_error problem);
  breaker = reset_failures reset breaker;
  sent = sent;
}
finish_invoke config call breaker (exhausted name, sent) = record {
  result = err (unavailable name config.max_retries);
  breaker = count_failure call.later breaker;
  sent = sent;
}

unfoldable pub invoke : DeepSeekConfig → InvokeCall → Breaker → InvokeRun
invoke config call breaker =
    if not (truthy? config.api_key)
    then record { result = err not_configured; breaker = breaker; sent = 0 }
    else (if ltb call.now breaker.open_until
        then record { result = err circuit_open; breaker = breaker; sent = 0 }
        else finish_invoke config call breaker
            (attempts call.request call.replies config.max_retries 0))
