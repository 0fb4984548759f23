-- ===== src/Ai/Provider/Judging.antt =====
-- What one attempt of DeepSeekProvider.invoke comes to, read off the reply.
use mathlib.Core.Path.{subst}
use legacy_vault.Base.{
  ℕ, ◌≤◌, ◌<◌, ◌^◌, ◌≡◌, ◌≢◌, ◌⊎◌, inl, inr, refl, String, true, false, Option, none, some, Result,
  truthy?, arith, Bool-cases, Result-cases, ok, err, nat_eq, ◌==◌, leb, ◌||◌, ◌&&◌,
}
use legacy_vault.Ai.Provider.{
  Reply, ReplyBody, ReplyUsage, Counter, ProviderRequest, ProviderResult, ProviderUsage,
  ResponseProblem, Judged, answered, refused, retried, judge, judge_body, answer, content_of,
  read_usage, usage_counter,
}

-- A counter that is missing counts as 0; one that is given is a whole number below 2 ^ 53.
abbrev pub Counts : Option Counter → ℕ → Type 0
Counts none n = n ≡ 0
Counts (some (Counter.whole m)) n = (m ≡ n) × (m < 2 ^ 53)
Counts (some Counter.other) n = ⊥

pub record IsUsage (given : ReplyUsage) (u : ProviderUsage) : Type 0 where
  pub input : Counts given.prompt_tokens u.input_tokens
  pub output : Counts given.completion_tokens u.output_tokens
  pub hit : Counts given.prompt_cache_hit_tokens u.cache_hit_tokens
  pub miss : Counts given.prompt_cache_miss_tokens u.cache_miss_tokens

-- A result for a reply at an attempt: its content and usage, the model that it names or else the
-- request's, and its id if it has one.
pub record IsResult (request : ProviderRequest) (attempt : ℕ) (body : ReplyBody)
    (r : ProviderResult) : Type 0 where
  pub content : some r.content ≡ body.content
  pub named : (m : String) → body.model ≡ some m → r.model ≡ m
  pub unnamed : body.model ≡ none → r.model ≡ request.model
  pub usage : IsUsage body.usage r.usage
  pub retry_count : r.retry_count ≡ attempt
  pub request_id : truthy? body.id ≡ true → r.request_id ≡ body.id
  pub no_id : truthy? body.id ≡ false → r.request_id ≡ none

-- A request that throws, a busy or failing service and an unreadable body of a success are tried again;
-- any other status, an empty content and a bad counter are refused; the rest is answered.
pub data Fate (request : ProviderRequest) (attempt : ℕ) : Reply → Judged → Type 0 where
  broken : {name : String} → Fate request attempt (Reply.threw name) (retried name)
  busy :
      {status : ℕ} {body : Result String ReplyBody}
      → (status ≡ 429) ⊎ (500 ≤ status)
      → Fate request attempt (Reply.response status body) (retried "Error")
  unreadable :
      {status : ℕ} {name : String}
      → 200 ≤ status
      → status ≤ 299
      → Fate request attempt (Reply.response status (err name)) (retried name)
  failed :
      {status : ℕ} {body : Result String ReplyBody}
      → status ≢ 429
      → status < 500
      → (status < 200) ⊎ (299 < status)
      → Fate request attempt
          (Reply.response status body)
          (refused (ResponseProblem.http status) false)
  empty :
      {status : ℕ} {body : ReplyBody}
      → 200 ≤ status
      → status ≤ 299
      → truthy? body.content ≡ false
      → Fate request attempt
          (Reply.response status (ok body))
          (refused ResponseProblem.content_missing false)
  miscounted :
      {status : ℕ} {body : ReplyBody} {field : String}
      → 200 ≤ status
      → status ≤ 299
      → truthy? body.content ≡ true
      → ((u : ProviderUsage) → IsUsage body.usage u → ⊥)
      → Fate request attempt
          (Reply.response status (ok body))
          (refused (ResponseProblem.counter_invalid field) true)
  answers :
      {status : ℕ} {body : ReplyBody} {r : ProviderResult}
      → 200 ≤ status
      → status ≤ 299
      → truthy? body.content ≡ true
      → IsResult request attempt body r
      → Fate request attempt (Reply.response status (ok body)) (answered r)

usage_counter-Counts :
    (c : Option Counter) (field : String) (n : ℕ) → usage_counter c field ≡ ok n → Counts c n
unfolding usage_counter
usage_counter-Counts none field n h = ground arith
usage_counter-Counts (some (Counter.whole m)) field n h = ground arith
usage_counter-Counts (some Counter.other) field n h = ground arith

-- A counter that is refused by its name is none.
record IsBad (c : Option Counter) (field : String) (p : ResponseProblem) : Type 0 where
  problem : p ≡ ResponseProblem.counter_invalid field
  never : (n : ℕ) → Counts c n → ⊥

usage_counter-IsBad :
    (c : Option Counter) (field : String) (p : ResponseProblem)
    → usage_counter c field ≡ err p
    → IsBad c field p
unfolding usage_counter
usage_counter-IsBad none field p h = absurd (ground arith)
usage_counter-IsBad (some (Counter.whole m)) field p h = record {
  problem = ground arith;
  never = λ n k. ground (arith, k);
}
usage_counter-IsBad (some Counter.other) field p h = record {
  problem = ground arith;
  never = λ n k. k;
}

-- The usage is the one counted, or no usage counts and a counter is at fault.
read_usage-cases :
    (given : ReplyUsage)
    → ((u : ProviderUsage) × (read_usage given ≡ ok u) × IsUsage given u)
      ⊎ ((field : String) × (read_usage given ≡ err (ResponseProblem.counter_invalid field))
          × ((u : ProviderUsage) → IsUsage given u → ⊥))
unfolding read_usage
read_usage-cases given = elim (Result-cases (usage_counter given.prompt_tokens "prompt_tokens")) [
  | inr (p, a) ↦
      let bad = usage_counter-IsBad given.prompt_tokens "prompt_tokens" p a in
      inr
        ("prompt_tokens", ground (arith, bad.problem), (λ u is. bad.never u.input_tokens is.input))
  | inl (input, a) ↦
      elim (Result-cases (usage_counter given.completion_tokens "completion_tokens")) [
        | inr (p, b) ↦
            let bad = usage_counter-IsBad given.completion_tokens "completion_tokens" p b in
            inr (
              "completion_tokens",
              ground (arith, bad.problem),
              (λ u is. bad.never u.output_tokens is.output),
            )
        | inl (output, b) ↦
            elim (Result-cases
              (usage_counter given.prompt_cache_hit_tokens "prompt_cache_hit_tokens")) [
                | inr (p, c) ↦
                    let bad =
                      usage_counter-IsBad given.prompt_cache_hit_tokens "prompt_cache_hit_tokens" p
                        c in
                    inr (
                      "prompt_cache_hit_tokens",
                      ground (arith, bad.problem),
                      (λ u is. bad.never u.cache_hit_tokens is.hit),
                    )
                | inl (hit, c) ↦
                    elim (Result-cases
                      (usage_counter given.prompt_cache_miss_tokens "prompt_cache_miss_tokens")) [
                        | inr (p, d) ↦
                            let bad =
                              usage_counter-IsBad given.prompt_cache_miss_tokens
                                "prompt_cache_miss_tokens" p d in
                            inr (
                              "prompt_cache_miss_tokens",
                              ground (arith, bad.problem),
                              (λ u is. bad.never u.cache_miss_tokens is.miss),
                            )
                        | inl (miss, d) ↦ inl (
                          record {
                            input_tokens = input;
                            output_tokens = output;
                            cache_hit_tokens = hit;
                            cache_miss_tokens = miss;
                          },
                          ground arith,
                          record {
                            input =
                                usage_counter-Counts given.prompt_tokens "prompt_tokens" input a;
                            output =
                                usage_counter-Counts given.completion_tokens "completion_tokens"
                                  output b;
                            hit =
                                usage_counter-Counts given.prompt_cache_hit_tokens
                                  "prompt_cache_hit_tokens" hit c;
                            miss =
                                usage_counter-Counts given.prompt_cache_miss_tokens
                                  "prompt_cache_miss_tokens" miss d;
                          },
                        )
                      ]
              ]
      ]
]

content_is : (o : Option String) → truthy? o ≡ true → some (content_of o) ≡ o
content_is none h = cc
content_is (some text) h = refl

module _ (request : ProviderRequest) (attempt : ℕ) where
  judge_body-Fate :
      (status : ℕ) (body : ReplyBody)
      → 200 ≤ status
      → status ≤ 299
      → Fate request attempt (Reply.response status (ok body)) (judge_body request attempt body)
  unfolding judge_body
  judge_body-Fate status body low high = elim (Bool-cases (truthy? body.content)) [
    | inr void ↦
        subst (Fate request attempt (Reply.response status (ok body)))
          {x = refused ResponseProblem.content_missing false} (ground arith) (empty low high void)
    | inl some_content ↦ elim (read_usage-cases body.usage) [
      | inl (u, e, is) ↦
          subst (Fate request attempt (Reply.response status (ok body)))
            {x = answered (answer request attempt body u)} (ground (arith, e))
            (answers low high some_content (record {
              content = content_is body.content some_content;
              named = λ m h. ground arith;
              unnamed = λ h. ground arith;
              usage = is;
              retry_count = refl;
              request_id = λ h. ground arith;
              no_id = λ h. ground arith;
            }))
      | inr (field, e, never) ↦
          subst (Fate request attempt (Reply.response status (ok body)))
            {x = refused (ResponseProblem.counter_invalid field) true} (ground (arith, e))
            (miscounted low high some_content never)
    ]
  ]

  pub judge-Fate : (reply : Reply) → Fate request attempt reply (judge request attempt reply)
  unfolding judge
  judge-Fate (Reply.threw name) = broken
  judge-Fate (Reply.response status body) =
      let fate = Fate request attempt (Reply.response status body) in
      elim (Bool-cases (status == 429 || leb 500 status)) [
        | inl h ↦ subst fate {x = retried "Error"} (ground arith) (busy (ground arith))
        | inr h ↦ elim (Bool-cases (leb 200 status && leb status 299)) [
          | inr k ↦
              subst fate {x = refused (ResponseProblem.http status) false} (ground arith)
                (failed (ground arith) (ground arith) (ground arith))
          | inl k ↦ read_body body h k
        ]
      ]
    where
      read_body :
          {status : ℕ} (body : Result String ReplyBody)
          → (status == 429 || leb 500 status) ≡ false
          → (leb 200 status && leb status 299) ≡ true
          → Fate request attempt
              (Reply.response status body)
              (judge request attempt (Reply.response status body))
      read_body {status} (err name) h k =
          subst (Fate request attempt (Reply.response status (err name))) {x = retried name}
            (ground arith) (unreadable (ground arith) (ground arith))
      read_body {status} (ok body) h k =
          subst (Fate request attempt (Reply.response status (ok body)))
            {x = judge_body request attempt body} (ground arith)
            (judge_body-Fate status body (ground arith) (ground arith))
