-- ===== src/Notifications/Email.antt =====
-- packages/notifications/src/index.ts: ResendEmailAdapter.send. The replies of the transport, one for each
-- attempt, and how the engine reads a URL and a number are parameters.
pub mod Bounds
use Prim.Native.Char.{code}
use Prim.Native.String
use legacy_vault.Base.{
  ℕ, zero, suc, ◌+◌, ◌*◌, ◌^◌, min, String, Bool, true, false, not, ◌&&◌, ◌||◌, Option, none, some,
  List, [], ◌∷◌, if◌then◌else◌, truthy, truthy?, ltb, leb, ◌==◌, nat_eq, nat_beq, string_eq, any,
  Result, ok, err, ◌>>=◌, ◌>>◌, throw_if, ok_or,
}

pub record EmailMessage : Type 0 where
  pub to : String
  pub subject : String
  pub html : String
  pub text : String
  pub idempotency_key : String

pub record EmailConfig : Type 0 where
  pub api_key : Option String
  pub from : String
  pub base_url : Option String
  pub max_attempts : Option ℕ

pub record Url : Type 0 where
  pub protocol : String
  pub hostname : String

-- A number read from a header: a whole one from 0 on, a negative one, or one that is not finite.
pub data HeaderNumber : Type 0 where
  whole : ℕ → HeaderNumber
  negative not_finite : HeaderNumber

-- `body` is the property `id` of what `json()` gives, where it is a text; `err` where `json()` throws.
pub data EmailReply : Type 0 where
  threw : EmailReply
  response :
      (status : ℕ) (retry_after : Option String) (body : Result String (Option String)) → EmailReply

pub data EmailProblem : Type 0 where
  not_configured header_injection url_invalid endpoint_invalid attempts_invalid : EmailProblem
  response_invalid : (status retry_count : ℕ) → EmailProblem
  http : (status retry_count : ℕ) → EmailProblem
  transport_unavailable : (last_status : Option ℕ) → (retry_count : ℕ) → EmailProblem

unfoldable pub has_line_break : String → Bool
has_line_break String.[] = false
has_line_break (String.◌∷◌ c s) = (nat_beq (code c) 13 || nat_beq (code c) 10) || has_line_break s

-- How the body of the loop ends, if it is not the last one.
pub data EmailJudged : Type 0 where
  delivered : (id : String) → EmailJudged
  failed : EmailProblem → EmailJudged
  busy : (status : ℕ) → (retry_after : Option String) → EmailJudged
  lost : (last_status : Option ℕ) → EmailJudged

unfoldable pub judge_email : ℕ → Option ℕ → EmailReply → EmailJudged
judge_email attempt last_status threw = lost last_status
judge_email attempt last_status (response status retry_after body) =
    if leb 200 status && leb status 299
    then elim body [
      | err error ↦ lost (some status)
      | ok none ↦ failed (response_invalid status attempt)
      | ok (some id) ↦ if truthy id then delivered id else failed (response_invalid status attempt)
    ]
    else (if status == 429 || leb 500 status
        then busy status retry_after
        else failed (http status attempt))

abbrev pub backoff : ℕ → ℕ
backoff attempt = min (100 * 2 ^ attempt) 2_000

-- What a call returns, the milliseconds that it waited each time, and how many requests it sent.
pub record SendRun : Type 0 where
  pub result : Result EmailProblem String
  pub waits : List ℕ
  pub sent : ℕ

abbrev sent_last : Result EmailProblem String → SendRun
sent_last result = record { result = result; waits = []; sent = 1 }

abbrev after_wait : ℕ → SendRun → SendRun
after_wait wait run = record { result = run.result; waits = wait ∷ run.waits; sent = run.sent + 1 }

abbrev pub status_of : EmailJudged → Option ℕ → Option ℕ
status_of (busy status retry_after) last = some status
status_of (lost status) last = status
status_of _ last = last

module _ (number : String → HeaderNumber) where
  -- `Number(headers.get("retry-after"))`; the number of a missing header, `null`, is 0.
  abbrev pub header_number : Option String → HeaderNumber
  header_number none = whole 0
  header_number (some text) = number text

  abbrev pub busy_wait : ℕ → HeaderNumber → ℕ
  busy_wait attempt (whole seconds) = min (seconds * 1_000) 2_000
  busy_wait attempt negative = 0
  busy_wait attempt not_finite = backoff attempt

  -- The loop; `remaining` more attempts may come after this one.
  unfoldable pub send_attempts :
      (ℕ → EmailReply) → (remaining : ℕ) → (attempt : ℕ) → Option ℕ → SendRun
  send_attempts replies zero attempt last_status =
      elim (judge_email attempt last_status (replies attempt)) [
        | delivered id ↦ sent_last (ok id)
        | failed problem ↦ sent_last (err problem)
        | busy status retry_after ↦ sent_last (err (http status attempt))
        | lost status ↦ sent_last (err (transport_unavailable status attempt))
      ]
  send_attempts replies (suc remaining) attempt last_status =
      let judged = judge_email attempt last_status (replies attempt) in
      let rest = send_attempts replies remaining (attempt + 1) (status_of judged last_status) in
      elim judged [
        | delivered id ↦ sent_last (ok id)
        | failed problem ↦ sent_last (err problem)
        | busy status retry_after ↦ after_wait (busy_wait attempt (header_number retry_after)) rest
        | lost status ↦ after_wait (backoff attempt) rest
      ]

  abbrev attempts_of : Option ℕ → ℕ
  attempts_of none = 3
  attempts_of (some n) = n

  -- The guards before the loop, and the number of attempts; `new_url` is `new URL("emails", base)`.
  unfoldable pub check_send :
      (String → Option Url) → EmailConfig → EmailMessage → Result EmailProblem ℕ
  check_send new_url config message = do
    throw_if (not (truthy? config.api_key)) not_configured
    throw_if
        (has_line_break message.to
          || (has_line_break message.subject || has_line_break config.from))
        header_injection
    endpoint ←
        ok_or url_invalid
          (new_url (elim config.base_url [ none ↦ "https://api.resend.com/" | some base ↦ base ]))
    throw_if (not (endpoint.protocol == "https:") || not (endpoint.hostname == "api.resend.com"))
        endpoint_invalid
    throw_if (ltb (attempts_of config.max_attempts) 1 || ltb 5 (attempts_of config.max_attempts))
        attempts_invalid
    ok (attempts_of config.max_attempts)

  abbrev pub start : (ℕ → EmailReply) → ℕ → SendRun
  start replies zero = record { result = err attempts_invalid; waits = []; sent = 0 }
  start replies (suc n) = send_attempts replies n 0 none

  unfoldable pub send :
      (String → Option Url) → EmailConfig → (ℕ → EmailReply) → EmailMessage → SendRun
  send new_url config replies message = elim (check_send new_url config message) [
    | err problem ↦ record { result = err problem; waits = []; sent = 0 }
    | ok attempts ↦ start replies attempts
  ]
