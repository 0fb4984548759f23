-- ===== src/Notifications/Email/Bounds.antt =====
-- ResendEmailAdapter.send: how often it asks, how long it waits, and what it asks with.
use legacy_vault.Base.{
  ℕ, zero, suc, ◌+◌, ◌≤◌, ◌≡◌, ◌≢◌, ap, ◌∙◌, String, true, false, ◌||◌, leb, Option, none, some,
  List, [], ◌∷◌, arith, All, length, truthy?, string_eq, nat_eq, Result, Result-cases, Option-cases,
  inl, inr, ok, err, ◌==◌,
}
use legacy_vault.Notifications.Email.{
  EmailMessage, EmailConfig, Url, HeaderNumber, EmailReply, response, busy, http, judge_email,
  has_line_break, SendRun, send_attempts, check_send, status_of, send,
}

module _ (number : String → HeaderNumber) (replies : ℕ → EmailReply) where
  -- A run of a loop with so many attempts left.
  pub record IsBounded (most : ℕ) (run : SendRun) : Type 0 where
    pub few : run.sent ≤ most
    pub between : length run.waits + 1 ≡ run.sent
    pub short : All (λ wait. wait ≤ 2_000) run.waits

  send_attempts-IsBounded :
      (remaining attempt : ℕ) (last : Option ℕ)
      → IsBounded (remaining + 1) (send_attempts number replies remaining attempt last)
  unfolding send_attempts
  send_attempts-IsBounded zero attempt last = record {
    few = ground arith;
    between = ground arith;
    short = ground arith;
  }
  send_attempts-IsBounded (suc remaining) attempt last =
      let judged = judge_email attempt last (replies attempt) in
      let rest = send_attempts-IsBounded remaining (attempt + 1) (status_of judged last) in
      record {
        few = ground (arith, rest.few);
        between = ground (arith, rest.between);
        short = ground (arith, rest.short);
      }

abbrev base_of : Option String → String
base_of none = "https://api.resend.com/"
base_of (some base) = base

-- The message can be sent: there is a key, no line break in the recipient, the subject or the sender,
-- and the base URL (the service's own, if none is given) leads to the service over https.
pub record IsSendable (new_url : String → Option Url) (config : EmailConfig)
    (message : EmailMessage) : Type 0 where
  pub configured : truthy? config.api_key ≡ true
  pub to_clean : has_line_break message.to ≡ false
  pub subject_clean : has_line_break message.subject ≡ false
  pub from_clean : has_line_break config.from ≡ false
  pub endpoint : Url
  pub leads : new_url (base_of config.base_url) ≡ some endpoint
  pub secure : endpoint.protocol ≡ "https:"
  pub host : endpoint.hostname ≡ "api.resend.com"

module _ (number : String → HeaderNumber) (new_url : String → Option Url) (config : EmailConfig)
    (message : EmailMessage) where
  check_send-IsSendable :
      (n : ℕ)
      → check_send number new_url config message ≡ ok n
      → IsSendable new_url config message × (1 ≤ n) × (n ≤ 5)
  unfolding check_send
  check_send-IsSendable n h = elim (Option-cases (new_url (base_of config.base_url))) [
    | inl missing ↦ absurd (ground arith)
    | inr (endpoint, leads) ↦ (
      record {
        configured = ground arith;
        to_clean = ground arith;
        subject_clean = ground arith;
        from_clean = ground arith;
        endpoint = endpoint;
        leads = leads;
        secure = ground (arith, string_eq.beq_iff endpoint.protocol "https:");
        host = ground (arith, string_eq.beq_iff endpoint.hostname "api.resend.com");
      },
      ground arith,
      ground arith,
    )
  ]

-- A call that sends anything has a key, no line break in the recipient, the subject or the sender, and
-- an endpoint of the service over https; the idempotency key is not looked at. It sends at most five requests, waits once between two of them, and never longer than two seconds.
pub send_bounds :
    (number : String → HeaderNumber) (new_url : String → Option Url) (config : EmailConfig)
    (message : EmailMessage) (replies : ℕ → EmailReply)
    → (send number new_url config replies message).sent ≢ 0
    → IsSendable new_url config message
      × IsBounded number replies 5 (send number new_url config replies message)
unfolding send
send_bounds number new_url config message replies h =
    elim (Result-cases (check_send number new_url config message)) [
      | inr (e, failed) ↦ absurd (ground arith)
      | inl (zero, checked) ↦ absurd (ground arith)
      | inl (suc n, checked) ↦
          let (sendable, least, most) =
            check_send-IsSendable number new_url config message (suc n) checked in
          let b = send_attempts-IsBounded number replies n 0 none in
          (
            sendable,
            rw (send, checked)
                (record {
                  few = ground (arith, b.few, most);
                  between = b.between;
                  short = b.short;
                }),
          )
    ]

abbrev pub zeros : ℕ → List ℕ
zeros zero = []
zeros (suc n) = 0 ∷ zeros n

busy_lem :
    (attempt : ℕ) (last : Option ℕ) (reply : EmailReply) (status : ℕ)
    (body : Result String (Option String))
    → (status == 429 || leb 500 status) ≡ true
    → reply ≡ response status none body
    → judge_email attempt last reply ≡ busy status none
unfolding judge_email
busy_lem attempt last reply status body h e = ground arith

send_attempts-busy :
    (number : String → HeaderNumber) (replies : ℕ → EmailReply) (status : ℕ)
    → ((k : ℕ) (last : Option ℕ) → judge_email k last (replies k) ≡ busy status none)
    → (remaining attempt : ℕ) (last : Option ℕ)
    → ((send_attempts number replies remaining attempt last).waits ≡ zeros remaining)
      × ((send_attempts number replies remaining attempt last).sent ≡ remaining + 1)
      × ((send_attempts number replies remaining attempt last).result
          ≡ err (http status (attempt + remaining)))
unfolding send_attempts
send_attempts-busy number replies status h zero attempt last = ground (arith, h attempt last)
send_attempts-busy number replies status h (suc remaining) attempt last = ground (
  arith,
  h attempt last,
  send_attempts-busy number replies status h remaining (attempt + 1) (some status),
)

-- The service answers that it is busy, or has failed, and names no time to wait: the call asks again at
-- once each time, without the growing waits that a lost connection gets, and fails with that status.
pub send_busy_waits :
    (number : String → HeaderNumber) (new_url : String → Option Url) (config : EmailConfig)
    (message : EmailMessage) (replies : ℕ → EmailReply) (n status : ℕ)
    (body : Result String (Option String))
    → check_send number new_url config message ≡ ok (suc n)
    → (status == 429 || leb 500 status) ≡ true
    → ((k : ℕ) → replies k ≡ response status none body)
    → ((send number new_url config replies message).waits ≡ zeros n)
      × ((send number new_url config replies message).sent ≡ n + 1)
      × ((send number new_url config replies message).result ≡ err (http status n))
unfolding send
send_busy_waits number new_url config message replies n status body checked is_busy same =
    let judged =
      λ (k : ℕ) (last : Option ℕ). busy_lem k last (replies k) status body is_busy (same k) in
    let (waits, sent, result) = send_attempts-busy number replies status judged n 0 none in
    rw (send, checked) (waits, sent, result ∙ ap (λ k. err (http status k)) (omega arith))
