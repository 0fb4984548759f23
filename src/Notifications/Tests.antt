-- ===== src/Notifications/Tests.antt =====
-- ResendEmailAdapter.send at a concrete message, with a service that is always busy.
use legacy_vault.Base.{
  ℕ, suc, ◌+◌, ◌≡◌, ◌≢◌, refl, String, Option, none, some, ok, err, arith, nat_eq,
}
use legacy_vault.Notifications.Email.{
  EmailMessage, EmailConfig, Url, HeaderNumber, EmailReply, response, http, check_send,
  has_line_break, send,
}
use legacy_vault.Notifications.Email.Bounds.{
  IsSendable, IsBounded, send_bounds, zeros, send_busy_waits,
}

abbrev message : EmailMessage
message = record { to = "a@b.c"; subject = "Hello"; html = "h"; text = "t"; idempotency_key = "k" }

abbrev config : EmailConfig
config = record { api_key = some "k"; from = "v@b.c"; base_url = none; max_attempts = none }

abbrev new_url : String → Option Url
new_url base = some (record { protocol = "https:"; hostname = "api.resend.com" })

abbrev number : String → HeaderNumber
number text = HeaderNumber.not_finite

abbrev replies : ℕ → EmailReply
replies k = response 503 none (ok none)

is_sendable : check_send number new_url config message ≡ ok (suc 2)
unfolding check_send has_line_break
is_sendable = refl

send_busy_waits_example :
    ((send number new_url config replies message).waits ≡ zeros 2)
    × ((send number new_url config replies message).sent ≡ 2 + 1)
    × ((send number new_url config replies message).result ≡ err (http 503 2))
send_busy_waits_example =
    send_busy_waits number new_url config message replies 2 503 (ok none) is_sendable refl
      (λ k. refl)

something_sent : (send number new_url config replies message).sent ≢ 0
something_sent h =
    let (waits, sent, result) =
      send_busy_waits number new_url config message replies 2 503 (ok none) is_sendable refl
        (λ k. refl) in
    ground (arith, sent)

send_bounds_example :
    IsSendable new_url config message
    × IsBounded number replies 5 (send number new_url config replies message)
send_bounds_example = send_bounds number new_url config message replies something_sent
