-- ===== src/Domain/Billing/Grace.antt =====
-- deriveBillingAccess: when access is full or in grace, and that it never comes back with time.
use legacy_vault.Base.{
  ℕ, ◌+◌, ◌≤◌, ◌<◌, ◌≡◌, ◌≢◌, ◌↔◌, ◌⊎◌, String, true, some, truthy, none, is_text_iff, Dates,
  latest, arith, value_of,
}
use legacy_vault.Domain.Enums.{active, trialing, past_due}
use legacy_vault.Domain.Billing.{
  BillingAccessMode, full, grace, read_only, BillingInput, derive_billing_access, now_text,
}

-- How much a mode allows.
abbrev pub mode_rank : BillingAccessMode → ℕ
mode_rank read_only = 0
mode_rank grace = 1
mode_rank full = 2

-- A past-due essential subscription, whose last provider update is `t`, at an instant `n` that
-- comes before the end of the 72 hours, 259,200,000 milliseconds, after it.
pub record InGrace (dates : Dates) (clock : String) (input : BillingInput) : Type 0 where
  pub essential : input.plan ≡ some "essential"
  pub late : input.status ≡ past_due
  pub text : String
  pub updated : input.provider_updated_at ≡ some text
  pub present : truthy text ≡ true
  pub t : ℕ
  pub parsed : dates.parse text ≡ some t
  pub n : ℕ
  pub current : dates.parse (now_text dates input.now clock) ≡ some n
  pub holdable : t + 259_200_000 ≤ latest
  pub before : n < t + 259_200_000

-- Access is full exactly for an active or trialing essential subscription.
derive_billing_access-full_iff :
    (dates : Dates) (clock : String) (input : BillingInput)
    → ((derive_billing_access dates clock input).access ≡ full)
      ↔ ((input.plan ≡ some "essential") × ((input.status ≡ active) ⊎ (input.status ≡ trialing)))
unfolding derive_billing_access
derive_billing_access-full_iff dates clock input =
    ground (arith, is_text_iff input.plan "essential")

module _ (dates : Dates) (clock : String) (input : BillingInput)
    (h : (derive_billing_access dates clock input).access ≡ grace) where
  grace_has_update : input.provider_updated_at ≢ none
  unfolding derive_billing_access
  grace_has_update e = ground arith

  module _ (p : String) (updated : input.provider_updated_at ≡ some p) where
    grace_parses : dates.parse p ≢ none
    unfolding derive_billing_access
    grace_parses e = ground arith

    grace_now_parses : dates.parse (now_text dates input.now clock) ≢ none
    unfolding derive_billing_access
    grace_now_parses e = ground arith

    grace-InGrace_at :
        (t n : ℕ)
        → dates.parse p ≡ some t
        → dates.parse (now_text dates input.now clock) ≡ some n
        → InGrace dates clock input
    unfolding derive_billing_access
    grace-InGrace_at t n parsed current = record {
      essential = ground (arith, is_text_iff input.plan "essential");
      late = ground arith;
      text = p;
      updated = updated;
      present = ground arith;
      t = t;
      parsed = parsed;
      n = n;
      current = current;
      holdable = ground arith;
      before = ground arith;
    }

  grace-InGrace : InGrace dates clock input
  grace-InGrace =
      let (p, updated) = value_of grace_has_update in
      let (t, parsed) = value_of (grace_parses p updated) in
      let (n, current) = value_of (grace_now_parses p updated) in
      grace-InGrace_at p updated t n parsed current

InGrace-grace :
    (dates : Dates) (clock : String) (input : BillingInput)
    → InGrace dates clock input
    → (derive_billing_access dates clock input).access ≡ grace
unfolding derive_billing_access
InGrace-grace dates clock input g = ground (arith, is_text_iff input.plan "essential")

-- Access is in grace exactly for a past-due essential subscription before the end of the 72 hours
-- after a provider update that is a date, where that end is an instant that a Date can hold; a time
-- before the update counts, too.
pub derive_billing_access-grace_iff :
    (dates : Dates) (clock : String) (input : BillingInput)
    → ((derive_billing_access dates clock input).access ≡ grace) ↔ InGrace dates clock input
derive_billing_access-grace_iff dates clock input =
    (grace-InGrace dates clock input, InGrace-grace dates clock input)

-- For one subscription, a later instant never gives a mode that allows more.
pub derive_billing_access-antitone :
    (dates : Dates) (clock : String) (input : BillingInput) (a b : String) (m n : ℕ)
    → dates.parse a ≡ some m
    → dates.parse b ≡ some n
    → m ≤ n
    → mode_rank (derive_billing_access dates clock (record input { now = some b })).access
      ≤ mode_rank (derive_billing_access dates clock (record input { now = some a })).access
unfolding derive_billing_access
derive_billing_access-antitone dates clock input a b m n p q le = ground arith

-- Whatever the subscription, the vault can be read; it can be written, documents uploaded, reports
-- and exports made exactly outside read-only access; the AI interview needs full access.
derive_billing_access-entitlements :
    (dates : Dates) (clock : String) (input : BillingInput)
    → let d = derive_billing_access dates clock input in
      (d.entitlements.vault_read ≡ true)
      × ((d.entitlements.vault_write ≡ true) ↔ (d.access ≢ read_only))
      × ((d.entitlements.document_upload ≡ true) ↔ (d.access ≢ read_only))
      × ((d.entitlements.report_generation ≡ true) ↔ (d.access ≢ read_only))
      × ((d.entitlements.export_generation ≡ true) ↔ (d.access ≢ read_only))
      × ((d.entitlements.ai_interview ≡ true) ↔ (d.access ≡ full))
      × ((d.grace_until ≢ none) ↔ (d.access ≡ grace))
unfolding derive_billing_access
derive_billing_access-entitlements dates clock input = ground arith
