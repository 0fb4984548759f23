-- ===== src/Repository/Tests.antt =====
-- processBillingEvent at two events, of which the older arrives last.
mod Reviews
mod Consents
mod Households
mod Papers
use legacy_vault.Base.{ℕ, ◌≡◌, ◌≢◌, arith, string_eq, String, false, none, [], ◌∷◌}
use legacy_vault.Repository.Billing.{
  OtherSubscriptions, BillingContent, NormalizedBillingEvent, duplicate, process_billing_event,
}
use legacy_vault.Repository.Billing.Written.{ShowsLatest}
use legacy_vault.Repository.Billing.Latest.{no_events, process_all, process_all-ShowsLatest}

abbrev content : String → BillingContent
content status = record {
  provider_customer_id = "c";
  provider_subscription_id = "s";
  status = status;
  plan = "essential";
  trial_ends_at = none;
  current_period_ends_at = none;
  cancel_at_period_end = false;
  canceled_at = none;
}

abbrev event : String → ℕ → String → NormalizedBillingEvent
event id created status = record {
  external_event_id = id;
  event_type = "customer.subscription.updated";
  provider_created_at = created;
  content = content status;
}

abbrev past_due : NormalizedBillingEvent
past_due = event "e1" 10 "past_due"

abbrev active : NormalizedBillingEvent
active = event "e2" 20 "active"

ids_ne : ◌≢◌ {A = String} "e2" "e1"
ids_ne h = ground (arith, (string_eq.beq_iff "e2" "e1").1 h)

abbrev others : OtherSubscriptions
others = record { customers = "x" ∷ []; subscriptions = [] }

process_all-ShowsLatest_example :
    ShowsLatest others
      (past_due ∷ active ∷ [])
      (process_all others (past_due ∷ active ∷ [])).subscription
process_all-ShowsLatest_example =
    process_all-ShowsLatest others (past_due ∷ active ∷ [])
      (((λ same. absurd (ids_ne same)), tt), (tt, tt))
