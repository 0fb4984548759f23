-- ===== src/Repository/Billing.antt =====
-- packages/database/src/repository.ts: processBillingEvent, on the events' ids and the subscription of one
-- household. A time in the tables is an instant.
pub mod Latest
pub mod Written
use legacy_vault.Base.{
  ℕ, ◌+◌, String, Bool, true, false, Option, none, some, List, [], ◌∷◌, if◌then◌else◌, leb,
  contains, string_eq, not, ◌||◌, Result, ok, err, ◌>>=◌,
}
use legacy_vault.Repository.Transactions.{RepositoryError, Operation, unique_violation}

-- What an event says of the subscription.
pub record BillingContent : Type 0 where
  pub provider_customer_id : String
  pub provider_subscription_id : String
  pub status : String
  pub plan : String
  pub trial_ends_at : Option ℕ
  pub current_period_ends_at : Option ℕ
  pub cancel_at_period_end : Bool
  pub canceled_at : Option ℕ

pub record NormalizedBillingEvent : Type 0 where
  pub external_event_id : String
  pub event_type : String
  pub provider_created_at : ℕ
  pub content : BillingContent

pub record SubscriptionRow : Type 0 where
  pub content : BillingContent
  pub provider_updated_at : Option ℕ
  pub version : ℕ

-- `received` are the ids in billing_events, of every household.
pub record BillingTables : Type 0 where
  pub received : List String
  pub subscription : Option SubscriptionRow

pub data BillingOutcome : Type 0 where
  applied duplicate stale : BillingOutcome

-- `provider_updated_at is null or provider_updated_at <= excluded.provider_updated_at`
abbrev pub not_newer : Option ℕ → ℕ → Bool
not_newer none created = true
not_newer (some updated) created = leb updated created

-- The provider ids in the rows of other households: each is unique in the whole table.
pub record OtherSubscriptions : Type 0 where
  pub customers : List String
  pub subscriptions : List String

abbrev pub is_elsewhere : OtherSubscriptions → NormalizedBillingEvent → Bool
is_elsewhere others event =
    contains others.customers event.content.provider_customer_id
    || contains others.subscriptions event.content.provider_subscription_id

abbrev pub subscription_row : NormalizedBillingEvent → ℕ → SubscriptionRow
subscription_row event version = record {
  content = event.content;
  provider_updated_at = some event.provider_created_at;
  version = version;
}

-- The statement `insert ... on conflict do update ... where`, and whether it wrote a row; a row that it
-- writes must not have another household's provider ids.
unfoldable pub upsert_subscription :
    OtherSubscriptions
    → NormalizedBillingEvent
    → Option SubscriptionRow
    → Result RepositoryError (Bool × Option SubscriptionRow)
upsert_subscription others event none =
    if is_elsewhere others event
    then err unique_violation
    else ok (true, some (subscription_row event 1))
upsert_subscription others event (some row) =
    if not (not_newer row.provider_updated_at event.provider_created_at)
    then ok (false, some row)
    else (if is_elsewhere others event
        then err unique_violation
        else ok (true, some (subscription_row event (row.version + 1))))

unfoldable pub process_billing_event :
    OtherSubscriptions → NormalizedBillingEvent → Operation BillingTables BillingOutcome
process_billing_event others event tables =
    if contains tables.received event.external_event_id
    then ok (duplicate, tables)
    else upsert_subscription others event tables.subscription >>= λ w. ok (
      (if w.0 then applied else stale),
      record { received = event.external_event_id ∷ tables.received; subscription = w.1 },
    )
