-- ===== src/Repository/Billing/Latest.antt =====
-- processBillingEvent: which event the subscription shows, in whatever order and however often the
-- events arrive.
use legacy_vault.Base.{
  ◌≤◌, ◌≡◌, refl, sym, ◌==◌, String, true, false, Option, none, List, [], ◌∷◌, arith, ok,
  Result-cases, All, Any, here, there, contains, string_eq, Bool-cases, inl, inr, eq_self,
}
use mathlib.Core.Path.{subst}
use legacy_vault.Repository.Transactions.{with_tenant}
use legacy_vault.Repository.Billing.{
  NormalizedBillingEvent, SubscriptionRow, BillingTables, BillingOutcome, OtherSubscriptions,
  duplicate, upsert_subscription, process_billing_event,
}
use legacy_vault.Repository.Billing.Written.{fits, ShowsLatest, written, written-ShowsLatest}

-- The tables before the first event.
abbrev pub no_events : BillingTables
no_events = record { received = []; subscription = none }

-- The tables after the events, of which the first in the list comes last.
unfoldable pub process_all : OtherSubscriptions → List NormalizedBillingEvent → BillingTables
process_all others [] = no_events
process_all others (event ∷ earlier) =
    (with_tenant (process_billing_event others event) (process_all others earlier)).1

-- Events with one id are one event, delivered more than once.
abbrev pub AreRedeliveries : List NormalizedBillingEvent → Type 0
AreRedeliveries [] = Unit
AreRedeliveries (e ∷ es) =
    All (λ f. f.external_event_id ≡ e.external_event_id → f ≡ e) es × AreRedeliveries es

module _ (others : OtherSubscriptions) where
  received-Any :
      (es : List NormalizedBillingEvent) (id : String)
      → contains (process_all others es).received id ≡ true
      → Any (λ f. f.external_event_id ≡ id) es
  unfolding process_all process_billing_event
  received-Any [] id h = cc
  received-Any (e ∷ es) id h = elim (Bool-cases (e.external_event_id == id)) [
    | inl same ↦ here ((string_eq.beq_iff e.external_event_id id).0 same)
    | inr other ↦ there (received-Any es id (ground arith))
  ]

  -- What holds of each event of a list holds of one that was received before.
  redelivered :
      (P : NormalizedBillingEvent → Type 0) (e : NormalizedBillingEvent)
      (es : List NormalizedBillingEvent)
      → All (λ f. f.external_event_id ≡ e.external_event_id → f ≡ e) es
      → Any (λ f. f.external_event_id ≡ e.external_event_id) es
      → All P es
      → P e
  redelivered P e (f ∷ es) (h, hs) (here same) (k, ks) = subst P (h same) k
  redelivered P e (f ∷ es) (h, hs) (there t) (k, ks) = redelivered P e es hs t ks
  redelivered P e [] h t k = elim t [ ]

  known_lem :
      (e : NormalizedBillingEvent) (tables : BillingTables)
      → contains tables.received e.external_event_id ≡ true
      → (with_tenant (process_billing_event others e) tables).1.subscription ≡ tables.subscription
  unfolding process_billing_event
  known_lem e tables h = ground arith

  new_lem :
      (e : NormalizedBillingEvent) (tables : BillingTables)
      → contains tables.received e.external_event_id ≡ false
      → (with_tenant (process_billing_event others e) tables).1.subscription
        ≡ written others e tables.subscription
  unfolding process_billing_event
  new_lem e tables h = ground arith

  known-ShowsLatest :
      (e : NormalizedBillingEvent) (es : List NormalizedBillingEvent) (row : Option SubscriptionRow)
      → All (λ f. f.external_event_id ≡ e.external_event_id → f ≡ e) es
      → Any (λ f. f.external_event_id ≡ e.external_event_id) es
      → ShowsLatest others es row
      → ShowsLatest others (e ∷ es) row
  known-ShowsLatest e es row same listed (inl (none_yet, unfit)) =
      inl (none_yet, (redelivered (λ f. fits others f ≡ false) e es same listed unfit, unfit))
  known-ShowsLatest e es row same listed (inr l) = inr (record {
    event = l.event;
    listed = there l.listed;
    fitting = l.fitting;
    shown = l.shown;
    newest = (
      redelivered (λ f. fits others f ≡ true → f.provider_created_at ≤ l.event.provider_created_at)
          e es same listed l.newest,
      l.newest,
    );
  })

  -- Whatever the order in which the events of a household arrive, and however often each is delivered, an
  -- event that throws because another household has one of its provider ids leaving the tables: the
  -- subscription shows one of the events whose ids no other household has, and none of these is newer;
  -- there is no subscription exactly while there is no such event.
  pub process_all-ShowsLatest :
      (es : List NormalizedBillingEvent)
      → AreRedeliveries es
      → ShowsLatest others es (process_all others es).subscription
  unfolding process_all
  process_all-ShowsLatest [] h = inl (refl, tt)
  process_all-ShowsLatest (e ∷ es) (h, hs) =
      let tables = process_all others es in
      let before = process_all-ShowsLatest es hs in
      elim (Bool-cases (contains tables.received e.external_event_id)) [
        | inl known ↦ subst (ShowsLatest others (e ∷ es)) (sym (known_lem e tables known)) (
            known-ShowsLatest e es tables.subscription h (received-Any es e.external_event_id known)
              before)
        | inr new ↦
            subst (ShowsLatest others (e ∷ es)) (sym (new_lem e tables new))
              (written-ShowsLatest others e es tables.subscription before)
      ]

  -- An event that arrives once more, in whatever state the tables are, is found to be a duplicate and
  -- changes nothing.
  process_billing_event_again :
      (e : NormalizedBillingEvent) (tables after : BillingTables) (outcome : BillingOutcome)
      → process_billing_event others e tables ≡ ok (outcome, after)
      → process_billing_event others e after ≡ ok (duplicate, after)
  unfolding process_billing_event
  process_billing_event_again e tables after outcome h =
      elim (Bool-cases (contains tables.received e.external_event_id)) [
        | inl known ↦ ground (arith, h)
        | inr new ↦ elim (Result-cases (upsert_subscription others e tables.subscription)) [
          | inl (w, u) ↦ ground (arith, h, eq_self e.external_event_id)
          | inr (error, u) ↦ absurd (ground (arith, h))
        ]
      ]
