-- ===== src/Audit/Store.antt =====
-- packages/audit/src/store.ts: the audit log of one household in the database. The store is the list of
-- the rows that the household's transactions see; a transaction that throws leaves it as it was.
pub mod Order
pub mod Append
pub mod Pages
use legacy_vault.Base.{
  ℕ, ◌+◌, String, Bool, true, false, not, ◌||◌, Option, none, some, List, [], ◌∷◌, ◌++◌, map,
  filter, take, length, if◌then◌else◌, ltb, leb, Dates, Result, ok, err, ◌>>=◌, ◌>>◌, throw_if,
  ok_or,
}
use legacy_vault.Audit.Chain.{
  Digests, MetaValue, AuditEventInput, ChainedAuditEvent, AuditIntegrityError, largest_safe,
  create_audit_event, verify_audit_chain, pseudonymize_identifier,
}

pub record AuditTenantContext : Type 0 where
  pub organization_id : String
  pub household_id : String

-- A row of audit_events: the time is kept as an instant (`timestamptz`).
pub record AuditRow : Type 0 where
  pub id : String
  pub event : ChainedAuditEvent
  pub occurred : ℕ

pub record AppendInput : Type 0 where
  pub id : String
  pub occurred_at : String
  pub actor_id : String
  pub action : String
  pub outcome : String
  pub metadata : List (String × MetaValue)

pub data AuditStoreError : Type 0 where
  integrity : AuditIntegrityError → AuditStoreError
  time_rejected sequence_invalid limit_invalid verification_failed : AuditStoreError

pub record VerifiedAuditPage : Type 0 where
  pub events : List ChainedAuditEvent
  pub next_sequence : Option ℕ

abbrev lift : {A : Type 0} → Result AuditIntegrityError A → Result AuditStoreError A
lift (ok a) = ok a
lift (err e) = err (integrity e)

abbrev pub sequence_of : AuditRow → ℕ
sequence_of row = row.event.input.sequence

-- `order by sequence desc limit 1`
abbrev pub later : AuditRow → Option AuditRow → AuditRow
later row none = row
later row (some other) = if ltb (sequence_of other) (sequence_of row) then row else other

unfoldable pub last_row : List AuditRow → Option AuditRow
last_row [] = none
last_row (row ∷ rows) = some (later row (last_row rows))

-- `order by sequence`
unfoldable pub insert_row : AuditRow → List AuditRow → List AuditRow
insert_row row [] = row ∷ []
insert_row row (other ∷ rows) =
    if leb (sequence_of row) (sequence_of other)
    then row ∷ other ∷ rows
    else other ∷ insert_row row rows

unfoldable pub order_rows : List AuditRow → List AuditRow
unfolding insert_row
order_rows [] = []
order_rows (row ∷ rows) = insert_row row (order_rows rows)

abbrev pub next_number : Option AuditRow → ℕ
next_number none = 1
next_number (some row) = sequence_of row + 1

abbrev pub last_hash : Option AuditRow → String
last_hash none = "GENESIS"
last_hash (some row) = row.event.event_hash

-- What `append` hands to createAuditEvent.
abbrev pub next_input : AuditTenantContext → AppendInput → List AuditRow → String → AuditEventInput
next_input context input rows actor_pseudonym = record {
  organization_id = context.organization_id;
  household_id = context.household_id;
  sequence = next_number (last_row rows);
  occurred_at = input.occurred_at;
  actor_pseudonym = actor_pseudonym;
  action = input.action;
  outcome = input.outcome;
  metadata = input.metadata;
  previous_hash = last_hash (last_row rows);
}

module _ (d : Digests) (dates : Dates) (audit_key : List ℕ) where
  -- The event that `append` creates on top of the rows.
  unfoldable pub next_event :
      AuditTenantContext
      → AppendInput
      → List AuditRow
      → Result AuditIntegrityError ChainedAuditEvent
  next_event context input rows = do
    actor_pseudonym ← pseudonymize_identifier d input.actor_id audit_key
    create_audit_event d (next_input context input rows actor_pseudonym) audit_key

  -- The database rejects a text that is no time. The columns of the organization and the household are of
  -- the type uuid: `uuid` is the text that such a column gives back for one that was put in.
  abbrev pub stored_event : (String → String) → ChainedAuditEvent → ChainedAuditEvent
  stored_event uuid event = record event {
    input = record event.input {
      organization_id = uuid event.input.organization_id;
      household_id = uuid event.input.household_id;
    };
  }

  unfoldable pub append :
      (uuid : String → String)
      → AuditTenantContext
      → AppendInput
      → List AuditRow
      → Result AuditStoreError (ChainedAuditEvent × List AuditRow)
  append uuid context input rows = do
    event ← lift (next_event context input rows)
    occurred ← ok_or time_rejected (dates.parse event.input.occurred_at)
    ok (
      event,
      rows ++ record { id = input.id; event = stored_event uuid event; occurred = occurred } ∷ [],
    )

  -- An event as it is read back: its time is the instant's text.
  abbrev pub read_event : AuditRow → ChainedAuditEvent
  read_event row = record row.event {
    input = record row.event.input { occurred_at = dates.print row.occurred };
  }

  unfoldable pub read_events : List AuditRow → List ChainedAuditEvent
  read_events rows = map read_event (order_rows rows)

  unfoldable pub verify : List AuditRow → Result AuditStoreError Bool
  verify rows = lift (verify_audit_chain d (read_events rows) audit_key)

  abbrev pub last_sequence : List ChainedAuditEvent → Option ℕ
  last_sequence [] = none
  last_sequence (e ∷ []) = some e.input.sequence
  last_sequence (e ∷ f ∷ es) = last_sequence (f ∷ es)

  abbrev pub page_of : (after limit : ℕ) → List ChainedAuditEvent → VerifiedAuditPage
  page_of after limit events =
      let available = filter (λ event. ltb after event.input.sequence) events in
      let page = take limit available in
      record {
        events = page;
        next_sequence = if ltb (length page) (length available) then last_sequence page else none;
      }

  unfoldable pub read_verified :
      (after limit : ℕ) → List AuditRow → Result AuditStoreError VerifiedAuditPage
  read_verified after limit rows = do
    throw_if (not (leb after largest_safe)) sequence_invalid
    throw_if (not (leb limit largest_safe) || ltb limit 1 || ltb 100 limit) limit_invalid
    valid ← lift (verify_audit_chain d (read_events rows) audit_key)
    throw_if (not valid) verification_failed
    ok (page_of after limit (read_events rows))
