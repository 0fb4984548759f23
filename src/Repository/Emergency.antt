-- ===== src/Repository/Emergency.antt =====
-- packages/database/src/repository.ts: the statements on the table `emergency_access_requests` of one
-- household. A time in the table is an instant; an absent releaseAfter is null.
pub mod Release
pub mod Stages
use legacy_vault.Base.{
  ℕ, ◌+◌, String, Bool, true, false, ◌&&◌, Option, none, some, List, ◌==◌, leb, any, not, nat_eq,
  string_eq, Result, ok, ◌>>=◌, ◌>>◌, ok_or, throw_if,
}
use legacy_vault.Domain.Enums.{
  RecordCategory, EmergencyAccessStatus, requested, denied, delayed, released, emergency_eq, Role,
  emergency_recipient, role_eq,
}
use legacy_vault.Repository.Transactions.{
  TenantContext, RepositoryError, Operation, unique_violation, recipient_invalid,
  request_unavailable, decision_conflict, release_conflict,
}
use legacy_vault.Repository.Rows.{find_row, add_row, change_row}
use legacy_vault.Repository.Facts.{Ciphertext}

pub record EmergencyRow : Type 0 where
  pub id : String
  pub organization_id : String
  pub household_id : String
  pub requester_id : String
  pub recipient_membership_id : String
  pub categories : List RecordCategory
  pub reason_encrypted : Ciphertext
  pub status : EmergencyAccessStatus
  pub requested_at : ℕ
  pub decision_at : Option ℕ
  pub release_after : Option ℕ
  pub version : ℕ

pub record EmergencyInput : Type 0 where
  pub id : String
  pub recipient_membership_id : String
  pub categories : List RecordCategory
  pub reason_encrypted : Ciphertext
  pub requested_at : ℕ

-- The columns of a membership that the request looks at.
pub record Recipient : Type 0 where
  pub id : String
  pub person_id : String
  pub active : Bool
  pub role : Role

-- `returning id,status,version`
pub record EmergencyAnswer : Type 0 where
  pub id : String
  pub status : EmergencyAccessStatus
  pub version : ℕ

abbrev pub emergency_id : EmergencyRow → String
emergency_id row = row.id

abbrev pub emergency_answer : EmergencyRow → EmergencyAnswer
emergency_answer row = record { id = row.id; status = row.status; version = row.version }

abbrev pub requested_row : TenantContext → EmergencyInput → EmergencyRow
requested_row context input = record {
  id = input.id;
  organization_id = context.organization_id;
  household_id = context.household_id;
  requester_id = context.actor_id;
  recipient_membership_id = input.recipient_membership_id;
  categories = input.categories;
  reason_encrypted = input.reason_encrypted;
  status = requested;
  requested_at = input.requested_at;
  decision_at = none;
  release_after = none;
  version = 1;
}

-- `id=$1 and person_id=$2 and active=1 and role='EmergencyRecipient'`
abbrev pub is_recipient : String → String → Recipient → Bool
is_recipient id person_id m =
    m.id == id && (m.person_id == person_id && (m.active && m.role == emergency_recipient))

unfoldable pub create_emergency_access_request :
    TenantContext → EmergencyInput → List Recipient → Operation (List EmergencyRow) EmergencyAnswer
create_emergency_access_request context input memberships rows = do
  throw_if (not (any (is_recipient input.recipient_membership_id context.actor_id) memberships))
      recipient_invalid
  add_row emergency_id emergency_answer unique_violation (requested_row context input) rows

unfoldable pub get_emergency_access_categories :
    String → Operation (List EmergencyRow) (List RecordCategory)
get_emergency_access_categories id rows = do
  row ← ok_or request_unavailable (find_row emergency_id id rows)
  ok (row.categories, rows)

pub data Decision : Type 0 where
  deny delay : Decision

abbrev pub decided_status : Decision → EmergencyAccessStatus
decided_status deny = denied
decided_status delay = delayed

abbrev pub decided_row : Decision → ℕ → Option ℕ → EmergencyRow → EmergencyRow
decided_row decision decision_at release_after row = record row {
  status = decided_status decision;
  decision_at = some decision_at;
  release_after = release_after;
  version = row.version + 1;
}

abbrev pub may_decide : ℕ → EmergencyRow → Bool
may_decide expected row = row.version == expected && row.status == requested

unfoldable pub decide_emergency_access :
    String
    → (expected : ℕ) → Decision
    → (decision_at : ℕ) → (release_after : Option ℕ) → Operation (List EmergencyRow) EmergencyAnswer
decide_emergency_access id expected decision decision_at release_after =
    change_row emergency_id emergency_answer decision_conflict id (may_decide expected)
      (decided_row decision decision_at release_after)

-- `release_after<=$3`, which is not true of a null.
abbrev pub delay_over : Option ℕ → ℕ → Bool
delay_over none released_at = false
delay_over (some t) released_at = leb t released_at

abbrev pub may_release : (expected released_at : ℕ) → EmergencyRow → Bool
may_release expected released_at row =
    row.version == expected && (row.status == delayed && delay_over row.release_after released_at)

abbrev pub released_row : EmergencyRow → EmergencyRow
released_row row = record row { status = released; version = row.version + 1 }

unfoldable pub release_emergency_access :
    String → (expected released_at : ℕ) → Operation (List EmergencyRow) EmergencyAnswer
release_emergency_access id expected released_at =
    change_row emergency_id emergency_answer release_conflict id (may_release expected released_at)
      released_row
