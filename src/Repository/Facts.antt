-- ===== src/Repository/Facts.antt =====
-- packages/database/src/repository.ts: the statements on the table `facts` of one household. A time in
-- the table is an instant, and a value is its ciphertext with the version of its key.
pub mod Review
pub mod Attributed
use legacy_vault.Base.{
  ℕ, ◌+◌, String, Bool, true, false, not, ◌&&◌, ◌||◌, Option, none, some, List, [], ◌∷◌, ◌==◌,
  is_nil, nat_eq, Result, ok, ◌>>=◌, ok_or,
}
use legacy_vault.Domain.Enums.{FactStatus, SourceType, Sensitivity}
use legacy_vault.Domain.Facts.{is_confirmable, is_confirmed, is_manual}
use legacy_vault.Repository.Transactions.{
  TenantContext, RepositoryError, Operation, unique_violation, confirmation_conflict,
  rejection_conflict, dispute_conflict, fact_unavailable,
}
use legacy_vault.Repository.Rows.{find_row, add_row, change_row}

pub record Ciphertext : Type 0 where
  pub bytes : List ℕ
  pub key_version : ℕ

pub record FactRow : Type 0 where
  pub id : String
  pub organization_id : String
  pub household_id : String
  pub field_key : String
  pub typed_value_encrypted : Ciphertext
  pub status : FactStatus
  pub source_type : SourceType
  pub source_id : String
  pub evidence_ids : List String
  pub confidence : Option ℕ
  pub sensitivity : Sensitivity
  pub confirmed_by : Option String
  pub confirmed_at : Option ℕ
  pub version : ℕ

pub record CandidateFactWrite : Type 0 where
  pub id : String
  pub field_key : String
  pub ciphertext : Ciphertext
  pub source_type : SourceType
  pub source_id : String
  pub evidence_ids : List String
  pub confidence : Option ℕ
  pub sensitivity : Sensitivity

-- `returning id,status,version`
pub record FactAnswer : Type 0 where
  pub id : String
  pub status : FactStatus
  pub version : ℕ

abbrev pub fact_answer : FactRow → FactAnswer
fact_answer row = record { id = row.id; status = row.status; version = row.version }

abbrev pub fact_id : FactRow → String
fact_id row = row.id

-- The inserted row, with the columns' defaults.
abbrev pub candidate_row : TenantContext → CandidateFactWrite → FactRow
candidate_row context input = record {
  id = input.id;
  organization_id = context.organization_id;
  household_id = context.household_id;
  field_key = input.field_key;
  typed_value_encrypted = input.ciphertext;
  status = FactStatus.candidate;
  source_type = input.source_type;
  source_id = input.source_id;
  evidence_ids = input.evidence_ids;
  confidence = input.confidence;
  sensitivity = input.sensitivity;
  confirmed_by = none;
  confirmed_at = none;
  version = 1;
}

unfoldable pub create_candidate_fact :
    TenantContext → CandidateFactWrite → Operation (List FactRow) FactAnswer
create_candidate_fact context input =
    add_row fact_id fact_answer unique_violation (candidate_row context input)

-- `version=$4 and status in ('candidate','disputed') and (source_type='manual' or
-- jsonb_array_length(evidence_ids)>0)`
abbrev pub may_confirm : ℕ → FactRow → Bool
may_confirm expected row =
    row.version == expected
    && (is_confirmable row.status && (is_manual row.source_type || not (is_nil row.evidence_ids)))

abbrev pub confirmed_row : String → ℕ → FactRow → FactRow
confirmed_row actor at row = record row {
  status = FactStatus.confirmed;
  confirmed_by = some actor;
  confirmed_at = some at;
  version = row.version + 1;
}

unfoldable pub confirm_fact :
    TenantContext → String → (expected at : ℕ) → Operation (List FactRow) FactAnswer
confirm_fact context id expected at =
    change_row fact_id fact_answer confirmation_conflict id (may_confirm expected)
      (confirmed_row context.actor_id at)

abbrev pub is_candidate : FactStatus → Bool
is_candidate FactStatus.candidate = true
is_candidate _ = false

abbrev pub may_reject : ℕ → FactRow → Bool
may_reject expected row = row.version == expected && is_candidate row.status

abbrev pub rejected_row : FactRow → FactRow
rejected_row row = record row { status = FactStatus.rejected; version = row.version + 1 }

unfoldable pub reject_fact : String → ℕ → Operation (List FactRow) FactAnswer
reject_fact id expected =
    change_row fact_id fact_answer rejection_conflict id (may_reject expected) rejected_row

abbrev pub may_dispute : ℕ → FactRow → Bool
may_dispute expected row = row.version == expected && is_confirmed row.status

abbrev pub disputed_row : FactRow → FactRow
disputed_row row = record row {
  status = FactStatus.disputed;
  confirmed_by = none;
  confirmed_at = none;
  version = row.version + 1;
}

unfoldable pub dispute_fact : String → ℕ → Operation (List FactRow) FactAnswer
dispute_fact id expected =
    change_row fact_id fact_answer dispute_conflict id (may_dispute expected) disputed_row

unfoldable pub get_fact_field_key : String → Operation (List FactRow) String
get_fact_field_key id rows = do
  row ← ok_or fact_unavailable (find_row fact_id id rows)
  ok (row.field_key, rows)
