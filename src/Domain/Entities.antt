-- ===== src/Domain/Entities.antt =====
-- packages/domain/src/entities.ts: the records. An optional property is an Option; ids and times are
-- texts. `V` is the type of a fact's value, of which the rules only pass copies on.
use legacy_vault.Base.{ℕ, String, Option, List}
use legacy_vault.Domain.Enums.{
  RecordCategory, PermissionAction, FactStatus, Sensitivity, SourceType, ConsentPurpose,
  ClaimStatus, ReportKind, EmergencyAccessStatus, WorkflowStatus, WorkflowKind,
}

pub record PermissionGrant : Type 0 where
  pub id : String
  pub organization_id : String
  pub household_id : String
  pub version : ℕ
  pub membership_id : String
  pub categories : List RecordCategory
  pub actions : List PermissionAction
  pub purpose : String
  pub starts_at : String
  pub expires_at : Option String
  pub revoked_at : Option String

pub record CandidateFact (V : Type 0) : Type 0 where
  pub id : String
  pub organization_id : String
  pub household_id : String
  pub version : ℕ
  pub field_key : String
  pub typed_value : V
  pub status : FactStatus
  pub source_type : SourceType
  pub source_id : String
  pub evidence_ids : List String
  pub confidence : Option ℕ
  pub sensitivity : Sensitivity
  pub confirmed_by : Option String
  pub confirmed_at : Option String
  pub last_reviewed_at : Option String

pub record Consent : Type 0 where
  pub id : String
  pub organization_id : String
  pub household_id : String
  pub version : ℕ
  pub person_id : String
  pub purpose : ConsentPurpose
  pub policy_version : String
  pub granted_at : String
  pub withdrawn_at : Option String

pub record ReportClaim : Type 0 where
  pub fact_id : String
  pub evidence_ids : List String
  pub field_key : String
  pub rendered_value : String
  pub status : ClaimStatus

pub record Contradiction : Type 0 where
  pub field_key : String
  pub fact_ids : List String

pub record AnnualReviewFindings : Type 0 where
  pub stale_fact_ids : List String
  pub expiring_document_ids : List String
  pub contradictions : List Contradiction

-- `source_fact_versions` lists the properties of the source's object, each key once.
pub record Report : Type 0 where
  pub id : String
  pub organization_id : String
  pub household_id : String
  pub version : ℕ
  pub kind : ReportKind
  pub generated_at : String
  pub claims : List ReportClaim
  pub source_fact_versions : List (String × ℕ)
  pub missing_categories : Option (List RecordCategory)
  pub notices : Option (List String)
  pub review_findings : Option AnnualReviewFindings

pub record EmergencyAccessRequest : Type 0 where
  pub id : String
  pub organization_id : String
  pub household_id : String
  pub version : ℕ
  pub requester_id : String
  pub recipient_membership_id : String
  pub categories : List RecordCategory
  pub reason : String
  pub status : EmergencyAccessStatus
  pub requested_at : String
  pub decision_at : Option String
  pub release_after : Option String
  pub denied_reason : Option String

pub record WorkflowRun : Type 0 where
  pub id : String
  pub organization_id : String
  pub household_id : String
  pub version : ℕ
  pub kind : WorkflowKind
  pub idempotency_key : String
  pub status : WorkflowStatus
  pub completed_steps : List String
  pub next_step : Option String
  pub last_error_class : Option String
