-- ===== src/Repository/Processing.antt =====
-- packages/database/src/repository.ts: the rows of one document, of its workflow, its derivative, and the
-- evidence and facts taken from it. A call names the document and its workflow, as the worker reads them
-- from getDocumentProcessingInput, so a mismatched pair of ids does not arise. A time is an instant.
pub mod Moves
pub mod Stages
pub mod Advances
pub mod Reading
pub mod Progress
pub mod History
use legacy_vault.Base.{
  ℕ, ◌+◌, String, Bool, true, false, not, ◌&&◌, ◌||◌, Option, none, some, List, [], ◌∷◌, ◌++◌, ◌==◌,
  contains, is_some, is_text, nat_eq, string_eq, Eq, enum_eq, ◌≡◌, arith, Result, ok, err, ◌>>=◌,
  ◌>>◌, ok_or, throw_if, if◌then◌else◌, utf16_prefix,
}
use legacy_vault.Domain.Enums.{WorkflowStatus, SourceType, Sensitivity}
use legacy_vault.Worker.Handler.{PersistedWorkflow, new_workflow, record_workflow_failure}
use legacy_vault.Repository.Transactions.{
  TenantContext, RepositoryError, Operation, unique_violation, idempotency_conflict,
  document_unavailable, document_conflict, document_workflow_conflict, derivative_conflict,
}
use legacy_vault.Repository.Rows.{insert_row}
use legacy_vault.Repository.Facts.{
  Ciphertext, CandidateFactWrite, FactRow, FactAnswer, fact_id, fact_answer, candidate_row,
}
use legacy_vault.Repository.Idempotency.{IdempotencyRecord, Request, idempotent}

pub data DocumentStatus : Type 0 where
  pending quarantined clean rejected deleted : DocumentStatus

abbrev pub document_index : DocumentStatus → ℕ
document_index pending = 0
document_index quarantined = 1
document_index clean = 2
document_index rejected = 3
document_index deleted = 4

pub document_index-injective : (a b : DocumentStatus) → document_index a ≡ document_index b → a ≡ b
document_index-injective a b h = ground arith

instance abbrev pub document_eq : Eq DocumentStatus
document_eq = enum_eq document_index document_index-injective

pub record DocumentRow : Type 0 where
  pub id : String
  pub object_key : String
  pub original_sha256 : String
  pub media_type : String
  pub status : DocumentStatus
  pub encryption_key_version : ℕ
  pub wrapped_data_key : Option String
  pub maximum_bytes : ℕ
  pub expires_at : Option ℕ
  pub delete_original_after_processing : Bool
  pub ciphertext_sha256 : Option String
  pub uploaded_at : Option ℕ
  pub processed_at : Option ℕ
  pub original_deleted_at : Option ℕ
  pub last_error_class : Option String
  pub version : ℕ

pub record DocumentConsent : Type 0 where
  pub id : String
  pub person_id : String
  pub policy_version : String
  pub granted_at : ℕ
  pub withdrawn_at : Option ℕ

pub record Derivative : Type 0 where
  pub id : String
  pub object_key : String
  pub ciphertext_sha256 : String
  pub encryption_key_version : ℕ
  pub created_at : ℕ

pub record EvidenceRow : Type 0 where
  pub id : String
  pub locator : String
  pub captured_at : ℕ

pub record Processing : Type 0 where
  pub document : Option DocumentRow
  pub consents : List DocumentConsent
  pub workflow : Option PersistedWorkflow
  pub derivative : Option Derivative
  pub evidence : List EvidenceRow
  pub facts : List FactRow

pub data DocumentResponse : Type 0 where
  upload_started : String → DocumentResponse
  processing_started :
      (id : String) → DocumentStatus → (version workflow_version : ℕ) → DocumentResponse
  extracted : (id : String) → List FactAnswer → DocumentResponse

abbrev pub DocumentTables : Type 0
DocumentTables = List (IdempotencyRecord DocumentResponse) × Processing

-- A conflict of keys and a response that is not there are one error of these methods.
abbrev pub document_request :
    String
    → String
    → ℕ
    → Operation Processing DocumentResponse
    → Request DocumentResponse Processing
document_request key hash code operation = record {
  idempotency_key = key;
  request_hash = hash;
  status_code = some code;
  conflict = idempotency_conflict;
  processing = idempotency_conflict;
  operation = operation;
}

pub record UploadInput : Type 0 where
  pub id : String
  pub object_key : String
  pub original_sha256 : String
  pub media_type : String
  pub wrapped_data_key : String
  pub encryption_key_version : ℕ
  pub maximum_bytes : ℕ
  pub idempotency_key : String
  pub expires_at : Option ℕ
  pub document_consent_policy_version : String
  pub delete_original_after_processing : Bool
  pub consented_at : ℕ

abbrev pub uploaded_row : UploadInput → DocumentRow
uploaded_row input = record {
  id = input.id;
  object_key = input.object_key;
  original_sha256 = input.original_sha256;
  media_type = input.media_type;
  status = pending;
  encryption_key_version = input.encryption_key_version;
  wrapped_data_key = some input.wrapped_data_key;
  maximum_bytes = input.maximum_bytes;
  expires_at = input.expires_at;
  delete_original_after_processing = input.delete_original_after_processing;
  ciphertext_sha256 = none;
  uploaded_at = none;
  processed_at = none;
  original_deleted_at = none;
  last_error_class = none;
  version = 1;
}

-- The consent of the actor; its id is a random one.
abbrev pub upload_consent : TenantContext → String → UploadInput → DocumentConsent
upload_consent context consent_id input = record {
  id = consent_id;
  person_id = context.actor_id;
  policy_version = input.document_consent_policy_version;
  granted_at = input.consented_at;
  withdrawn_at = none;
}

unfoldable pub insert_document :
    TenantContext → String → UploadInput → Operation Processing DocumentResponse
insert_document context consent_id input p = do
  throw_if (is_some p.document) unique_violation
  ok (
    upload_started input.id,
    record p {
      document = some (uploaded_row input);
      consents = upload_consent context consent_id input ∷ p.consents;
    },
  )

-- `response_body?.document?.id`
abbrev pub response_document : DocumentResponse → Option String
response_document (upload_started id) = some id
response_document (processing_started id _ _ _) = some id
response_document (extracted _ _) = none

abbrev pub awaits_upload : DocumentRow → Bool
awaits_upload d = d.status == pending && is_some d.wrapped_data_key

-- `select ... where id=$1`
abbrev pub document_at : String → Processing → Option DocumentRow
document_at id p = elim p.document [ none ↦ none | some d ↦ if d.id == id then some d else none ]

-- The document of the response, as it stands now.
abbrev pub started_document :
    DocumentResponse → DocumentTables → Result RepositoryError (DocumentRow × DocumentTables)
started_document response tables = do
  id ← ok_or idempotency_conflict (response_document response)
  d ← ok_or document_unavailable (document_at id tables.1)
  throw_if (not (awaits_upload d)) document_unavailable
  ok (d, tables)

unfoldable pub start_document_upload :
    TenantContext → (hash consent_id : String) → UploadInput → Operation DocumentTables DocumentRow
start_document_upload context hash consent_id input tables = do
  (response, after) ←
      idempotent
        (document_request input.idempotency_key hash 201 (insert_document context consent_id input))
        tables
  started_document response after

unfoldable pub get_pending_document_upload : String → Operation Processing DocumentRow
get_pending_document_upload id p = do
  d ← ok_or document_unavailable (document_at id p)
  throw_if (not (awaits_upload d)) document_unavailable
  ok (d, p)

-- The document whose row passes a guard, as an update leaves it.
abbrev pub update_document :
    (DocumentRow → Bool) → (DocumentRow → DocumentRow) → Option DocumentRow → Option DocumentRow
update_document guard change none = none
update_document guard change (some d) = if guard d then some (change d) else none

abbrev pub update_workflow :
    (PersistedWorkflow → Bool)
    → (PersistedWorkflow → PersistedWorkflow)
    → Option PersistedWorkflow
    → Option PersistedWorkflow
update_workflow guard change none = none
update_workflow guard change (some w) = if guard w then some (change w) else none

-- An update without a guard.
abbrev pub on_document : (DocumentRow → DocumentRow) → Option DocumentRow → Option DocumentRow
on_document change none = none
on_document change (some d) = some (change d)

abbrev pub on_workflow :
    (PersistedWorkflow → PersistedWorkflow) → Option PersistedWorkflow → Option PersistedWorkflow
on_workflow change none = none
on_workflow change (some w) = some (change w)
