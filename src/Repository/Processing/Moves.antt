-- ===== src/Repository/Processing/Moves.antt =====
-- packages/database/src/repository.ts: the statements that move a document from its upload to the facts
-- taken from it.
use legacy_vault.Base.{
  ◌||◌, any, ℕ, ◌+◌, String, Bool, false, not, ◌&&◌, Option, none, some, List, [], ◌∷◌, ◌++◌, ◌==◌,
  contains, is_some, is_text, nat_eq, string_eq, ok, ◌>>=◌, ◌>>◌, ok_or, throw_if, if◌then◌else◌,
  utf16_prefix,
}
use legacy_vault.Domain.Enums.{WorkflowStatus, SourceType}
use legacy_vault.Worker.Handler.{PersistedWorkflow, new_workflow, record_workflow_failure}
use legacy_vault.Repository.Transactions.{
  TenantContext, Operation, unique_violation, document_conflict, document_workflow_conflict,
  derivative_conflict,
}
use legacy_vault.Repository.Rows.{insert_row}
use legacy_vault.Repository.Facts.{
  CandidateFactWrite, FactRow, FactAnswer, fact_id, fact_answer, candidate_row,
}
use legacy_vault.Repository.Idempotency.{idempotent}
use legacy_vault.Repository.Processing.{
  DocumentStatus, pending, quarantined, clean, rejected, document_eq, DocumentRow, Derivative,
  EvidenceRow, Processing, DocumentResponse, processing_started, extracted, DocumentTables,
  document_request, update_document, update_workflow, on_document, on_workflow,
}

abbrev pub quarantined_row : String → ℕ → DocumentRow → DocumentRow
quarantined_row sha256 at d = record d {
  status = quarantined;
  ciphertext_sha256 = some sha256;
  uploaded_at = some at;
  version = d.version + 1;
}

-- The workflow's own idempotency key names the document, so there is one workflow at most.
unfoldable pub quarantine : (expected : ℕ) → String → ℕ → Operation Processing DocumentResponse
quarantine expected sha256 at p = do
  d ← ok_or document_conflict (
      update_document (λ d. d.status == pending && d.version == expected)
        (quarantined_row sha256 at) p.document)
  throw_if (is_some p.workflow) unique_violation
  ok (
    processing_started d.id d.status d.version 1,
    record p { document = some d; workflow = some (new_workflow "scan") },
  )

unfoldable pub complete_document_upload :
    (key hash : String) → (expected : ℕ) → String → ℕ → Operation DocumentTables DocumentResponse
complete_document_upload key hash expected sha256 at =
    idempotent (document_request key hash 202 (quarantine expected sha256 at))

abbrev pub add_step : String → List String → List String
add_step step steps = if contains steps step then steps else steps ++ step ∷ []

-- The workflow after a step: `none` is the end.
abbrev pub moved_on :
    WorkflowStatus → String → Option String → PersistedWorkflow → PersistedWorkflow
moved_on status step next w = record w {
  status = status;
  completed_steps = add_step step w.completed_steps;
  next_step = next;
  last_error_class = none;
  version = w.version + 1;
}

abbrev pub is_at : String → Option ℕ → PersistedWorkflow → Bool
is_at step none w = is_text w.next_step step
is_at step (some expected) w = w.version == expected && is_text w.next_step step

pub data ScanOutcome : Type 0 where
  found_clean found_malware : ScanOutcome

abbrev pub scanned_status : ScanOutcome → DocumentStatus
scanned_status found_clean = clean
scanned_status found_malware = rejected

abbrev pub scanned_row : ScanOutcome → ℕ → DocumentRow → DocumentRow
scanned_row outcome at d = record d {
  status = scanned_status outcome;
  processed_at = some at;
  last_error_class = none;
  version = d.version + 1;
}

abbrev pub after_scan : ScanOutcome → PersistedWorkflow → PersistedWorkflow
after_scan found_clean = moved_on WorkflowStatus.running "scan" (some "ocr")
after_scan found_malware = moved_on WorkflowStatus.completed "scan" none

unfoldable pub complete_document_scan :
    (document_version workflow_version : ℕ) → ScanOutcome → ℕ → Operation Processing (Unit {0})
complete_document_scan document_version workflow_version outcome at p = do
  d ← ok_or document_conflict (
      update_document (λ d. d.status == quarantined && d.version == document_version)
        (scanned_row outcome at) p.document)
  w ←
      ok_or document_workflow_conflict
        (update_workflow (is_at "scan" (some workflow_version)) (after_scan outcome) p.workflow)
  ok (tt, record p { document = some d; workflow = some w })

abbrev pub failed_row : String → DocumentRow → DocumentRow
failed_row error_class d =
    if d.status == quarantined
    then record d { last_error_class = some error_class; version = d.version + 1 }
    else d

-- The error's class is cut to 120 UTF-16 code units.
unfoldable pub record_document_scan_failure : String → Operation Processing (Unit {0})
record_document_scan_failure error_class p =
    let text = utf16_prefix 120 error_class in
    ok (
      tt,
      record p {
        document = on_document (failed_row text) p.document;
        workflow = on_workflow (record_workflow_failure text) p.workflow;
      },
    )

abbrev same_derivative : Derivative → Derivative → Bool
same_derivative a b =
    a.object_key == b.object_key
    && (a.ciphertext_sha256 == b.ciphertext_sha256
        && a.encryption_key_version == b.encryption_key_version)

-- `on conflict (document_id,kind) do nothing`
abbrev pub kept_derivative : Derivative → Option Derivative → Derivative
kept_derivative new none = new
kept_derivative new (some old) = old

abbrev after_ocr : Option DocumentRow → String
after_ocr none = "classification"
after_ocr (some d) =
    if d.delete_original_after_processing then "delete-original" else "classification"

-- A derivative of another document has the id or the object key.
abbrev pub has_derivative : List Derivative → Derivative → Bool
has_derivative others new = any (λ o. o.id == new.id || o.object_key == new.object_key) others

-- `others` are the derivatives of other documents.
unfoldable pub complete_document_ocr :
    List Derivative → ℕ → Derivative → Operation Processing (Unit {0})
complete_document_ocr others workflow_version derivative p = do
  throw_if (not (is_some p.derivative) && has_derivative others derivative) unique_violation
  throw_if (not (same_derivative (kept_derivative derivative p.derivative) derivative))
      derivative_conflict
  w ← ok_or document_workflow_conflict (
      update_workflow (is_at "ocr" (some workflow_version))
        (moved_on WorkflowStatus.running "ocr" (some (after_ocr p.document))) p.workflow)
  ok (
    tt,
    record p { derivative = some (kept_derivative derivative p.derivative); workflow = some w },
  )

abbrev pub original_deleted : ℕ → DocumentRow → DocumentRow
original_deleted at d =
    if d.delete_original_after_processing && not (is_some d.original_deleted_at)
    then record d { original_deleted_at = some at; version = d.version + 1 }
    else d

abbrev has_deleted : Option PersistedWorkflow → Bool
has_deleted none = false
has_deleted (some w) = contains w.completed_steps "delete-original"

-- Where the workflow is not at the deletion, it must have it behind it.
abbrev deletion_workflow : Option PersistedWorkflow → Option PersistedWorkflow
deletion_workflow none = none
deletion_workflow (some w) =
    if is_at "delete-original" none w
    then some (moved_on WorkflowStatus.running "delete-original" (some "classification") w)
    else (if contains w.completed_steps "delete-original" then some w else none)

unfoldable pub complete_document_original_deletion : ℕ → Operation Processing (Unit {0})
complete_document_original_deletion at p = do
  w ← ok_or document_conflict (deletion_workflow p.workflow)
  ok (tt, record p { document = on_document (original_deleted at) p.document; workflow = some w })

pub record ManualCandidate : Type 0 where
  pub evidence_id : String
  pub locator : String
  pub fact : CandidateFactWrite

abbrev evidence_key : EvidenceRow → String
evidence_key row = row.id

abbrev pub evidence_row : ℕ → ManualCandidate → EvidenceRow
evidence_row at c = record { id = c.evidence_id; locator = c.locator; captured_at = at }

-- The fact's source is the document, and its evidence the row before it.
abbrev pub document_fact : String → ManualCandidate → CandidateFactWrite
document_fact document_id c = record (c.fact) {
  source_type = SourceType.document;
  source_id = document_id;
  evidence_ids = c.evidence_id ∷ [];
}

-- The loop over the candidates.
unfoldable pub insert_candidates :
    TenantContext
    → String
    → ℕ
    → List ManualCandidate
    → Operation (List EvidenceRow × List FactRow) (List FactAnswer)
insert_candidates context document_id at [] rows = ok ([], rows)
insert_candidates context document_id at (c ∷ candidates) (evidence, facts) = do
  evidence_after ← ok_or unique_violation (insert_row evidence_key (evidence_row at c) evidence)
  facts_after ←
      ok_or unique_violation
        (insert_row fact_id (candidate_row context (document_fact document_id c)) facts)
  (answers, after) ←
      insert_candidates context document_id at candidates (evidence_after, facts_after)
  ok (fact_answer (candidate_row context (document_fact document_id c)) ∷ answers, after)

abbrev is_clean : Option DocumentRow → Option String
is_clean none = none
is_clean (some d) = if d.status == clean then some d.id else none

abbrev pub after_extraction : PersistedWorkflow → PersistedWorkflow
after_extraction w = record w {
  status = WorkflowStatus.completed;
  completed_steps = w.completed_steps ++ "classification" ∷ "manual-extraction" ∷ [];
  next_step = none;
  last_error_class = none;
  version = w.version + 1;
}

unfoldable pub extract :
    TenantContext → ℕ → ℕ → List ManualCandidate → Operation Processing DocumentResponse
extract context expected at candidates p = do
  id ← ok_or document_workflow_conflict (is_clean p.document)
  w ←
      ok_or document_workflow_conflict
        (update_workflow (is_at "classification" (some expected)) after_extraction p.workflow)
  (answers, after) ← insert_candidates context id at candidates (p.evidence, p.facts)
  ok (extracted id answers, record p { workflow = some w; evidence = after.0; facts = after.1 })

unfoldable pub complete_manual_document_extraction :
    TenantContext
    → (key fingerprint : String) → (expected captured_at : ℕ) → List ManualCandidate
    → Operation DocumentTables DocumentResponse
complete_manual_document_extraction context key fingerprint expected captured_at candidates =
    idempotent
      (document_request key fingerprint 201 (extract context expected captured_at candidates))
