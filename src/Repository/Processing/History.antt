-- ===== src/Repository/Processing/History.antt =====
-- A document over any calls.
use mathlib.Core.Path.{subst}
use legacy_vault.Base.{
  ℕ, ◌≡◌, sym, ◌∙◌, String, List, [], ◌∷◌, ok, arith, Result-cases, Bool-cases, Option-cases, inl,
  inr,
}
use legacy_vault.Repository.Transactions.{TenantContext, Operation, with_tenant}
use legacy_vault.Repository.Idempotency.{IdempotencyRecord, Request, idempotent}
use legacy_vault.Repository.Idempotency.Replays.{replays, performs, idempotent-Answered}
use legacy_vault.Repository.Processing.{
  Processing, UploadInput, DocumentRow, DocumentResponse, DocumentTables, Derivative,
  insert_document, document_request, start_document_upload, started_document, response_document,
  document_at, awaits_upload,
}
use legacy_vault.Repository.Processing.Moves.{
  complete_document_upload, ScanOutcome, complete_document_scan, record_document_scan_failure,
  complete_document_ocr, complete_document_original_deletion, ManualCandidate,
  complete_manual_document_extraction,
}
use legacy_vault.Repository.Processing.Stages.{Stage, Moves, stay, IsAt}
use legacy_vault.Repository.Processing.Advances.{
  Advanced, insert_document-Advanced, quarantine-Advanced, complete_document_scan-Advanced,
  record_document_scan_failure-Advanced,
}
use legacy_vault.Repository.Processing.Reading.{
  complete_document_ocr-Advanced, complete_document_original_deletion-Advanced, extract-Advanced,
}

pub data DocumentCall : Type 0 where
  start : TenantContext → (hash consent_id : String) → UploadInput → DocumentCall
  complete : (key hash : String) → (expected : ℕ) → String → ℕ → DocumentCall
  scan : (document_version workflow_version : ℕ) → ScanOutcome → ℕ → DocumentCall
  scan_failure : String → DocumentCall
  ocr : List Derivative → ℕ → Derivative → DocumentCall
  deletion : ℕ → DocumentCall
  extraction :
      TenantContext
      → (key fingerprint : String) → (expected at : ℕ) → List ManualCandidate
      → DocumentCall

-- A statement without a key, in its transaction.
abbrev pub unkeyed : {A : Type 0} → Operation Processing A → DocumentTables → DocumentTables
unkeyed operation (rows, p) = (rows, (with_tenant operation p).1)

abbrev pub call : DocumentCall → DocumentTables → DocumentTables
call (start context hash consent_id input) tables =
    (with_tenant (start_document_upload context hash consent_id input) tables).1
call (complete key hash expected sha256 at) tables =
    (with_tenant (complete_document_upload key hash expected sha256 at) tables).1
call (scan dv wv outcome at) tables = unkeyed (complete_document_scan dv wv outcome at) tables
call (scan_failure error_class) tables = unkeyed (record_document_scan_failure error_class) tables
call (ocr others wv derivative) tables = unkeyed (complete_document_ocr others wv derivative) tables
call (deletion at) tables = unkeyed (complete_document_original_deletion at) tables
call (extraction context key fingerprint expected at candidates) tables =
    (with_tenant
      (complete_manual_document_extraction context key fingerprint expected at candidates) tables).1

unfoldable pub run_calls : List DocumentCall → DocumentTables → DocumentTables
run_calls [] tables = tables
run_calls (c ∷ calls) tables = run_calls calls (call c tables)

unkeyed-Advanced :
    {A : Type 0} (operation : Operation Processing A) (s : Stage) (p : Processing)
    → IsAt s p
    → ((q : Processing) (a : A) → operation p ≡ ok (a, q) → Advanced s q)
    → Advanced s (with_tenant operation p).1
unkeyed-Advanced operation s p is moves = elim (Result-cases (operation p)) [
  | inr (x, e) ↦
      let same : (with_tenant operation p).1 ≡ p = ground arith in
      subst (λ q. Advanced s q) (sym same) (s, stay, is)
  | inl ((a, q), e) ↦
      let left : (with_tenant operation p).1 ≡ q = ground arith in
      subst (λ q. Advanced s q) (sym left) (moves q a e)
]

answered-Advanced :
    (r : Request DocumentResponse Processing) (rows : List (IdempotencyRecord DocumentResponse))
    (s : Stage) (p : Processing)
    → IsAt s p
    → ((q : Processing) (a : DocumentResponse) → r.operation p ≡ ok (a, q) → Advanced s q)
    → (after : DocumentTables) (a : DocumentResponse) → idempotent r (rows, p) ≡ ok (a, after)
    → Advanced s after.1
answered-Advanced r rows s p is moves after a e = elim (idempotent-Answered r rows p a after e) [
  | replays holds same ↦ subst (λ t. Advanced s t.1) (sym same) (s, stay, is)
  | performs {t} n o same ↦ subst (λ t. Advanced s t.1) (sym same) (moves t a o)
]

keyed-Advanced :
    (r : Request DocumentResponse Processing) (rows : List (IdempotencyRecord DocumentResponse))
    (s : Stage) (p : Processing)
    → IsAt s p
    → ((q : Processing) (a : DocumentResponse) → r.operation p ≡ ok (a, q) → Advanced s q)
    → Advanced s (with_tenant (idempotent r) (rows, p)).1.1
keyed-Advanced r rows s p is moves = elim (Result-cases (idempotent r (rows, p))) [
  | inr (x, e) ↦
      let same : (with_tenant (idempotent r) (rows, p)).1 ≡ (rows, p) = ground arith in
      subst (λ t. Advanced s t.1) (sym same) (s, stay, is)
  | inl ((a, after), e) ↦
      let left : (with_tenant (idempotent r) (rows, p)).1 ≡ after = ground arith in
      subst (λ t. Advanced s t.1) (sym left) (answered-Advanced r rows s p is moves after a e)
]

started_document-kept :
    (a : DocumentResponse) (kept after : DocumentTables) (d : DocumentRow)
    → started_document a kept ≡ ok (d, after)
    → kept ≡ after
started_document-kept a kept after d e = elim (Option-cases (response_document a)) [
  | inl n ↦ ground arith
  | inr (id, n) ↦ elim (Option-cases (document_at id kept.1)) [
    | inl k ↦ ground arith
    | inr (x, k) ↦ elim (Bool-cases (awaits_upload x)) [
      | inl b ↦ ground arith
      | inr b ↦ ground arith
    ]
  ]
]

start-Advanced :
    (context : TenantContext) (hash consent_id : String) (input : UploadInput)
    (rows : List (IdempotencyRecord DocumentResponse)) (s : Stage) (p : Processing)
    → IsAt s p
    → Advanced s (with_tenant (start_document_upload context hash consent_id input) (rows, p)).1.1
unfolding start_document_upload
start-Advanced context hash consent_id input rows s p is =
    let r =
      document_request input.idempotency_key hash 201 (insert_document context consent_id input) in
    let moves =
      answered-Advanced r rows s p is
        (λ q a e. insert_document-Advanced context consent_id input s p q a is e) in
    let whole = (with_tenant (start_document_upload context hash consent_id input) (rows, p)).1 in
    elim (Result-cases (idempotent r (rows, p))) [
      | inr (x, n) ↦
          let same : whole ≡ (rows, p) = ground arith in
          subst (λ (t : DocumentTables). Advanced s t.1) (sym same) (s, stay, is)
      | inl ((a, kept), n) ↦ elim (Result-cases (started_document a kept)) [
        | inr (x, k) ↦
            let same : whole ≡ (rows, p) = ground arith in
            subst (λ (t : DocumentTables). Advanced s t.1) (sym same) (s, stay, is)
        | inl ((d, after), k) ↦
            let left : kept
                ≡ (with_tenant (start_document_upload context hash consent_id input) (rows, p)).1 =
              started_document-kept a kept after d k ∙ ground arith in
            subst (λ (t : DocumentTables). Advanced s t.1) left (moves kept a n)
      ]
    ]

call-Advanced :
    (c : DocumentCall) (s : Stage) (t : DocumentTables) → IsAt s t.1 → Advanced s (call c t).1
unfolding complete_document_upload complete_manual_document_extraction
call-Advanced (start context hash consent_id input) s (rows, p) is =
    start-Advanced context hash consent_id input rows s p is
call-Advanced (complete key hash expected sha256 at) s (rows, p) is =
    keyed-Advanced _ rows s p is (λ q a e. quarantine-Advanced expected sha256 at s p q a is e)
call-Advanced (scan dv wv outcome at) s (rows, p) is =
    unkeyed-Advanced (complete_document_scan dv wv outcome at) s p is
      (λ q a e. complete_document_scan-Advanced dv wv outcome at s p q a is e)
call-Advanced (scan_failure text) s (rows, p) is =
    unkeyed-Advanced (record_document_scan_failure text) s p is
      (λ q a e. record_document_scan_failure-Advanced text s p q a is e)
call-Advanced (ocr others wv derivative) s (rows, p) is =
    unkeyed-Advanced (complete_document_ocr others wv derivative) s p is
      (λ q a e. complete_document_ocr-Advanced others wv derivative s p q a is e)
call-Advanced (deletion at) s (rows, p) is =
    unkeyed-Advanced (complete_document_original_deletion at) s p is
      (λ q a e. complete_document_original_deletion-Advanced at s p q a is e)
call-Advanced (extraction context key fingerprint expected at candidates) s (rows, p) is =
    keyed-Advanced _ rows s p is
      (λ q a e. extract-Advanced context expected at candidates s p q a is e)

-- Some moves, one for each call.
pub data Reaches : Stage → Stage → List DocumentCall → Type 0 where
  done : {s : Stage} → Reaches s s []
  then :
      {s t u : Stage} {c : DocumentCall} {calls : List DocumentCall}
      → Moves s t
      → Reaches t u calls
      → Reaches s u (c ∷ calls)

-- Whatever calls are made on a document and its workflow, with whatever versions and keys: each call moves
-- the two rows together by one stage or leaves them there, so that a document is only read after it was
-- found clean, facts are only taken after it was read, an original that is to be deleted is gone
-- before, one that is not stays, and a rejected document goes no further.
pub run_calls-IsAt :
    (calls : List DocumentCall) (s : Stage) (tables : DocumentTables)
    → IsAt s tables.1
    → (t : Stage) × Reaches s t calls × IsAt t (run_calls calls tables).1
unfolding run_calls
run_calls-IsAt [] s tables is = (s, done, is)
run_calls-IsAt (c ∷ calls) s tables is =
    let (t, move, now) = call-Advanced c s tables is in
    let (u, moves, end) = run_calls-IsAt calls t (call c tables) now in (u, then move moves, end)
