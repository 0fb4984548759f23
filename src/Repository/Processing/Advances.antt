-- ===== src/Repository/Processing/Advances.antt =====
-- Each call on a document keeps its rows together: what it does is a move from stage to stage.
use mathlib.Core.Path.{subst}
use legacy_vault.Base.{
  ℕ, ◌≡◌, refl, sym, ap, ◌∙◌, String, true, ◌&&◌, Option, some, List, ◌==◌, utf16_prefix, is_some,
  is_text, nat_eq, string_eq, ok, arith, inl, inr, Bool-cases,
}
use legacy_vault.Worker.Handler.{PersistedWorkflow, new_workflow, record_workflow_failure}
use legacy_vault.Repository.Transactions.{TenantContext}
use legacy_vault.Repository.Facts.{FactRow}
use legacy_vault.Repository.Processing.{
  pending, quarantined, document_eq, DocumentRow, Derivative, Processing, UploadInput,
  DocumentResponse, insert_document, uploaded_row,
}
use legacy_vault.Repository.Processing.Moves.{
  quarantine, quarantined_row, ScanOutcome, found_clean, found_malware, complete_document_scan,
  record_document_scan_failure, is_at, after_scan, scanned_row, add_step, failed_row,
}
use legacy_vault.Repository.Processing.Stages.{
  Stage, absent, awaiting, scanning, refused, reading, Moves, stay, upload, hand_over, clear,
  refuse, next_at, Running, IsAt, nothing, uploaded, running,
}

-- The rows after a call are at a stage one move away.
abbrev pub Advanced : Stage → Processing → Type 0
Advanced s q = (t : Stage) × Moves s t × IsAt t q

-- The document and the workflow became the given rows, the rest stayed.
pub became :
    {s : Stage} (d : DocumentRow) (w : PersistedWorkflow) (p q : Processing)
    → q.document ≡ some d
    → q.workflow ≡ some w
    → q.derivative ≡ p.derivative
    → q.facts ≡ p.facts
    → Running s d w p.derivative p.facts
    → IsAt s q
became {s} d w p q e f g h r = running e f (
    subst (λ x. Running s d w x q.facts) (sym g)
      (subst (λ x. Running s d w p.derivative x) (sym h) r))

abbrev after_outcome : ScanOutcome → Stage
after_outcome found_clean = reading
after_outcome found_malware = refused

-- Where a workflow waits for a step, its stage is that step's.
pub at_scan : (s : Stage) → is_text (next_at s) "scan" ≡ true → s ≡ scanning
unfolding is_text
at_scan s h = ground arith

pub insert_document-Advanced :
    (context : TenantContext) (consent_id : String) (input : UploadInput) (s : Stage)
    (p q : Processing) (a : DocumentResponse)
    → IsAt s p
    → insert_document context consent_id input p ≡ ok (a, q)
    → Advanced s q
unfolding insert_document
insert_document-Advanced context consent_id input s p q a (nothing d w v f) e = (
  awaiting,
  upload,
  uploaded {d = uploaded_row input} (ground arith) refl refl (ground arith) (ground arith)
      (ground arith),
)
insert_document-Advanced context consent_id input s p q a (uploaded d st o w v f) e = ground arith
insert_document-Advanced context consent_id input s p q a (running d w r) e = ground arith

pub quarantine-Advanced :
    (expected : ℕ) (sha256 : String) (at : ℕ) (s : Stage) (p q : Processing) (a : DocumentResponse)
    → IsAt s p
    → quarantine expected sha256 at p ≡ ok (a, q)
    → Advanced s q
unfolding quarantine
quarantine-Advanced expected sha256 at s p q a (nothing d w v f) e = ground arith
quarantine-Advanced expected sha256 at s p q a (uploaded {d = d} is st o w v f) e =
    elim (Bool-cases (d.status == pending && d.version == expected)) [
      | inr g ↦ ground arith
      | inl g ↦ (
        scanning,
        hand_over,
        became (quarantined_row sha256 at d) (new_workflow "scan") p q (ground arith) (ground arith)
            (ground arith) (ground arith)
            (record {
              status = refl;
              next = refl;
              steps = refl;
              original = ap is_some o;
              derived = ap is_some v;
              chosen = λ h. cc;
              taken = λ h. f;
            }),
      )
    ]
quarantine-Advanced expected sha256 at s p q a (running d w r) e = ground arith

pub scan-Running :
    (outcome : ScanOutcome) (d : DocumentRow) (w : PersistedWorkflow)
    (derivative : Option Derivative) (facts : List FactRow) (at : ℕ)
    → Running scanning d w derivative facts
    → Running
        (after_outcome outcome)
        (scanned_row outcome at d)
        (after_scan outcome w)
        derivative
        facts
scan-Running found_clean d w derivative facts at r = record {
  status = refl;
  next = refl;
  steps = ap (add_step "scan") r.steps;
  original = r.original;
  derived = r.derived;
  chosen = λ h. cc;
  taken = λ h. r.taken refl;
}
scan-Running found_malware d w derivative facts at r = record {
  status = refl;
  next = refl;
  steps = ap (add_step "scan") r.steps;
  original = r.original;
  derived = r.derived;
  chosen = λ h. cc;
  taken = λ h. r.taken refl;
}

scan-Moves : (outcome : ScanOutcome) → Moves scanning (after_outcome outcome)
scan-Moves found_clean = clear
scan-Moves found_malware = refuse

pub complete_document_scan-Advanced :
    (document_version workflow_version : ℕ) (outcome : ScanOutcome) (at : ℕ) (s : Stage)
    (p q : Processing) (a : Unit {0})
    → IsAt s p
    → complete_document_scan document_version workflow_version outcome at p ≡ ok (a, q)
    → Advanced s q
unfolding complete_document_scan
complete_document_scan-Advanced dv wv outcome at s p q a (nothing d w v f) e = ground arith
complete_document_scan-Advanced dv wv outcome at s p q a (uploaded d st o w v f) e = ground arith
complete_document_scan-Advanced dv wv outcome at s p q a (running {d = d} {w = w} is has r) e =
    elim (Bool-cases (d.status == quarantined && d.version == dv)) [
      | inr g ↦ ground arith
      | inl g ↦ elim (Bool-cases (is_at "scan" (some wv) w)) [
        | inr k ↦ ground arith
        | inl k ↦
            let here : s ≡ scanning =
              at_scan s (ap (λ n. is_text n "scan") (sym r.next) ∙ ground arith) in
            let now = subst (λ s. Running s d w p.derivative p.facts) here r in
            (
              after_outcome outcome,
              subst (λ s. Moves s (after_outcome outcome)) (sym here) (scan-Moves outcome),
              became (scanned_row outcome at d) (after_scan outcome w) p q (ground arith)
                  (ground arith) (ground arith) (ground arith)
                  (scan-Running outcome d w p.derivative p.facts at now),
            )
      ]
    ]

pub record_document_scan_failure-Advanced :
    (error_class : String) (s : Stage) (p q : Processing) (a : Unit {0})
    → IsAt s p
    → record_document_scan_failure error_class p ≡ ok (a, q)
    → Advanced s q
unfolding record_document_scan_failure record_workflow_failure
record_document_scan_failure-Advanced error_class s p q a (nothing d w v f) e =
    (absent, stay, nothing (ground arith) (ground arith) (ground arith) (ground arith))
record_document_scan_failure-Advanced error_class s p q a (uploaded {d = d} is st o w v f) e = (
  awaiting,
  stay,
  uploaded {d = d} (ground arith) st o (ground arith) (ground arith) (ground arith),
)
record_document_scan_failure-Advanced error_class s p q a (running {d = d} {w = w} is has r) e =
    let text = utf16_prefix 120 error_class in
    (
      s,
      stay,
      became (failed_row text d) (record_workflow_failure text w) p q (ground arith) (ground arith)
          (ground arith) (ground arith)
          (record {
            status = ground (arith, r.status);
            next = ground (arith, r.next);
            steps = ground (arith, r.steps);
            original = ground (arith, r.original);
            derived = r.derived;
            chosen = λ h. ground (arith, r.chosen h);
            taken = r.taken;
          }),
    )
