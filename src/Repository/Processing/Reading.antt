-- ===== src/Repository/Processing/Reading.antt =====
-- The calls after the scan: reading, deletion of the original, and the facts taken from the document.
use mathlib.Core.Path.{subst}
use legacy_vault.Base.{
  ℕ, ◌+◌, ◌≡◌, refl, sym, ap, ◌∙◌, Bool, true, false, Option, none, some, List, [], ◌∷◌, ◌++◌,
  if◌then◌else◌, contains, is_text, nat_eq, string_eq, ok, arith, inl, inr, Bool-cases,
  Result-cases,
}
use legacy_vault.Domain.Enums.{WorkflowStatus}
use legacy_vault.Worker.Handler.{PersistedWorkflow}
use legacy_vault.Repository.Transactions.{TenantContext}
use legacy_vault.Repository.Facts.{FactRow}
use legacy_vault.Repository.Processing.{
  document_eq, DocumentRow, Derivative, Processing, DocumentResponse,
}
use legacy_vault.Repository.Processing.Moves.{
  complete_document_ocr, complete_document_original_deletion, ManualCandidate, extract,
  insert_candidates, after_extraction, original_deleted, is_at, moved_on, add_step, kept_derivative,
}
use legacy_vault.Repository.Processing.Stages.{
  Stage, reading, deleting, classifying, finished, Moves, stay, read_once, read, delete, take,
  next_at, Running, IsAt, read_steps, steps_at, is_past_deletion, nothing, uploaded, running,
}
use legacy_vault.Repository.Processing.Advances.{Advanced, became}

at_ocr : (s : Stage) → is_text (next_at s) "ocr" ≡ true → s ≡ reading
unfolding is_text
at_ocr s h = ground arith

at_deletion : (s : Stage) → is_text (next_at s) "delete-original" ≡ true → s ≡ deleting
unfolding is_text
at_deletion s h = ground arith

at_classification : (s : Stage) → is_text (next_at s) "classification" ≡ true → s ≡ classifying
unfolding is_text
at_classification s h = ground arith

pub ocr-Running :
    (d : DocumentRow) (w : PersistedWorkflow) (derivative : Option Derivative) (new : Derivative)
    (facts : List FactRow)
    → Running reading d w derivative facts
    → (delete : Bool) → d.delete_original_after_processing ≡ delete
    → Running
        (if delete then deleting else classifying)
        d
        (moved_on WorkflowStatus.running "ocr"
          (some (if delete then "delete-original" else "classification"))
          w)
        (some new)
        facts
ocr-Running d w derivative new facts r true h = record {
  status = r.status;
  next = refl;
  steps = ap (add_step "ocr") r.steps;
  original = r.original;
  derived = refl;
  chosen = λ _. h;
  taken = λ _. r.taken refl;
}
ocr-Running d w derivative new facts r false h = record {
  status = r.status;
  next = refl;
  steps = ap (add_step "ocr") r.steps ∙ ap read_steps (sym h);
  original = r.original ∙ sym h;
  derived = refl;
  chosen = λ e. cc;
  taken = λ _. r.taken refl;
}

read-Moves : (delete : Bool) → Moves reading (if delete then deleting else classifying)
read-Moves true = read_once
read-Moves false = read

pub complete_document_ocr-Advanced :
    (others : List Derivative) (workflow_version : ℕ) (new : Derivative) (s : Stage)
    (p q : Processing) (a : Unit {0})
    → IsAt s p
    → complete_document_ocr others workflow_version new p ≡ ok (a, q)
    → Advanced s q
unfolding complete_document_ocr
complete_document_ocr-Advanced others wv new s p q a (nothing d w v f) e = ground arith
complete_document_ocr-Advanced others wv new s p q a (uploaded d st o w v f) e = ground arith
complete_document_ocr-Advanced others wv new s p q a (running {d = d} {w = w} is has r) e =
    elim (Bool-cases (is_at "ocr" (some wv) w)) [
      | inr g ↦ ground arith
      | inl g ↦
          let here : s ≡ reading =
            at_ocr s (ap (λ n. is_text n "ocr") (sym r.next) ∙ ground arith) in
          let now = subst (λ s. Running s d w p.derivative p.facts) here r in
          let delete = d.delete_original_after_processing in
          let after =
            moved_on WorkflowStatus.running "ocr"
              (some (if delete then "delete-original" else "classification")) w in
          let kept = kept_derivative new p.derivative in
          let left : q ≡ record p { derivative = some kept; workflow = some after } =
            ground arith in
          (
            (if delete then deleting else classifying),
            subst (λ s. Moves s (if delete then deleting else classifying)) (sym here)
                (read-Moves delete),
            subst (λ q. IsAt (if delete then deleting else classifying) q) (sym left)
                (running {d = d} {w = after} is refl
                  (ocr-Running d w p.derivative kept p.facts now delete refl)),
          )
    ]

pub deletion-Running :
    (d : DocumentRow) (w : PersistedWorkflow) (derivative : Option Derivative)
    (facts : List FactRow) (at : ℕ)
    → Running deleting d w derivative facts
    → Running classifying
        (original_deleted at d)
        (moved_on WorkflowStatus.running "delete-original" (some "classification") w)
        derivative
        facts
deletion-Running d w derivative facts at r =
    let chosen = r.chosen refl in
    let original = r.original in
    let gone : original_deleted at d
        ≡ record d { original_deleted_at = some at; version = d.version + 1 } =
      ground (arith, chosen, original) in
    subst
      (λ x.
        Running classifying x
          (moved_on WorkflowStatus.running "delete-original" (some "classification") w) derivative
          facts)
      (sym gone)
      (record {
        status = r.status;
        next = refl;
        steps = ap (add_step "delete-original") r.steps ∙ ap read_steps (sym chosen);
        original = sym chosen;
        derived = r.derived;
        chosen = λ e. cc;
        taken = λ _. r.taken refl;
      })

deleted_before :
    (s : Stage) (d : Bool) → contains (steps_at s d) "delete-original" ≡ is_past_deletion s d
deleted_before s true = ground arith
deleted_before s false = ground arith

-- The deletion is recorded once more.
again-Running :
    (s : Stage) (d : DocumentRow) (w : PersistedWorkflow) (derivative : Option Derivative)
    (facts : List FactRow) (at : ℕ)
    → contains w.completed_steps "delete-original" ≡ true
    → Running s d w derivative facts
    → Running s (original_deleted at d) w derivative facts
again-Running s d w derivative facts at done r =
    let past : is_past_deletion s d.delete_original_after_processing ≡ true =
      sym (deleted_before s d.delete_original_after_processing)
      ∙ (ap (λ l. contains l "delete-original") (sym r.steps) ∙ done) in
    let same : original_deleted at d ≡ d = ground (arith, r.original ∙ past) in
    subst (λ x. Running s x w derivative facts) (sym same) r

pub complete_document_original_deletion-Advanced :
    (at : ℕ) (s : Stage) (p q : Processing) (a : Unit {0})
    → IsAt s p
    → complete_document_original_deletion at p ≡ ok (a, q)
    → Advanced s q
unfolding complete_document_original_deletion
complete_document_original_deletion-Advanced at s p q a (nothing d w v f) e = ground arith
complete_document_original_deletion-Advanced at s p q a (uploaded d st o w v f) e = ground arith
complete_document_original_deletion-Advanced at s p q a (running {d = d} {w = w} is has r) e =
    elim (Bool-cases (is_at "delete-original" none w)) [
      | inl g ↦
          let here : s ≡ deleting =
            at_deletion s (ap (λ n. is_text n "delete-original") (sym r.next) ∙ g) in
          let now = subst (λ s. Running s d w p.derivative p.facts) here r in
          (
            classifying,
            subst (λ s. Moves s classifying) (sym here) delete,
            became (original_deleted at d)
                (moved_on WorkflowStatus.running "delete-original" (some "classification") w) p q
                (ground arith) (ground arith) (ground arith) (ground arith)
                (deletion-Running d w p.derivative p.facts at now),
          )
      | inr g ↦ elim (Bool-cases (contains w.completed_steps "delete-original")) [
        | inr k ↦ ground arith
        | inl k ↦ (
          s,
          stay,
          became (original_deleted at d) w p q (ground arith) (ground arith) (ground arith)
              (ground arith) (again-Running s d w p.derivative p.facts at k r),
        )
      ]
    ]

pub finish-Running :
    (d : DocumentRow) (w : PersistedWorkflow) (derivative : Option Derivative)
    (facts after : List FactRow)
    → Running classifying d w derivative facts
    → Running finished d (after_extraction w) derivative after
finish-Running d w derivative facts after r = record {
  status = r.status;
  next = refl;
  steps = ap (λ l. l ++ "classification" ∷ "manual-extraction" ∷ []) r.steps;
  original = r.original;
  derived = r.derived;
  chosen = λ e. cc;
  taken = λ e. cc;
}

pub extract-Advanced :
    (context : TenantContext) (expected at : ℕ) (candidates : List ManualCandidate) (s : Stage)
    (p q : Processing) (a : DocumentResponse)
    → IsAt s p
    → extract context expected at candidates p ≡ ok (a, q)
    → Advanced s q
unfolding extract
extract-Advanced context expected at candidates s p q a (nothing d w v f) e = ground arith
extract-Advanced context expected at candidates s p q a (uploaded d st o w v f) e = ground arith
extract-Advanced context expected at candidates s p q a (running {d = d} {w = w} is has r) e =
    elim (Bool-cases (is_at "classification" (some expected) w)) [
      | inr g ↦ ground arith
      | inl g ↦
          elim (Result-cases (insert_candidates context d.id at candidates (p.evidence, p.facts))) [
            | inr (x, n) ↦ ground arith
            | inl ((answers, (evidence, facts)), n) ↦
                let here : s ≡ classifying =
                  at_classification s
                    (ap (λ n. is_text n "classification") (sym r.next) ∙ ground arith) in
                let now = subst (λ s. Running s d w p.derivative p.facts) here r in
                let left : q ≡ record p {
                  workflow = some (after_extraction w);
                  evidence = evidence;
                  facts = facts;
                } =
                  ground arith in
                (
                  finished,
                  subst (λ s. Moves s finished) (sym here) take,
                  subst (λ q. IsAt finished q) (sym left)
                      (running {d = d} {w = after_extraction w} is refl
                        (finish-Running d w p.derivative p.facts facts now)),
                )
          ]
    ]
