-- ===== src/Worker/Handler.antt =====
-- apps/worker/src/index.ts: createPersistedWorkflowHandler, with the statements of
-- packages/database/src/repository.ts that it runs on the row of its workflow.
pub mod Names
pub mod Once
pub mod Steps
use legacy_vault.Base.{
  ℕ, ◌+◌, String, Bool, true, false, not, ◌&&◌, ◌||◌, Option, none, some, List, [], ◌∷◌, ◌++◌,
  if◌then◌else◌, is_nil, contains, distinct, ◌==◌, nat_eq, string_eq, Result, ok, err, throw_if,
  is_some,
}
use legacy_vault.Domain.Enums.{WorkflowStatus}

pub record PersistedWorkflow : Type 0 where
  pub status : WorkflowStatus
  pub completed_steps : List String
  pub next_step : Option String
  pub version : ℕ
  pub last_error_class : Option String

abbrev pub is_completed : WorkflowStatus → Bool
is_completed WorkflowStatus.completed = true
is_completed _ = false

-- A new row of workflow_runs.
abbrev pub new_workflow : String → PersistedWorkflow
new_workflow first_step = record {
  status = WorkflowStatus.pending;
  completed_steps = [];
  next_step = some first_step;
  version = 1;
  last_error_class = none;
}

-- The row that `beginWorkflow` answers: a new one, or the one that has the idempotency key already.
unfoldable begin_workflow : String → Option PersistedWorkflow → PersistedWorkflow
begin_workflow first_step none = new_workflow first_step
begin_workflow first_step (some row) = row

abbrev pub status_after : Option String → WorkflowStatus
status_after none = WorkflowStatus.completed
status_after (some step) = WorkflowStatus.running

-- `completeWorkflowStep`: the row that the statement updates, if it finds one.
unfoldable pub complete_workflow_step :
    (expected_version : ℕ) (step : String) (next_step : Option String)
    → PersistedWorkflow
    → Option PersistedWorkflow
complete_workflow_step expected_version step next_step row =
    if row.version == expected_version && not (is_completed row.status)
    then some (record {
      status = status_after next_step;
      completed_steps =
          if contains row.completed_steps step
          then row.completed_steps
          else row.completed_steps ++ step ∷ [];
      next_step = next_step;
      version = row.version + 1;
      last_error_class = none;
    })
    else none

-- `recordWorkflowFailure`, with the text's first 120 code units already taken.
unfoldable pub record_workflow_failure : String → PersistedWorkflow → PersistedWorkflow
record_workflow_failure error_class row = if is_completed row.status then row else record row {
  status = WorkflowStatus.failed;
  last_error_class = some error_class;
  version = row.version + 1;
}

-- One run of the handler: the row after it, the steps that it executed to their end, in order, and the
-- class of the error that it throws, if it throws.
pub record HandlerRun : Type 0 where
  pub row : PersistedWorkflow
  pub performed : List String
  pub thrown : Option String

abbrev pub throws : PersistedWorkflow → String → HandlerRun
throws row error = record { row = row; performed = []; thrown = some error }

abbrev pub head_name : List String → Option String
head_name [] = none
head_name (name ∷ names) = some name

abbrev pub is_other : Option String → String → Bool
is_other none name = false
is_other (some next) name = not (next == name)

abbrev pub perform : String → HandlerRun → HandlerRun
perform name run = record run { performed = name ∷ run.performed }

abbrev pub record_thrown : HandlerRun → HandlerRun
record_thrown run = elim run.thrown [
  | none ↦ run
  | some error ↦ record run { row = record_workflow_failure error run.row }
]

-- What `execute` does in this run, by the step's name: none where it returns, the class of the error
-- where it throws.
module _ (outcome : String → Option String) where
  -- The loop over the steps that are left; the handler's `workflow` is the row as it last wrote it.
  unfoldable pub run_steps : List String → PersistedWorkflow → HandlerRun
  run_steps [] workflow = record { row = workflow; performed = []; thrown = none }
  run_steps (name ∷ names) workflow =
      if contains workflow.completed_steps name
      then run_steps names workflow
      else (if is_other workflow.next_step name
          then throws workflow "Error"
          else elim (outcome name) [
            | some error ↦ throws workflow error
            | none ↦
                elim (complete_workflow_step workflow.version name (head_name names) workflow) [
                  | none ↦ record { row = workflow; performed = name ∷ []; thrown = some "Error" }
                  | some completed ↦ perform name (run_steps names completed)
                ]
          ])

  unfoldable pub handle : List String → PersistedWorkflow → HandlerRun
  unfolding run_steps
  handle names row =
      if is_completed row.status
      then record { row = row; performed = []; thrown = none }
      else record_thrown (run_steps names row)

-- The check when a handler is created.
unfoldable pub create_persisted_workflow_handler :
    List String → Result String ((String → Option String) → PersistedWorkflow → HandlerRun)
create_persisted_workflow_handler names =
    if is_nil names || not (distinct names)
    then err "workflow steps must be non-empty and uniquely named"
    else ok (λ outcome row. handle outcome names row)
