-- ===== src/Domain/Steps/Laws.antt =====
-- completeWorkflowStep: repeating a step changes nothing, and no step is counted twice.
use legacy_vault.Base.{
  ◌+◌, ◌≡◌, refl, String, true, Option, List, [], ◌∷◌, arith, length, distinct, string_eq,
  length-append, eq_self, contains-append, distinct-append,
}
use legacy_vault.Domain.Entities.{WorkflowRun}
use legacy_vault.Domain.Steps.{complete_workflow_step}

-- A run of calls, each with its step and the step that should follow.
unfoldable pub complete_all : WorkflowRun → List (String × Option String) → WorkflowRun
complete_all w [] = w
complete_all w ((step, next) ∷ calls) = complete_all (complete_workflow_step w step next) calls

-- A call for a step that was completed before, whatever step is named as the next, changes nothing;
-- so a call that is made twice is the call made once.
complete_workflow_step_idempotent :
    (w : WorkflowRun) (step : String) (next again : Option String)
    → complete_workflow_step (complete_workflow_step w step next) step again
      ≡ complete_workflow_step w step next
unfolding complete_workflow_step
complete_workflow_step_idempotent w step next again =
    ground (arith, contains-append w.completed_steps step step, eq_self step)

complete_workflow_step-distinct :
    (w : WorkflowRun) (step : String) (next : Option String)
    → distinct w.completed_steps ≡ true
    → distinct (complete_workflow_step w step next).completed_steps ≡ true
unfolding complete_workflow_step
complete_workflow_step-distinct w step next h =
    ground (arith, distinct-append w.completed_steps step)

complete_workflow_step-version :
    (w : WorkflowRun) (step : String) (next : Option String)
    → (complete_workflow_step w step next).version + length w.completed_steps
      ≡ w.version + length (complete_workflow_step w step next).completed_steps
unfolding complete_workflow_step
complete_workflow_step-version w step next =
    ground (arith, length-append w.completed_steps (step ∷ []))

-- After any run of calls no step is listed twice, if none was before, and the version has grown by
-- exactly the number of steps that were newly completed.
complete_all_counts :
    (w : WorkflowRun) (calls : List (String × Option String))
    → distinct w.completed_steps ≡ true
    → (distinct (complete_all w calls).completed_steps ≡ true)
      × ((complete_all w calls).version + length w.completed_steps
          ≡ w.version + length (complete_all w calls).completed_steps)
unfolding complete_all
complete_all_counts w [] h = (h, refl)
complete_all_counts w ((step, next) ∷ calls) h =
    let (d, v) =
      complete_all_counts (complete_workflow_step w step next) calls
        (complete_workflow_step-distinct w step next h) in
    (d, omega (arith, complete_workflow_step-version w step next))
