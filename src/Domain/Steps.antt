-- ===== src/Domain/Steps.antt =====
-- packages/domain/src/workflows.ts: completeWorkflowStep.
pub mod Laws
use legacy_vault.Base.{
  ◌+◌, String, Option, none, some, List, [], ◌∷◌, ◌++◌, if◌then◌else◌, truthy?, contains, string_eq,
}
use legacy_vault.Domain.Enums.{running, completed}
use legacy_vault.Domain.Entities.{WorkflowRun}

unfoldable pub complete_workflow_step : WorkflowRun → String → Option String → WorkflowRun
complete_workflow_step workflow step next_step =
    if contains workflow.completed_steps step
    then workflow
    else (if truthy? next_step
        then record workflow {
          completed_steps = workflow.completed_steps ++ step ∷ [];
          status = running;
          next_step = next_step;
          version = workflow.version + 1;
        }
        else record workflow {
          completed_steps = workflow.completed_steps ++ step ∷ [];
          status = completed;
          next_step = none;
          version = workflow.version + 1;
        })
