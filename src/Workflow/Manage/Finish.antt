-- ===== src/Workflow/Manage/Finish.antt =====
-- The end of `ManageResearchWorkflow.execute`: `_apply_execution_result`.
use agentic_equity_research.Prelude.{
  ℕ, ◌+◌, Bool, true, false, Option, none, some, List, [], ◌∷◌, ◌++◌, length, Result,
}
use agentic_equity_research.Text.{Text, text}
use agentic_equity_research.Task.{Datetime}
use agentic_equity_research.Plan.{ResearchPlan, OrchestrationState}
use agentic_equity_research.Execution.Status.{ResearchExecutionStatus, ResearchExecutionResult}
use agentic_equity_research.Workflow.{
  WorkflowStatus, WorkflowCheckpoint, ResearchWorkflow, check_checkpoint, check_workflow,
  with_workflow_status, with_checkpoint,
}
use agentic_equity_research.Workflow.Store.{save_workflow, save_checkpoint}
use agentic_equity_research.Workflow.World.{
  NotificationType, Action, pure, lift, ◌>>=◌, ◌>>◌, case_option, store_call,
}
use agentic_equity_research.Workflow.Manage.{
  Services, WorkflowOperationStatus, WorkflowOperationResult, answer, commit_or_conflict, notify,
  persist_memory,
}

-- What an execution result turns a workflow into: its status, that of the operation, the message,
-- and the notification to send.
pub record Ending : Type 0 where
  pub terminal : WorkflowStatus
  pub op : WorkflowOperationStatus
  pub message : Text
  pub notification : Option NotificationType

unfoldable pub execution_value : ResearchExecutionStatus → Text
unfolding text
execution_value ResearchExecutionStatus.completed = text "completed"
execution_value ResearchExecutionStatus.partial = text "partial"
execution_value ResearchExecutionStatus.failed = text "failed"
execution_value ResearchExecutionStatus.blocked = text "blocked"
execution_value ResearchExecutionStatus.cancelled = text "cancelled"
execution_value ResearchExecutionStatus.budget_exceeded = text "budget_exceeded"
execution_value ResearchExecutionStatus.resolution_blocked = text "resolution_blocked"
execution_value ResearchExecutionStatus.invalid = text "invalid"
execution_value ResearchExecutionStatus.unavailable = text "unavailable"

abbrev pub ending_of : ResearchExecutionStatus → Ending
ending_of ResearchExecutionStatus.cancelled = record {
  terminal = WorkflowStatus.cancelled;
  op = WorkflowOperationStatus.ok;
  message = text "workflow cancelled";
  notification = some NotificationType.workflow_cancelled;
}
ending_of ResearchExecutionStatus.completed = record {
  terminal = WorkflowStatus.completed;
  op = WorkflowOperationStatus.ok;
  message = text "workflow completed";
  notification = some NotificationType.workflow_completed;
}
ending_of ResearchExecutionStatus.partial = record {
  terminal = WorkflowStatus.partial;
  op = WorkflowOperationStatus.ok;
  message = text "workflow completed with partial results";
  notification = some NotificationType.workflow_partial;
}
ending_of ResearchExecutionStatus.budget_exceeded = record {
  terminal = WorkflowStatus.failed;
  op = WorkflowOperationStatus.failed;
  message = text "workflow failed: budget exceeded";
  notification = some NotificationType.workflow_failed;
}
ending_of status = record {
  terminal = WorkflowStatus.failed;
  op = WorkflowOperationStatus.failed;
  message = text "workflow failed: " ++ execution_value status;
  notification = some NotificationType.workflow_failed;
}

-- A pause that was asked for wins over the status of the execution.
abbrev pub ending : Bool → ResearchExecutionStatus → Ending
ending true status = record {
  terminal = WorkflowStatus.paused;
  op = WorkflowOperationStatus.ok;
  message = text "workflow paused with checkpoint";
  notification = none;
}
ending false status = ending_of status

abbrev plan_or : Option ResearchPlan → ResearchPlan → ResearchPlan
plan_or none plan = plan
plan_or (some p) plan = p

abbrev attempts_of : Option OrchestrationState → ℕ
attempts_of none = 0
attempts_of (some s) = s.total_attempts

abbrev calls_of : Option OrchestrationState → ℕ
calls_of none = 0
calls_of (some s) = s.external_calls

-- The checkpoint that `_apply_execution_result` builds.
unfoldable pub result_checkpoint :
    ResearchWorkflow → ResearchExecutionResult → Datetime → Result WorkflowCheckpoint
unfolding check_checkpoint
result_checkpoint workflow r now = check_checkpoint (record {
  workflow_id = workflow.workflow_id;
  research_run_id = workflow.research_run_id;
  version = workflow.checkpoint_version + 1;
  plan = plan_or r.plan workflow.plan;
  created_at = now;
  total_attempts = attempts_of r.orchestration;
  external_calls = calls_of r.orchestration;
  warnings = r.warnings;
  task_results = r.task_results;
  evidence_refs = r.evidence_refs;
  message = r.message;
})

abbrev cons_some : List Text → Option Text → List Text
cons_some ws none = ws
cons_some ws (some w) = ws ++ w ∷ []

-- The workflow with the counts of the execution, before its last change of status.
unfoldable pub counted :
    ResearchWorkflow → ResearchExecutionResult → Option Text → Result ResearchWorkflow
unfolding check_workflow
counted updated r memory_warning = check_workflow (record updated {
  completed_count = r.completed_count;
  failed_count = r.failed_count;
  blocked_count = r.blocked_count;
  partial_count = r.partial_count;
  evidence_count = length r.evidence_refs;
  execution_message = some r.message;
  warnings = cons_some r.warnings memory_warning;
})

module _ (svc : Services) where
  -- The notification of an ending, and the second save when it fails.
  unfoldable pub announce :
      Option NotificationType → ResearchWorkflow → Text → Datetime → Action ResearchWorkflow
  unfolding notify store_call check_workflow
  announce none updated message at = pure updated
  announce (some kind) updated message at = do
    warning ← notify svc kind updated message at
    case_option warning (pure updated) λ note. do
      noted ← lift (check_workflow (record updated { warnings = updated.warnings ++ note ∷ [] }))
      store_call (save_workflow noted)
      pure noted

  -- From the commit of the result to the end of `_apply_execution_result`: the checkpoint is saved
  -- only if the store took the workflow.
  unfoldable pub commit_result :
      ResearchWorkflow
      → WorkflowCheckpoint
      → Ending
      → ResearchWorkflow
      → Datetime
      → Datetime
      → Action WorkflowOperationResult
  unfolding commit_or_conflict store_call announce answer
  commit_result workflow checkpoint end updated now at = do
    conflict ← commit_or_conflict svc workflow.workflow_id updated now
    case_option conflict
        (do
          store_call (save_checkpoint checkpoint)
          final ← announce end.notification updated end.message at
          answer end.op end.message (some final) now)
        λ result. pure result

  -- `_apply_execution_result`; `now` and `at` are its readings of the clock.
  unfoldable pub apply_execution_result :
      ResearchWorkflow
      → ResearchExecutionResult
      → Bool
      → Datetime
      → Datetime
      → Action WorkflowOperationResult
  unfolding result_checkpoint with_checkpoint persist_memory counted with_workflow_status
      commit_result
  apply_execution_result workflow r pause_requested now at = do
    checkpoint ← lift (result_checkpoint workflow r now)
    updated ← lift (with_checkpoint workflow checkpoint now)
    let end = ending pause_requested r.status
    memory_warning ← persist_memory svc updated (plan_or r.plan workflow.plan).tasks now
    updated' ← lift (counted updated r memory_warning)
    final ← lift (with_workflow_status updated' end.terminal now)
    commit_result workflow checkpoint end final now at
