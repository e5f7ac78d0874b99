-- ===== src/Workflow/Manage.antt =====
-- src/financial_intelligence/application/manage_research_workflow.py: the operations on workflows.
pub mod Finish
pub mod Operations
pub mod Effects
pub mod Safety
pub mod Answers
pub mod Decisions
pub mod Refusals
use agentic_equity_research.Prelude.{
  ℕ, ◌+◌, Bool, true, false, not, ◌&&◌, ◌||◌, Option, none, some, List, [], ◌∷◌, ◌++◌, take, keep,
  length, ◌==◌, Error, Result, err, raise_if, if◌then◌else◌, is_some, naive_timestamp,
  ok_without_workflow, workflow_transition,
}
use agentic_equity_research.Prelude.{◌>>=◌ as then_ok}
use agentic_equity_research.Text.{Text, text, is_empty}
use agentic_equity_research.Task.{TaskStatus, ResearchTask, Datetime}
use agentic_equity_research.Outcome.{TaskEvidenceRef, DataOrigin}
use agentic_equity_research.Budget.{ResearchExecutionBudget}
use agentic_equity_research.Retry.{ExecutionControl}
use agentic_equity_research.Execution.{CompanyIdentity, Environment}
use agentic_equity_research.Workflow.{
  WorkflowStatus, WorkflowCheckpoint, WorkflowCompanyQuery, ResearchWorkflow,
}
use agentic_equity_research.Workflow.Store.{find_workflow, save_workflow}
use agentic_equity_research.Workflow.World.{
  MemoryRecordStatus, ResearchMemoryRecord, check_memory_record, append_memory, NotificationType,
  NotificationEvent, World, Action, pure, lift, ◌>>=◌, ◌>>◌, store_call,
}

-- What an operation reads from outside. `clock n` is its n-th reading of the clock, and
-- `fresh_id n` the n-th identifier that it makes. `memory_error` and `publish_error` give the name
-- of the exception that a port raises, other than a ValueError of the memory. `meanwhile` is what
-- other threads do while the plan is executed.
pub record Services : Type 0 where
  pub clock : ℕ → Datetime
  pub resolve : WorkflowCompanyQuery → Option CompanyIdentity
  pub has_memory : Bool
  pub has_notifications : Bool
  pub memory_error : ResearchMemoryRecord → Option Text
  pub publish_error : NotificationEvent → Option Text
  pub fresh_id : ℕ → ℕ
  pub env : Environment
  pub budget : ResearchExecutionBudget
  pub meanwhile : World → World

-- The control token of a call: what the rounds read, and what is read after the execution.
pub record ControlTrace : Type 0 where
  pub during : ℕ → ExecutionControl
  pub at_end : ExecutionControl

pub data WorkflowOperationStatus : Type 0 where
  ok invalid resolution_blocked not_found conflict approval_required rejected failed :
      WorkflowOperationStatus

pub record WorkflowOperationResult : Type 0 where
  pub status : WorkflowOperationStatus
  pub message : Text
  pub workflow : Option ResearchWorkflow
  pub evaluated_at : Datetime

abbrev pub is_ok : WorkflowOperationStatus → Bool
is_ok WorkflowOperationStatus.ok = true
is_ok _ = false

-- WorkflowOperationResult.__post_init__
unfoldable pub check_operation_result : WorkflowOperationResult → Result WorkflowOperationResult
check_operation_result r = then_ok (raise_if (not r.evaluated_at.tz_aware) naive_timestamp) λ _.
    then_ok (raise_if (is_ok r.status && not (is_some r.workflow)) ok_without_workflow)
      λ _. Result.ok r

-- The `return WorkflowOperationResult(…)` of an operation.
unfoldable pub answer :
    WorkflowOperationStatus
    → Text
    → Option ResearchWorkflow
    → Datetime
    → Action WorkflowOperationResult
unfolding check_operation_result
answer status message workflow now = lift (
    check_operation_result
      (record { status = status; message = message; workflow = workflow; evaluated_at = now }))

unfoldable pub status_value : WorkflowStatus → Text
unfolding text
status_value WorkflowStatus.created = text "created"
status_value WorkflowStatus.ready = text "ready"
status_value WorkflowStatus.running = text "running"
status_value WorkflowStatus.paused = text "paused"
status_value WorkflowStatus.awaiting_approval = text "awaiting_approval"
status_value WorkflowStatus.completed = text "completed"
status_value WorkflowStatus.partial = text "partial"
status_value WorkflowStatus.failed = text "failed"
status_value WorkflowStatus.cancelled = text "cancelled"

-- self._store.get_workflow
unfoldable pub get_workflow : ℕ → Action (Option ResearchWorkflow)
get_workflow key w = (Result.ok (find_workflow key w.store.workflows), w)

abbrev pub is_transition_error : Error → Bool
is_transition_error workflow_transition = true
is_transition_error _ = false

module _ (svc : Services) where
  -- The `except WorkflowTransitionError` of `_commit_or_conflict`; other errors pass.
  unfoldable pub conflict_or_raise : ℕ → Error → Datetime → Action (Option WorkflowOperationResult)
  unfolding answer
  conflict_or_raise workflow_id e now =
      if is_transition_error e
      then (do
        current ← get_workflow workflow_id
        result ←
            answer WorkflowOperationStatus.conflict
              (text "workflow lifecycle changed concurrently; stale execution result discarded: "
                ++ svc.env.error_text e)
              current now
        pure (some result))
      else lift (err e)

  -- `_commit_or_conflict`: `none` when the store took the workflow.
  unfoldable pub commit_or_conflict :
      ℕ → ResearchWorkflow → Datetime → Action (Option WorkflowOperationResult)
  unfolding conflict_or_raise
  commit_or_conflict workflow_id workflow now w = elim (save_workflow workflow w.store) [
    | Result.ok store ↦ (Result.ok none, record w { store = store })
    | err e ↦ conflict_or_raise workflow_id e now w
  ]

  -- NotificationEvent(…) and `publish` of `_notify`: the warning that it returns. The messages are
  -- constants within the bounds of NotificationEvent, so only the timestamp can be refused.
  unfoldable pub notify :
      NotificationType → ResearchWorkflow → Text → Datetime → Action (Option Text)
  notify kind workflow message now w =
      if not svc.has_notifications
      then (Result.ok none, w)
      else if not now.tz_aware
      then (err naive_timestamp, w)
      else let event : NotificationEvent = record {
        notification_type = kind;
        created_at = now;
        workflow_id = workflow.workflow_id;
        company_id = workflow.company_id;
        message = message;
        status = workflow.status;
        approval_status = workflow.approval_status;
      } in
        (elim (svc.publish_error event) [
          | some name ↦ (Result.ok (some (text "notification_failed:" ++ name)), w)
          | none ↦ (Result.ok none, record w { events = w.events ++ event ∷ [] })
        ])

  -- The status of the memory record of a task; `none` is the `continue` of an unfinished task.
  abbrev pub memory_status : TaskStatus → Option MemoryRecordStatus
  memory_status TaskStatus.succeeded = some MemoryRecordStatus.succeeded
  memory_status TaskStatus.failed = some MemoryRecordStatus.failed
  memory_status TaskStatus.skipped = some MemoryRecordStatus.skipped
  memory_status TaskStatus.blocked = some MemoryRecordStatus.failed
  memory_status _ = none

  abbrev checkpoint_evidence : Option WorkflowCheckpoint → List TaskEvidenceRef
  checkpoint_evidence none = []
  checkpoint_evidence (some c) = c.evidence_refs

  abbrev first_origin : List TaskEvidenceRef → Option DataOrigin
  first_origin [] = none
  first_origin (r ∷ rs) = r.data_origin

  unfoldable pub memory_record :
      ResearchWorkflow → ResearchTask → MemoryRecordStatus → Datetime → ℕ → ResearchMemoryRecord
  memory_record workflow task status at n =
      let refs =
        keep (λ r. r.company_id == workflow.company_id)
          (checkpoint_evidence workflow.latest_checkpoint) in
      record {
        record_id = svc.fresh_id n;
        workflow_id = workflow.workflow_id;
        research_run_id = workflow.research_run_id;
        company_id = workflow.company_id;
        capability = task.capability_id;
        task_id = task.task_id;
        status = status;
        summary =
            if is_empty task.description then task.capability_id else take 1000 task.description;
        created_at = at;
        evidence_refs = refs;
        data_origin = first_origin refs;
      }

  -- `self._memory.append(record)` with its handlers: the memory after it, or the exception's name.
  unfoldable pub remember :
      ResearchMemoryRecord → List ResearchMemoryRecord → List ResearchMemoryRecord × Option Text
  unfolding check_memory_record append_memory
  remember record' memory = elim (check_memory_record record') [
    | err e ↦ (memory, some (text "ValueError"))
    | Result.ok checked ↦ elim (svc.memory_error checked) [
      | some name ↦ (memory, some name)
      | none ↦ elim (append_memory checked memory) [
        | some memory' ↦ (memory', none)
        | none ↦ (memory, none)
      ]
    ]
  ]

  -- The loop of `_persist_memory`; the n-th record gets the n-th identifier.
  unfoldable pub remember_tasks :
      ResearchWorkflow
      → List ResearchTask
      → Datetime
      → ℕ
      → List ResearchMemoryRecord
      → List ResearchMemoryRecord × Option Text
  unfolding remember memory_record
  remember_tasks workflow [] at n memory = (memory, none)
  remember_tasks workflow (t ∷ ts) at n memory = elim (memory_status t.status) [
    | none ↦ remember_tasks workflow ts at n memory
    | some status ↦
        let (memory', failure) = remember (memory_record workflow t status at n) memory in
        (elim failure [
          | some name ↦ (memory', some name)
          | none ↦ remember_tasks workflow ts at (n + 1) memory'
        ])
  ]

  abbrev memory_warning : Option Text → Option Text
  memory_warning none = none
  memory_warning (some name) = some (text "research_memory_write_failed:" ++ name)

  -- `_persist_memory`: it never raises.
  unfoldable pub persist_memory :
      ResearchWorkflow → List ResearchTask → Datetime → Action (Option Text)
  unfolding remember_tasks
  persist_memory workflow tasks at w =
      if not svc.has_memory
      then (Result.ok none, w)
      else let (memory', failure) = remember_tasks workflow tasks at 0 w.memory in
        (Result.ok (memory_warning failure), record w { memory = memory' })
