-- ===== src/Workflow/Manage/Operations.antt =====
-- `get`, `execute`, `pause`, `resume`, `cancel` and `approve` of `ManageResearchWorkflow`.
use agentic_equity_research.Prelude.{
  ℕ, ◌+◌, Bool, true, false, not, Option, none, some, [], ◌++◌, ◌==◌, Result, if◌then◌else◌,
}
use agentic_equity_research.Text.{Text, text}
use agentic_equity_research.Task.{Datetime}
use agentic_equity_research.Retry.{new_control}
use agentic_equity_research.Execution.{CompanyIdentity}
use agentic_equity_research.Execution.Run.{Seed, execute_prepared}
use agentic_equity_research.Workflow.{
  WorkflowStatus, ApprovalStatus, ApprovalDecision, WorkflowCheckpoint, ResearchWorkflow,
  is_terminal, awaits_decision, check_decision, check_checkpoint, check_workflow,
  with_workflow_status, with_checkpoint, with_approval,
}
use agentic_equity_research.Workflow.Store.{save_checkpoint}
use agentic_equity_research.Workflow.World.{
  NotificationType, Action, pure, lift, ◌>>=◌, ◌>>◌, case_option, case_result, store_call,
}
use agentic_equity_research.Workflow.Manage.{
  Services, ControlTrace, WorkflowOperationStatus, WorkflowOperationResult, answer, status_value,
  get_workflow, commit_or_conflict, notify,
}
use agentic_equity_research.Workflow.Manage.Finish.{apply_execution_result}

abbrev fresh_trace : ControlTrace
fresh_trace = record { during = λ k. new_control; at_end = new_control }

abbrev pub may_execute : WorkflowStatus → Bool
may_execute WorkflowStatus.ready = true
may_execute WorkflowStatus.paused = true
may_execute WorkflowStatus.running = true
may_execute _ = false

abbrev pub is_rejected : ApprovalStatus → Bool
is_rejected ApprovalStatus.rejected = true
is_rejected _ = false

abbrev pub is_approved : ApprovalStatus → Bool
is_approved ApprovalStatus.approved = true
is_approved _ = false

abbrev pub is_paused : WorkflowStatus → Bool
is_paused WorkflowStatus.paused = true
is_paused _ = false

abbrev pub is_running : WorkflowStatus → Bool
is_running WorkflowStatus.running = true
is_running _ = false

abbrev pub is_awaiting : WorkflowStatus → Bool
is_awaiting WorkflowStatus.awaiting_approval = true
is_awaiting _ = false

abbrev seed_of : Option WorkflowCheckpoint → Seed
seed_of none = record { total_attempts = 0; external_calls = 0; results = []; warnings = [] }
seed_of (some c) = record {
  total_attempts = c.total_attempts;
  external_calls = c.external_calls;
  results = c.task_results;
  warnings = c.warnings;
}

abbrev same_company : Option CompanyIdentity → ℕ → Bool
same_company none company_id = false
same_company (some c) company_id = c.company_id == company_id

-- `_build_checkpoint`
unfoldable pub build_checkpoint : ResearchWorkflow → Datetime → Text → Result WorkflowCheckpoint
unfolding check_checkpoint
build_checkpoint workflow at message = check_checkpoint (record {
  workflow_id = workflow.workflow_id;
  research_run_id = workflow.research_run_id;
  version = workflow.checkpoint_version + 1;
  plan = workflow.plan;
  created_at = at;
  total_attempts = (seed_of workflow.latest_checkpoint).total_attempts;
  external_calls = (seed_of workflow.latest_checkpoint).external_calls;
  warnings = workflow.warnings;
  task_results = (seed_of workflow.latest_checkpoint).results;
  evidence_refs = (elim workflow.latest_checkpoint [ none ↦ [] | some c ↦ c.evidence_refs ]);
  message = message;
})

-- The result of a commit, or what follows when the store took the workflow.
abbrev unless_conflict :
    Action (Option WorkflowOperationResult)
    → Action WorkflowOperationResult
    → Action WorkflowOperationResult
unless_conflict m rest = do conflict ← m; case_option conflict rest λ result. pure result

-- What other threads do while the plan is executed.
unfoldable pub elsewhere : Services → Action (Unit {0})
elsewhere svc w = (Result.ok tt, svc.meanwhile w)

module _ (svc : Services) where
  -- The company of the workflow is not the one that its query resolves to. The clock is read four
  -- times: for the new status, the commit, the notification and the result.
  unfoldable pub fail_identity : ResearchWorkflow → Action WorkflowOperationResult
  unfolding with_workflow_status check_workflow commit_or_conflict notify answer
  fail_identity running = do
    failed ← lift (with_workflow_status running WorkflowStatus.failed (svc.clock 1))
    noted ← lift (
        check_workflow (record failed {
          execution_message = some (text "company identity mismatch on execute");
        }))
    unless_conflict (commit_or_conflict svc running.workflow_id noted (svc.clock 2)) (do
      notify svc NotificationType.workflow_failed noted
          (text "company identity mismatch on execute") (svc.clock 3)
      answer WorkflowOperationStatus.failed (text "company identity mismatch on execute")
          (some noted) (svc.clock 4))

  -- The execution of the plan, which does not touch the world, and its result. What other threads do
  -- meanwhile stays also if the execution raises.
  unfoldable pub run_plan :
      ResearchWorkflow → CompanyIdentity → ControlTrace → Datetime → Action WorkflowOperationResult
  unfolding execute_prepared elsewhere apply_execution_result
  run_plan running company trace now = do
    elsewhere svc
    result ← lift (
        execute_prepared (record (svc.env) { control = trace.during }) svc.budget company
          running.plan now (seed_of running.latest_checkpoint))
    apply_execution_result svc running result trace.at_end.is_pause (svc.clock 1) (svc.clock 2)

  unfoldable pub execute_committed :
      ResearchWorkflow
      → Option CompanyIdentity
      → ControlTrace
      → Datetime
      → Action WorkflowOperationResult
  unfolding fail_identity run_plan
  execute_committed running resolved trace now =
      case_option resolved (fail_identity running) λ company.
        if company.company_id == running.company_id
        then run_plan running company trace now
        else fail_identity running

  -- The move to RUNNING; its `except ValueError`.
  unfoldable pub start_execution :
      ResearchWorkflow → ControlTrace → Datetime → Action WorkflowOperationResult
  unfolding with_workflow_status commit_or_conflict execute_committed answer
  start_execution workflow trace now =
      case_result (with_workflow_status workflow WorkflowStatus.running now)
        (λ e. answer WorkflowOperationStatus.conflict (svc.env.error_text e) (some workflow) now)
        λ running.
          unless_conflict (commit_or_conflict svc workflow.workflow_id running now)
            (execute_committed running (svc.resolve running.company_query) trace now)

  -- The guards of `execute`.
  unfoldable pub execute_found :
      ResearchWorkflow → ControlTrace → Datetime → Action WorkflowOperationResult
  unfolding start_execution answer
  execute_found workflow trace now =
      if is_terminal workflow.status
      then answer WorkflowOperationStatus.conflict
          (text "cannot execute terminal workflow status=" ++ status_value workflow.status)
          (some workflow) now
      else if awaits_decision workflow.approval_status
      then answer WorkflowOperationStatus.approval_required
          (text "human approval required before execution") (some workflow) now
      else if is_rejected workflow.approval_status
      then answer WorkflowOperationStatus.rejected (text "workflow approval was rejected")
          (some workflow) now
      else if not (may_execute workflow.status)
      then answer WorkflowOperationStatus.conflict
          (text "invalid status for execution: " ++ status_value workflow.status) (some workflow)
          now
      else start_execution workflow trace now

  abbrev not_found : Datetime → Action WorkflowOperationResult
  not_found now = answer WorkflowOperationStatus.not_found (text "workflow not found") none now

  -- `get`
  unfoldable pub get : ℕ → Action WorkflowOperationResult
  unfolding answer
  get workflow_id = do
    found ← get_workflow workflow_id
    case_option found (not_found (svc.clock 0)) λ workflow.
        answer WorkflowOperationStatus.ok (text "workflow loaded") (some workflow) (svc.clock 0)

  unfoldable pub execute : ℕ → ControlTrace → Action WorkflowOperationResult
  unfolding execute_found answer
  execute workflow_id trace = do
    found ← get_workflow workflow_id
    case_option found (not_found (svc.clock 0))
        λ workflow. execute_found workflow trace (svc.clock 0)

  unfoldable pub pause_running : ResearchWorkflow → Datetime → Action WorkflowOperationResult
  unfolding build_checkpoint with_checkpoint with_workflow_status commit_or_conflict store_call
      answer
  pause_running workflow now = do
    checkpoint ← lift (build_checkpoint workflow now (text "manual pause checkpoint"))
    marked ← lift (with_checkpoint workflow checkpoint now)
    paused ← lift (with_workflow_status marked WorkflowStatus.paused now)
    unless_conflict (commit_or_conflict svc workflow.workflow_id paused now) (do
      store_call (save_checkpoint checkpoint)
      answer WorkflowOperationStatus.ok (text "workflow paused") (some paused) now)

  unfoldable pub pause_found : ResearchWorkflow → Datetime → Action WorkflowOperationResult
  unfolding pause_running answer
  pause_found workflow now =
      if is_paused workflow.status
      then answer WorkflowOperationStatus.ok (text "workflow already paused") (some workflow) now
      else if not (is_running workflow.status)
      then answer WorkflowOperationStatus.conflict
          (text "cannot pause workflow status=" ++ status_value workflow.status) (some workflow) now
      else pause_running workflow now

  unfoldable pub pause : ℕ → Action WorkflowOperationResult
  unfolding pause_found answer
  pause workflow_id = do
    found ← get_workflow workflow_id
    case_option found (not_found (svc.clock 0)) λ workflow. pause_found workflow (svc.clock 0)

  unfoldable pub cancel_open : ResearchWorkflow → Datetime → Action WorkflowOperationResult
  unfolding with_workflow_status check_workflow commit_or_conflict notify answer
  cancel_open workflow now =
      case_result (with_workflow_status workflow WorkflowStatus.cancelled now)
        (λ e. answer WorkflowOperationStatus.conflict (svc.env.error_text e) (some workflow) now)
        λ moved. do
          cancelled ← lift (
              check_workflow (record moved {
                execution_message = some (text "workflow cancelled by trusted API");
              }))
          unless_conflict (commit_or_conflict svc workflow.workflow_id cancelled now) (do
            notify svc NotificationType.workflow_cancelled cancelled (text "workflow cancelled")
                (svc.clock 1)
            answer WorkflowOperationStatus.ok (text "workflow cancelled") (some cancelled) now)

  unfoldable pub cancel : ℕ → Action WorkflowOperationResult
  unfolding cancel_open answer
  cancel workflow_id = do
    found ← get_workflow workflow_id
    case_option found (not_found (svc.clock 0)) λ workflow.
        if is_terminal workflow.status
        then answer WorkflowOperationStatus.conflict
            (text "cannot cancel terminal workflow status=" ++ status_value workflow.status)
            (some workflow) (svc.clock 0)
        else cancel_open workflow (svc.clock 0)

  -- The approved branch of `approve`, and the rejected one.
  unfoldable pub decide :
      ResearchWorkflow → ApprovalDecision → Datetime → Action WorkflowOperationResult
  unfolding with_approval check_workflow commit_or_conflict answer
  decide workflow decision now =
      if is_approved decision.status
      then (do
        updated ← lift (with_approval workflow decision now WorkflowStatus.ready)
        unless_conflict (commit_or_conflict svc workflow.workflow_id updated now)
            (answer WorkflowOperationStatus.ok (text "workflow approved") (some updated) now))
      else (do
        failed ← lift (with_approval workflow decision now WorkflowStatus.failed)
        updated ←
            lift (
              check_workflow
                (record failed { execution_message = some (text "approval rejected") }))
        unless_conflict (commit_or_conflict svc workflow.workflow_id updated now) (
            answer WorkflowOperationStatus.rejected (text "workflow approval rejected")
              (some updated) now))

  unfoldable pub approve_found :
      ResearchWorkflow
      → ApprovalStatus
      → Option Text
      → Text
      → Datetime
      → Action WorkflowOperationResult
  unfolding check_decision decide answer
  approve_found workflow decision note source now =
      if not (is_awaiting workflow.status)
      then answer WorkflowOperationStatus.conflict
          (text "workflow not awaiting approval status=" ++ status_value workflow.status)
          (some workflow) now
      else (do
        checked ← lift (
            check_decision (record {
              status = decision;
              decided_at = now;
              note = note;
              decision_source = source;
            }))
        decide workflow checked now)

  unfoldable pub approve : ℕ → ApprovalStatus → Option Text → Text → Action WorkflowOperationResult
  unfolding approve_found answer
  approve workflow_id decision remark source = do
    found ← get_workflow workflow_id
    case_option found (not_found (svc.clock 0))
        λ workflow. approve_found workflow decision remark source (svc.clock 0)

module _ (svc : Services) where
  -- A resumed workflow is executed with a control token of its own, and the clock goes on.
  unfoldable pub resume_paused : ResearchWorkflow → Datetime → Action WorkflowOperationResult
  unfolding with_workflow_status commit_or_conflict execute
  resume_paused workflow now = do
    ready ← lift (with_workflow_status workflow WorkflowStatus.ready now)
    unless_conflict (commit_or_conflict svc workflow.workflow_id ready now)
        (execute (record svc { clock = λ n. svc.clock (n + 1) }) workflow.workflow_id fresh_trace)

  unfoldable pub resume_found : ResearchWorkflow → Datetime → Action WorkflowOperationResult
  unfolding resume_paused answer
  resume_found workflow now =
      if not (is_paused workflow.status)
      then answer WorkflowOperationStatus.conflict
          (text "cannot resume workflow status=" ++ status_value workflow.status) (some workflow)
          now
      else if awaits_decision workflow.approval_status
      then answer WorkflowOperationStatus.approval_required
          (text "human approval required before resume") (some workflow) now
      else resume_paused workflow now

  unfoldable pub resume : ℕ → Action WorkflowOperationResult
  unfolding resume_found answer
  resume workflow_id = do
    found ← get_workflow workflow_id
    case_option found (not_found svc (svc.clock 0)) λ workflow. resume_found workflow (svc.clock 0)
