-- ===== src/Workflow.antt =====
-- src/financial_intelligence/domain/workflow: the workflow aggregate, its approval, its checkpoints and
-- its lifecycle (status.py, approval.py, checkpoint.py, model.py).
pub mod Lifecycle
pub mod Store
pub mod World
pub mod Manage
pub mod Create
pub mod Creation
use agentic_equity_research.Prelude.{
  ℕ, ◌+◌, Bool, true, false, not, ◌&&◌, ◌||◌, Option, none, some, List, ltb, ◌==◌, Result, ok, err,
  raise_if, ◌>>=◌, ◌>>◌, if◌then◌else◌, naive_timestamp, workflow_transition,
  approval_already_decided, terminal_approval, workflow_run_mismatch, workflow_company_mismatch,
  checkpoint_workflow_mismatch, checkpoint_version_mismatch, checkpoint_version_out_of_bounds,
  checkpoint_run_mismatch, checkpoint_message_out_of_bounds, decision_not_decided,
  decision_source_out_of_bounds, decision_source_control_characters, approval_note_out_of_bounds,
  approval_note_control_characters, approval_reason_out_of_bounds,
  approval_reason_control_characters, raw_query_out_of_bounds,
}
use agentic_equity_research.Text.{Text, strip, normalize, is_empty, has_control, exceeds}
use agentic_equity_research.Task.{Datetime}
use agentic_equity_research.Outcome.{TaskEvidenceRef, TaskExecutionResult}
use agentic_equity_research.Plan.{ResearchObjective, ResearchPlan}

pub data WorkflowStatus : Type 0 where
  created ready running paused awaiting_approval completed partial failed cancelled : WorkflowStatus

-- `new in _ALLOWED[current]`
unfoldable pub allowed_change : WorkflowStatus → WorkflowStatus → Bool
allowed_change WorkflowStatus.created WorkflowStatus.ready = true
allowed_change WorkflowStatus.created WorkflowStatus.awaiting_approval = true
allowed_change WorkflowStatus.created WorkflowStatus.cancelled = true
allowed_change WorkflowStatus.ready WorkflowStatus.running = true
allowed_change WorkflowStatus.ready WorkflowStatus.awaiting_approval = true
allowed_change WorkflowStatus.ready WorkflowStatus.cancelled = true
allowed_change WorkflowStatus.running WorkflowStatus.paused = true
allowed_change WorkflowStatus.running WorkflowStatus.awaiting_approval = true
allowed_change WorkflowStatus.running WorkflowStatus.completed = true
allowed_change WorkflowStatus.running WorkflowStatus.partial = true
allowed_change WorkflowStatus.running WorkflowStatus.failed = true
allowed_change WorkflowStatus.running WorkflowStatus.cancelled = true
allowed_change WorkflowStatus.paused WorkflowStatus.ready = true
allowed_change WorkflowStatus.paused WorkflowStatus.running = true
allowed_change WorkflowStatus.paused WorkflowStatus.cancelled = true
allowed_change WorkflowStatus.awaiting_approval WorkflowStatus.ready = true
allowed_change WorkflowStatus.awaiting_approval WorkflowStatus.cancelled = true
allowed_change WorkflowStatus.awaiting_approval WorkflowStatus.failed = true
allowed_change _ _ = false

-- assert_transition
unfoldable pub assert_transition : WorkflowStatus → WorkflowStatus → Result (Unit {0})
assert_transition current new = raise_if (not (allowed_change current new)) workflow_transition

abbrev pub is_terminal : WorkflowStatus → Bool
is_terminal WorkflowStatus.completed = true
is_terminal WorkflowStatus.partial = true
is_terminal WorkflowStatus.failed = true
is_terminal WorkflowStatus.cancelled = true
is_terminal _ = false

pub data ApprovalStatus : Type 0 where
  not_required pending approved rejected : ApprovalStatus

abbrev pub is_decided : ApprovalStatus → Bool
is_decided ApprovalStatus.approved = true
is_decided ApprovalStatus.rejected = true
is_decided _ = false

abbrev pub awaits_decision : ApprovalStatus → Bool
awaits_decision ApprovalStatus.pending = true
awaits_decision _ = false

pub record ApprovalRequirement : Type 0 where
  pub required : Bool
  pub reason : Text

-- ApprovalRequirement.__post_init__
unfoldable pub check_requirement : ApprovalRequirement → Result ApprovalRequirement
check_requirement r = do
  let reason = normalize r.reason
  raise_if (is_empty reason || exceeds reason 512) approval_reason_out_of_bounds
  raise_if (has_control reason) approval_reason_control_characters
  ok (record r { reason = reason })

pub record ApprovalDecision : Type 0 where
  pub status : ApprovalStatus
  pub decided_at : Datetime
  pub note : Option Text
  pub decision_source : Text

abbrev note_or_none : Text → Option Text
note_or_none note = if is_empty note then none else some note

unfoldable pub check_note : Option Text → Result (Option Text)
check_note none = ok none
check_note (some raw) = do
  let note = normalize raw
  raise_if (exceeds note 512) approval_note_out_of_bounds
  raise_if (has_control note) approval_note_control_characters
  ok (note_or_none note)

-- ApprovalDecision.__post_init__
unfoldable pub check_decision : ApprovalDecision → Result ApprovalDecision
unfolding check_note
check_decision d = do
  raise_if (not d.decided_at.tz_aware) naive_timestamp
  raise_if (not (is_decided d.status)) decision_not_decided
  let source = normalize d.decision_source
  raise_if (is_empty source || exceeds source 64) decision_source_out_of_bounds
  raise_if (has_control source) decision_source_control_characters
  note ← check_note d.note
  ok (record d { decision_source = source; note = note })

-- The company query of a workflow: the raw text, and the codes that were given with it.
pub record WorkflowCompanyQuery : Type 0 where
  pub raw_query : Text
  pub country : Option Text
  pub exchange : Option Text
  pub ticker : Option Text

-- WorkflowCompanyQuery.__post_init__
unfoldable pub check_company_query : WorkflowCompanyQuery → Result WorkflowCompanyQuery
check_company_query q = do
  let raw_query = strip q.raw_query
  raise_if (exceeds raw_query 200) raw_query_out_of_bounds
  ok (record q { raw_query = raw_query })

pub record WorkflowCheckpoint : Type 0 where
  pub workflow_id : ℕ
  pub research_run_id : ℕ
  pub version : ℕ
  pub plan : ResearchPlan
  pub created_at : Datetime
  pub total_attempts : ℕ
  pub external_calls : ℕ
  pub warnings : List Text
  pub task_results : List TaskExecutionResult
  pub evidence_refs : List TaskEvidenceRef
  pub message : Text

-- WorkflowCheckpoint.__post_init__
unfoldable pub check_checkpoint : WorkflowCheckpoint → Result WorkflowCheckpoint
check_checkpoint c = do
  raise_if (not c.created_at.tz_aware) naive_timestamp
  raise_if (ltb c.version 1) checkpoint_version_out_of_bounds
  raise_if (not (c.plan.research_run_id == c.research_run_id)) checkpoint_run_mismatch
  let message = normalize c.message
  raise_if (is_empty message || exceeds message 1000) checkpoint_message_out_of_bounds
  ok (record c { message = message })

pub record ResearchWorkflow : Type 0 where
  pub workflow_id : ℕ
  pub research_run_id : ℕ
  pub request_id : ℕ
  pub company_id : ℕ
  pub objective : ResearchObjective
  pub plan : ResearchPlan
  pub company_query : WorkflowCompanyQuery
  pub status : WorkflowStatus
  pub approval_status : ApprovalStatus
  pub approval_requirement : ApprovalRequirement
  pub created_at : Datetime
  pub updated_at : Datetime
  pub checkpoint_version : ℕ
  pub latest_checkpoint : Option WorkflowCheckpoint
  pub approval_decision : Option ApprovalDecision
  pub execution_message : Option Text
  pub completed_count : ℕ
  pub failed_count : ℕ
  pub blocked_count : ℕ
  pub partial_count : ℕ
  pub evidence_count : ℕ
  pub warnings : List Text

abbrev pub is_foreign_checkpoint : Option WorkflowCheckpoint → ℕ → Bool
is_foreign_checkpoint none workflow_id = false
is_foreign_checkpoint (some c) workflow_id = not (c.workflow_id == workflow_id)

-- ResearchWorkflow.__post_init__: it runs on construction and on every `replace`.
unfoldable pub check_workflow : ResearchWorkflow → Result ResearchWorkflow
check_workflow w = do
  raise_if (not w.created_at.tz_aware || not w.updated_at.tz_aware) naive_timestamp
  raise_if (not (w.plan.research_run_id == w.research_run_id)) workflow_run_mismatch
  raise_if (not (w.plan.company_id == w.company_id)) workflow_company_mismatch
  raise_if (is_foreign_checkpoint w.latest_checkpoint w.workflow_id) checkpoint_workflow_mismatch
  ok w

-- ResearchWorkflow.with_status
unfoldable pub with_workflow_status :
    ResearchWorkflow → WorkflowStatus → Datetime → Result ResearchWorkflow
unfolding assert_transition check_workflow
with_workflow_status w status at = do
  raise_if (not at.tz_aware) naive_timestamp
  assert_transition w.status status
  check_workflow (record w { status = status; updated_at = at })

-- ResearchWorkflow.with_checkpoint
unfoldable pub with_checkpoint :
    ResearchWorkflow → WorkflowCheckpoint → Datetime → Result ResearchWorkflow
unfolding check_workflow
with_checkpoint w checkpoint at = do
  raise_if (not (checkpoint.workflow_id == w.workflow_id)) checkpoint_workflow_mismatch
  raise_if (not (checkpoint.version == w.checkpoint_version + 1)) checkpoint_version_mismatch
  check_workflow (record w {
    plan = checkpoint.plan;
    latest_checkpoint = some checkpoint;
    checkpoint_version = checkpoint.version;
    updated_at = at;
    warnings = checkpoint.warnings;
  })

-- ResearchWorkflow.with_approval
unfoldable pub with_approval :
    ResearchWorkflow → ApprovalDecision → Datetime → WorkflowStatus → Result ResearchWorkflow
unfolding with_workflow_status check_workflow
with_approval w decision at next_status = do
  raise_if (not (awaits_decision w.approval_status)) approval_already_decided
  raise_if (is_terminal w.status) terminal_approval
  updated ← with_workflow_status w next_status at
  check_workflow (record updated {
    approval_status = decision.status;
    approval_decision = some decision;
    updated_at = at;
  })
