-- ===== src/Workflow/Manage/Decisions.antt =====
-- `approve` of a workflow that awaits a decision.
use agentic_equity_research.Prelude.{◌≡◌, refl, ap, true, Option, some, ok, arith}
use agentic_equity_research.Text.{Text, text}
use agentic_equity_research.Task.{Datetime}
use agentic_equity_research.Workflow.{
  WorkflowStatus, ApprovalStatus, ApprovalDecision, ResearchWorkflow, check_decision,
  with_workflow_status, assert_transition, with_approval, check_workflow, allowed_change,
}
use agentic_equity_research.Workflow.Lifecycle.{IsConsistent}
use agentic_equity_research.Workflow.Store.{
  Store, find_workflow, save_workflow, check_save, same_status,
}
use agentic_equity_research.Workflow.World.{World, ◌>>=◌, case_option}
use agentic_equity_research.Workflow.Manage.{Services, WorkflowOperationStatus, get_workflow}
use agentic_equity_research.Workflow.Manage.Operations.{
  approve, approve_found, decide, is_approved, is_awaiting,
}
use agentic_equity_research.Workflow.Manage.Answers.{about, answer-about, saved, commit_saved}

-- The workflow that an approval stores.
abbrev pub approved : ResearchWorkflow → ApprovalDecision → Datetime → ResearchWorkflow
approved v d now = record v {
  status = WorkflowStatus.ready;
  approval_status = d.status;
  approval_decision = some d;
  updated_at = now;
}

check_decision-status :
    (d : ApprovalDecision) {e : ApprovalDecision} → check_decision d ≡ ok e → e.status ≡ d.status
unfolding check_decision
check_decision-status d h = ground arith

with_approval_ok :
    (v : ResearchWorkflow) (d : ApprovalDecision) (now : Datetime)
    → IsConsistent v
    → v.status ≡ WorkflowStatus.awaiting_approval
    → v.approval_status ≡ ApprovalStatus.pending
    → now.tz_aware ≡ true
    → with_approval v d now WorkflowStatus.ready ≡ ok (approved v d now)
unfolding with_approval with_workflow_status assert_transition allowed_change check_workflow
with_approval_ok v d now c waiting pending aware = ground arith

check_save-approved :
    (v : ResearchWorkflow) (d : ApprovalDecision) (now : Datetime)
    → v.status ≡ WorkflowStatus.awaiting_approval
    → check_save (some v) (approved v d now) ≡ ok tt
unfolding check_save assert_transition allowed_change same_status
check_save-approved v d now waiting = ground arith

save_approved :
    (v : ResearchWorkflow) (d : ApprovalDecision) (now : Datetime) (s : Store)
    → find_workflow v.workflow_id s.workflows ≡ some v
    → v.status ≡ WorkflowStatus.awaiting_approval
    → save_workflow (approved v d now) s ≡ ok (saved (approved v d now) s)
unfolding save_workflow
save_approved v d now s found waiting = rw (found, check_save-approved v d now waiting) refl

-- Approving a workflow that awaits it answers OK and stores the workflow READY with the decision,
-- and changes nothing else of it but the time stamp, provided the stored workflow is consistent,
-- the clock gives an aware time, and the decision passes its own checks.
pub approve_accepted :
    (svc : Services) (remark : Option Text) (source : Text) (w : World) {v : ResearchWorkflow}
    {d : ApprovalDecision}
    → find_workflow v.workflow_id w.store.workflows ≡ some v
    → IsConsistent v
    → v.status ≡ WorkflowStatus.awaiting_approval
    → v.approval_status ≡ ApprovalStatus.pending
    → (svc.clock 0).tz_aware ≡ true
    → check_decision (record {
      status = ApprovalStatus.approved;
      decided_at = svc.clock 0;
      note = remark;
      decision_source = source;
    })
      ≡ ok d
    → approve svc v.workflow_id ApprovalStatus.approved remark source w ≡ (
      ok (
          about WorkflowOperationStatus.ok
            (text "workflow approved")
            (approved v d (svc.clock 0))
            (svc.clock 0)),
      record w { store = saved (approved v d (svc.clock 0)) w.store },
    )
unfolding approve approve_found decide get_workflow ◌>>=◌ case_option
approve_accepted svc remark source w {v} {d} found c waiting pending aware checked =
    let awaits : is_awaiting v.status ≡ true = rw waiting refl in
    let chosen : is_approved d.status ≡ true = ap is_approved (
      check_decision-status
        (record {
          status = ApprovalStatus.approved;
          decided_at = svc.clock 0;
          note = remark;
          decision_source = source;
        })
        checked) in
    rw
      (
        found,
        awaits,
        checked,
        chosen,
        with_approval_ok v d (svc.clock 0) c waiting pending aware,
        commit_saved svc v.workflow_id (approved v d (svc.clock 0)) (svc.clock 0) w
            (save_approved v d (svc.clock 0) w.store found waiting),
      )
      (answer-about WorkflowOperationStatus.ok (text "workflow approved")
        (approved v d (svc.clock 0)) (svc.clock 0)
        (record w { store = saved (approved v d (svc.clock 0)) w.store }) aware)
