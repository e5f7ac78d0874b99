-- ===== src/Workflow/Manage/Refusals.antt =====
-- When `execute` of ManageResearchWorkflow refuses to run a plan
-- (src/financial_intelligence/application/manage_research_workflow.py).
use agentic_equity_research.Prelude.{
  ℕ, ◌≡◌, inl, inr, true, false, Option, none, some, ◌++◌, Bool-cases, workflow_transition, ok, err,
  arith,
}
use agentic_equity_research.Text.{Text, text}
use agentic_equity_research.Task.{Datetime}
use agentic_equity_research.Workflow.{
  WorkflowStatus, ApprovalStatus, ResearchWorkflow, is_terminal, awaits_decision,
  with_workflow_status, assert_transition, allowed_change,
}
use agentic_equity_research.Workflow.Store.{find_workflow}
use agentic_equity_research.Workflow.World.{World, ◌>>=◌, case_option, case_result}
use agentic_equity_research.Workflow.Manage.{
  Services, ControlTrace, WorkflowOperationStatus, status_value, get_workflow,
}
use agentic_equity_research.Workflow.Manage.Operations.{
  execute, execute_found, start_execution, is_rejected, may_execute,
}
use agentic_equity_research.Workflow.Manage.Answers.{about, answer-about}

-- How `execute` answers for a workflow without running its plan: by the status, and by the decision.
abbrev pub refusal : WorkflowStatus → ApprovalStatus → Option WorkflowOperationStatus
refusal WorkflowStatus.completed _ = some WorkflowOperationStatus.conflict
refusal WorkflowStatus.partial _ = some WorkflowOperationStatus.conflict
refusal WorkflowStatus.failed _ = some WorkflowOperationStatus.conflict
refusal WorkflowStatus.cancelled _ = some WorkflowOperationStatus.conflict
refusal _ ApprovalStatus.pending = some WorkflowOperationStatus.approval_required
refusal _ ApprovalStatus.rejected = some WorkflowOperationStatus.rejected
refusal WorkflowStatus.ready _ = none
refusal WorkflowStatus.paused _ = none
refusal _ _ = some WorkflowOperationStatus.conflict

rerun_refused :
    (v : ResearchWorkflow) (now : Datetime)
    → v.status ≡ WorkflowStatus.running
    → now.tz_aware ≡ true
    → with_workflow_status v WorkflowStatus.running now ≡ err workflow_transition
unfolding with_workflow_status assert_transition allowed_change
rerun_refused v now h aware = ground arith

terminal_refused :
    (s : WorkflowStatus) (a : ApprovalStatus)
    → is_terminal s ≡ true
    → refusal s a ≡ some WorkflowOperationStatus.conflict
terminal_refused s a h = ground arith

pending_refused :
    (s : WorkflowStatus) (a : ApprovalStatus)
    → is_terminal s ≡ false
    → awaits_decision a ≡ true
    → refusal s a ≡ some WorkflowOperationStatus.approval_required
pending_refused s a h k = ground arith

rejected_refused :
    (s : WorkflowStatus) (a : ApprovalStatus)
    → is_terminal s ≡ false
    → is_rejected a ≡ true
    → refusal s a ≡ some WorkflowOperationStatus.rejected
rejected_refused s a h k = ground arith

early_refused :
    (s : WorkflowStatus) (a : ApprovalStatus)
    → is_terminal s ≡ false
    → awaits_decision a ≡ false
    → is_rejected a ≡ false
    → may_execute s ≡ false
    → refusal s a ≡ some WorkflowOperationStatus.conflict
early_refused s a h k l m = ground arith

running_refused :
    (s : WorkflowStatus) (a : ApprovalStatus) {r : WorkflowOperationStatus}
    → awaits_decision a ≡ false
    → is_rejected a ≡ false
    → may_execute s ≡ true
    → refusal s a ≡ some r
    → (s ≡ WorkflowStatus.running) × (r ≡ WorkflowOperationStatus.conflict)
running_refused s a {r} k l m h = ground arith

module _ (svc : Services) (v : ResearchWorkflow) (trace : ControlTrace) (now : Datetime) (w : World)
    (aware : now.tz_aware ≡ true) where
  -- The answer, without a write.
  abbrev Refuses : WorkflowOperationStatus → Type 0
  Refuses s = (message : Text) × (execute_found svc v trace now w ≡ (ok (about s message v now), w))

  execute_found-Refuses :
      {s : WorkflowOperationStatus} → refusal v.status v.approval_status ≡ some s → Refuses s
  unfolding execute_found start_execution case_result
  execute_found-Refuses {s} h = elim (Bool-cases (is_terminal v.status)) [
    | inl done ↦
        let same : s ≡ WorkflowOperationStatus.conflict =
          cc (h, terminal_refused v.status v.approval_status done) in
        (
          (text "cannot execute terminal workflow status=" ++ status_value v.status),
          rw (done, same)
              (answer-about WorkflowOperationStatus.conflict
                (text "cannot execute terminal workflow status=" ++ status_value v.status) v now w
                aware),
        )
    | inr live ↦ elim (Bool-cases (awaits_decision v.approval_status)) [
      | inl waits ↦
          let same : s ≡ WorkflowOperationStatus.approval_required =
            cc (h, pending_refused v.status v.approval_status live waits) in
          (
            (text "human approval required before execution"),
            rw (live, waits, same)
                (answer-about WorkflowOperationStatus.approval_required
                  (text "human approval required before execution") v now w aware),
          )
      | inr decided ↦ elim (Bool-cases (is_rejected v.approval_status)) [
        | inl refused ↦
            let same : s ≡ WorkflowOperationStatus.rejected =
              cc (h, rejected_refused v.status v.approval_status live refused) in
            (
              (text "workflow approval was rejected"),
              rw (live, decided, refused, same)
                  (answer-about WorkflowOperationStatus.rejected
                    (text "workflow approval was rejected") v now w aware),
            )
        | inr kept ↦ elim (Bool-cases (may_execute v.status)) [
          | inl may ↦
              let (running, same) = running_refused v.status v.approval_status decided kept may h in
              (
                svc.env.error_text workflow_transition,
                rw (live, decided, kept, may, rerun_refused v now running aware, same)
                    (answer-about WorkflowOperationStatus.conflict
                      (svc.env.error_text workflow_transition) v now w aware),
              )
          | inr early ↦
              let same : s ≡ WorkflowOperationStatus.conflict =
                cc (h, early_refused v.status v.approval_status live decided kept early) in
              (
                (text "invalid status for execution: " ++ status_value v.status),
                rw (live, decided, kept, early, same)
                    (answer-about WorkflowOperationStatus.conflict
                      (text "invalid status for execution: " ++ status_value v.status) v now w
                      aware),
              )
        ]
      ]
    ]
  ]

-- `execute` writes nothing and answers with the stored workflow: CONFLICT if the workflow has ended,
-- else APPROVAL_REQUIRED while a decision is pending, else REJECTED after a rejection, else CONFLICT
-- unless it is READY or PAUSED, so also if it is RUNNING. The clock gives an aware time.
pub execute_refuses :
    (svc : Services) (key : ℕ) (trace : ControlTrace) (w : World) {v : ResearchWorkflow}
    {s : WorkflowOperationStatus}
    → find_workflow key w.store.workflows ≡ some v
    → (svc.clock 0).tz_aware ≡ true
    → refusal v.status v.approval_status ≡ some s
    → (message : Text) × (execute svc key trace w ≡ (ok (about s message v (svc.clock 0)), w))
unfolding execute get_workflow ◌>>=◌ case_option
execute_refuses svc key trace w {v} found aware h =
    let (message, e) = execute_found-Refuses svc v trace (svc.clock 0) w aware h in
    (message, rw found e)
