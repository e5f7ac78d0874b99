-- ===== src/Workflow/Lifecycle.antt =====
-- The lifecycle of a workflow: which changes of status are left, and what they keep.
use agentic_equity_research.Prelude.{◌≡◌, true, false, ok, arith}
use agentic_equity_research.Task.{Datetime}
use agentic_equity_research.Workflow.{
  WorkflowStatus, allowed_change, is_terminal, assert_transition, ResearchWorkflow, check_workflow,
  with_workflow_status, is_foreign_checkpoint,
}

-- The class invariant of a constructed workflow.
pub record IsConsistent (w : ResearchWorkflow) : Type 0 where
  pub created_aware : w.created_at.tz_aware ≡ true
  pub updated_aware : w.updated_at.tz_aware ≡ true
  pub same_run : w.plan.research_run_id ≡ w.research_run_id
  pub same_company : w.plan.company_id ≡ w.company_id
  pub own_checkpoint : is_foreign_checkpoint w.latest_checkpoint w.workflow_id ≡ false

pub check_workflow-IsConsistent : (w : ResearchWorkflow) → IsConsistent w → check_workflow w ≡ ok w
unfolding check_workflow
check_workflow-IsConsistent w h = ground arith

pub check_workflow_sound :
    (w : ResearchWorkflow) {v : ResearchWorkflow}
    → check_workflow w ≡ ok v
    → IsConsistent w × (v ≡ w)
unfolding check_workflow
check_workflow_sound w h = ground arith

-- A terminal status allows no change, and every other status allows the change to CANCELLED.
pub terminal_iff :
    (s : WorkflowStatus)
    → (is_terminal s ≡ true → (t : WorkflowStatus) → allowed_change s t ≡ false)
      × (is_terminal s ≡ false → allowed_change s WorkflowStatus.cancelled ≡ true)
unfolding allowed_change
terminal_iff WorkflowStatus.completed = (λ h t. ground arith, λ h. cc)
terminal_iff WorkflowStatus.partial = (λ h t. ground arith, λ h. cc)
terminal_iff WorkflowStatus.failed = (λ h t. ground arith, λ h. cc)
terminal_iff WorkflowStatus.cancelled = (λ h t. ground arith, λ h. cc)
terminal_iff _ = (λ h t. cc, λ h. ground arith)

module _ (w : ResearchWorkflow) (status : WorkflowStatus) (at : Datetime) where
  -- The status changes exactly as the table allows, and nothing else of the workflow does but its
  -- time stamp.
  pub with_workflow_status_sound :
      {v : ResearchWorkflow}
      → with_workflow_status w status at ≡ ok v
      → (allowed_change w.status status ≡ true)
        × (at.tz_aware ≡ true)
        × IsConsistent v
        × (v ≡ record w { status = status; updated_at = at })
  unfolding with_workflow_status assert_transition
  with_workflow_status_sound h =
      ground (arith, check_workflow_sound (record w { status = status; updated_at = at }))

  pub with_workflow_status_ok :
      IsConsistent w
      → allowed_change w.status status ≡ true
      → at.tz_aware ≡ true
      → with_workflow_status w status at ≡ ok (record w { status = status; updated_at = at })
  unfolding with_workflow_status assert_transition check_workflow
  with_workflow_status_ok c h a = ground arith
