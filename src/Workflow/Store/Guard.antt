-- ===== src/Workflow/Store/Guard.antt =====
-- What the store guards, whatever its clients write and in whatever order.
use agentic_equity_research.Prelude.{
  ℕ, ◌≤◌, ◌≡◌, refl, true, ◌⊎◌, some, List, [], ◌∷◌, ok, arith, ◌==◌, if◌then◌else◌,
}
use agentic_equity_research.Workflow.{
  WorkflowStatus, WorkflowCheckpoint, ResearchWorkflow, allowed_change, is_terminal,
  assert_transition,
}
use agentic_equity_research.Workflow.Lifecycle.{terminal_iff}
use agentic_equity_research.Workflow.Store.{
  find_workflow, put_workflow, find_checkpoint, put_checkpoint, same_status, check_save,
}

pub find_workflow-put_workflow :
    (k : ℕ) (w : ResearchWorkflow) (ws : List ResearchWorkflow)
    → find_workflow k (put_workflow w ws)
      ≡ (if w.workflow_id == k then some w else find_workflow k ws)
unfolding find_workflow put_workflow
find_workflow-put_workflow k w [] = refl
find_workflow-put_workflow k w (v ∷ vs) = ground (arith, find_workflow-put_workflow k w vs)

pub find_checkpoint-put_checkpoint :
    (k : ℕ) (c : WorkflowCheckpoint) (cs : List WorkflowCheckpoint)
    → find_checkpoint k (put_checkpoint c cs)
      ≡ (if c.workflow_id == k then some c else find_checkpoint k cs)
unfolding find_checkpoint put_checkpoint
find_checkpoint-put_checkpoint k c [] = refl
find_checkpoint-put_checkpoint k c (d ∷ ds) = ground (arith, find_checkpoint-put_checkpoint k c ds)

-- What a later record of a workflow keeps of an earlier one.
pub record Continues (a b : ResearchWorkflow) : Type 0 where
  pub same_id : b.workflow_id ≡ a.workflow_id
  pub same_run : b.research_run_id ≡ a.research_run_id
  pub same_request : b.request_id ≡ a.request_id
  pub same_company : b.company_id ≡ a.company_id
  pub same_plan : b.plan.plan_id ≡ a.plan.plan_id
  pub version_grows : a.checkpoint_version ≤ b.checkpoint_version
  pub terminal_stays : is_terminal a.status ≡ true → b.status ≡ a.status

pub Continues-refl : (a : ResearchWorkflow) → Continues a a
Continues-refl a = ground arith

pub Continues-trans : {a b c : ResearchWorkflow} → Continues a b → Continues b c → Continues a c
Continues-trans {a} {b} {c} p q = record {
  same_id = ground arith;
  same_run = ground arith;
  same_request = ground arith;
  same_company = ground arith;
  same_plan = ground arith;
  version_grows = omega arith;
  terminal_stays = λ t. ground (arith, p.terminal_stays t, q.terminal_stays);
}

same_status-eq : (s t : WorkflowStatus) → same_status s t ≡ true → s ≡ t
unfolding same_status
same_status-eq WorkflowStatus.created t h = ground arith
same_status-eq _ t h = ground arith

pub same_status_refl : (s : WorkflowStatus) → same_status s s ≡ true
unfolding same_status
same_status_refl WorkflowStatus.created = refl
same_status_refl _ = refl

-- A save that passes the checks continues the record that the store holds, by a change that the
-- table allows at the status of that record.
pub check_save_sound :
    (a w : ResearchWorkflow)
    → a.workflow_id ≡ w.workflow_id
    → check_save (some a) w ≡ ok tt
    → Continues a w × ((w.status ≡ a.status) ⊎ (allowed_change a.status w.status ≡ true))
unfolding check_save assert_transition
check_save_sound a w k h = ground (
  arith,
  same_status-eq w.status a.status,
  (terminal_iff a.status).0,
  λ (t : is_terminal a.status ≡ true). (terminal_iff a.status).0 t w.status,
)
