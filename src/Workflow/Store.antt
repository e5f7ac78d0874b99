-- ===== src/Workflow/Store.antt =====
-- src/financial_intelligence/infrastructure/workflow/in_memory_store.py: each method runs under the
-- lock, so it is one step on the two dicts.
pub mod Guard
pub mod History
use agentic_equity_research.Prelude.{
  ℕ, ◌+◌, Bool, true, false, not, ◌&&◌, ◌||◌, Option, none, some, List, [], ◌∷◌, ltb, leb, ◌==◌,
  keep, take, drop, sort_by, Result, ok, err, raise_if, ◌>>=◌, ◌>>◌, if◌then◌else◌,
  store_run_mismatch, store_request_mismatch, store_company_mismatch, store_plan_mismatch,
  checkpoint_version_regression, checkpoint_version_not_newer, list_limit_out_of_bounds,
}
use agentic_equity_research.Workflow.{
  WorkflowStatus, WorkflowCheckpoint, ResearchWorkflow, assert_transition,
}

pub record Store : Type 0 where
  pub workflows : List ResearchWorkflow
  pub checkpoints : List WorkflowCheckpoint

-- self._workflows.get(key)
unfoldable pub find_workflow : ℕ → List ResearchWorkflow → Option ResearchWorkflow
find_workflow key [] = none
find_workflow key (w ∷ ws) = if w.workflow_id == key then some w else find_workflow key ws

-- self._workflows[key] = workflow
unfoldable pub put_workflow : ResearchWorkflow → List ResearchWorkflow → List ResearchWorkflow
put_workflow w [] = w ∷ []
put_workflow w (v ∷ vs) = elim (v.workflow_id == w.workflow_id) [
  | true ↦ w ∷ vs
  | false ↦ v ∷ put_workflow w vs
]

unfoldable pub find_checkpoint : ℕ → List WorkflowCheckpoint → Option WorkflowCheckpoint
find_checkpoint key [] = none
find_checkpoint key (c ∷ cs) = if c.workflow_id == key then some c else find_checkpoint key cs

unfoldable pub put_checkpoint :
    WorkflowCheckpoint → List WorkflowCheckpoint → List WorkflowCheckpoint
put_checkpoint c [] = c ∷ []
put_checkpoint c (d ∷ ds) = elim (d.workflow_id == c.workflow_id) [
  | true ↦ c ∷ ds
  | false ↦ d ∷ put_checkpoint c ds
]

-- status is status
unfoldable pub same_status : WorkflowStatus → WorkflowStatus → Bool
same_status WorkflowStatus.created WorkflowStatus.created = true
same_status WorkflowStatus.ready WorkflowStatus.ready = true
same_status WorkflowStatus.running WorkflowStatus.running = true
same_status WorkflowStatus.paused WorkflowStatus.paused = true
same_status WorkflowStatus.awaiting_approval WorkflowStatus.awaiting_approval = true
same_status WorkflowStatus.completed WorkflowStatus.completed = true
same_status WorkflowStatus.partial WorkflowStatus.partial = true
same_status WorkflowStatus.failed WorkflowStatus.failed = true
same_status WorkflowStatus.cancelled WorkflowStatus.cancelled = true
same_status _ _ = false

-- The checks of `save_workflow` against the record that the store holds.
unfoldable pub check_save : Option ResearchWorkflow → ResearchWorkflow → Result (Unit {0})
unfolding assert_transition
check_save none w = ok tt
check_save (some existing) w = do
  raise_if (not (existing.research_run_id == w.research_run_id)) store_run_mismatch
  raise_if (not (existing.request_id == w.request_id)) store_request_mismatch
  raise_if (not (existing.company_id == w.company_id)) store_company_mismatch
  raise_if (not (existing.plan.plan_id == w.plan.plan_id)) store_plan_mismatch
  (if same_status w.status existing.status
      then ok tt
      else assert_transition existing.status w.status)
  raise_if (ltb w.checkpoint_version existing.checkpoint_version) checkpoint_version_regression

unfoldable pub save_workflow : ResearchWorkflow → Store → Result Store
unfolding check_save find_workflow put_workflow
save_workflow w s = do
  check_save (find_workflow w.workflow_id s.workflows) w
  ok (record s { workflows = put_workflow w s.workflows })

-- The checks of `save_checkpoint` against the workflow.
unfoldable pub check_owner : Option ResearchWorkflow → WorkflowCheckpoint → Result (Unit {0})
check_owner none c = ok tt
check_owner (some w) c = do
  raise_if (not (w.research_run_id == c.research_run_id)) store_run_mismatch
  raise_if (not (w.plan.plan_id == c.plan.plan_id)) store_plan_mismatch
  raise_if (not (c.plan.company_id == w.company_id)) store_company_mismatch

unfoldable pub check_newer : Option WorkflowCheckpoint → WorkflowCheckpoint → Result (Unit {0})
check_newer none c = ok tt
check_newer (some current) c = raise_if (leb c.version current.version) checkpoint_version_not_newer

unfoldable pub save_checkpoint : WorkflowCheckpoint → Store → Result Store
unfolding check_owner check_newer find_workflow find_checkpoint put_checkpoint
save_checkpoint c s = do
  check_owner (find_workflow c.workflow_id s.workflows) c
  check_newer (find_checkpoint c.workflow_id s.checkpoints) c
  ok (record s { checkpoints = put_checkpoint c s.checkpoints })

abbrev wanted : {A : Type 0} → (A → ResearchWorkflow → Bool) → Option A → ResearchWorkflow → Bool
wanted test none w = true
wanted test (some a) w = test a w

-- key=lambda w: (w.created_at.isoformat(), w.workflow_id.as_text()), for times in UTC: their texts
-- are in the order of the instants
abbrev created_before : ResearchWorkflow → ResearchWorkflow → Bool
created_before v w =
    ltb v.created_at.instant w.created_at.instant
    || (v.created_at.instant == w.created_at.instant && leb v.workflow_id w.workflow_id)

unfoldable pub list_workflows :
    Option WorkflowStatus → Option ℕ → ℕ → ℕ → Store → Result (List ResearchWorkflow)
list_workflows status company_id limit offset s = do
  raise_if (ltb limit 1 || ltb 200 limit) list_limit_out_of_bounds
  let items = keep (wanted (λ st w. same_status w.status st) status) s.workflows
  let owned = keep (wanted (λ c w. w.company_id == c) company_id) items
  ok (take limit (drop offset (sort_by created_before owned)))
