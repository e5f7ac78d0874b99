-- ===== src/Workflow/Create.antt =====
-- src/financial_intelligence/application/create_research_workflow.py, with
-- src/financial_intelligence/application/approval_policy.py.
use agentic_equity_research.Prelude.{
  ℕ, Bool, true, false, not, Option, none, some, [], Result, err, raise_if, if◌then◌else◌,
  naive_timestamp, value_error,
}
use agentic_equity_research.Prelude.{◌>>=◌ as then_ok}
use agentic_equity_research.Text.{Text, text}
use agentic_equity_research.Task.{Datetime}
use agentic_equity_research.Plan.{ResearchObjective, ResearchPlan}
use agentic_equity_research.Planning.Create.{
  CompanyQuery, ResearchRequest, CreateResearchPlanQuery, ResearchPlanStatus,
  CreateResearchPlanResult, PlanService, create_plan,
}
use agentic_equity_research.Workflow.{
  WorkflowStatus, ApprovalStatus, ApprovalRequirement, check_requirement, WorkflowCompanyQuery,
  check_company_query, ResearchWorkflow, check_workflow, with_workflow_status,
}
use agentic_equity_research.Workflow.Store.{save_workflow}
use agentic_equity_research.Workflow.World.{
  NotificationType, World, Action, lift, ◌>>=◌, ◌>>◌, store_call,
}
use agentic_equity_research.Workflow.Manage.{
  Services, WorkflowOperationStatus, WorkflowOperationResult, answer, notify,
}

pub record CreateResearchWorkflowQuery : Type 0 where
  pub plan_query : CreateResearchPlanQuery
  pub require_approval : Bool

-- DeterministicApprovalPolicy.evaluate
unfoldable pub evaluate_policy : ResearchObjective → Bool → Result ApprovalRequirement
unfolding check_requirement text
evaluate_policy objective true = check_requirement (record {
  required = true;
  reason = text "caller requested human approval before workflow execution";
})
evaluate_policy ResearchObjective.comprehensive_equity_research false = check_requirement (record {
  required = true;
  reason = text "comprehensive equity research requires human approval before execution";
})
evaluate_policy _ false =
    check_requirement
      (record { required = false; reason = text "approval not required for this objective" })

abbrev pub first_status : ApprovalRequirement → WorkflowStatus
first_status r = if r.required then WorkflowStatus.awaiting_approval else WorkflowStatus.ready

abbrev pub first_approval : ApprovalRequirement → ApprovalStatus
first_approval r = if r.required then ApprovalStatus.pending else ApprovalStatus.not_required

-- The workflow before its first change of status.
unfoldable pub new_workflow :
    ℕ
    → ResearchPlan
    → ℕ
    → ResearchObjective
    → WorkflowCompanyQuery
    → ApprovalRequirement
    → Datetime
    → ResearchWorkflow
new_workflow key plan request_id objective company_query requirement now = record {
  workflow_id = key;
  research_run_id = plan.research_run_id;
  request_id = request_id;
  company_id = plan.company_id;
  objective = objective;
  plan = plan;
  company_query = company_query;
  status = WorkflowStatus.created;
  approval_status = first_approval requirement;
  approval_requirement = requirement;
  created_at = now;
  updated_at = now;
  checkpoint_version = 0;
  latest_checkpoint = none;
  approval_decision = none;
  execution_message = none;
  completed_count = 0;
  failed_count = 0;
  blocked_count = 0;
  partial_count = 0;
  evidence_count = 0;
  warnings = [];
}

abbrev query_of : CompanyQuery → WorkflowCompanyQuery
query_of q = record {
  raw_query = q.raw_query;
  country = q.country;
  exchange = q.exchange;
  ticker = q.ticker;
}

-- The lines that build the workflow: the values that are checked on the way, and the first status.
unfoldable pub build_workflow :
    CreateResearchWorkflowQuery → ResearchPlan → ℕ → ℕ → Datetime → Result ResearchWorkflow
unfolding evaluate_policy check_company_query check_workflow with_workflow_status new_workflow
build_workflow q plan request_id key now =
    then_ok (evaluate_policy q.plan_query.objective q.require_approval) λ requirement.
      then_ok (check_company_query (query_of q.plan_query.company_query)) λ company_query.
        then_ok
          (check_workflow
            (new_workflow key plan request_id q.plan_query.objective company_query requirement now))
          λ workflow. with_workflow_status workflow (first_status requirement) now

abbrev pub is_awaiting : WorkflowStatus → Bool
is_awaiting WorkflowStatus.awaiting_approval = true
is_awaiting _ = false

abbrev pub message_or : Text → Text → Text
message_or [] d = d
message_or s d = s

module _ (svc : Services) (plans : PlanService) where
  abbrev swallowed : Result (Option Text) × World → Result (Unit {0}) × World
  swallowed (r, w) = (Result.ok tt, w)

  -- `with suppress(Exception): self._notifications.publish(…)`
  unfoldable pub announce_approval : ResearchWorkflow → Datetime → Action (Unit {0})
  unfolding notify text
  announce_approval workflow now w =
      if is_awaiting workflow.status
      then swallowed (
          notify svc NotificationType.approval_required workflow
            (text "human approval required before workflow execution") now w)
      else (Result.ok tt, w)

  -- From the plan on.
  unfoldable pub store_plan :
      CreateResearchWorkflowQuery → ResearchPlan → ℕ → Datetime → Action WorkflowOperationResult
  unfolding build_workflow save_workflow announce_approval answer lift ◌>>=◌ store_call text
  store_plan q plan request_id now = do
    workflow ← lift (build_workflow q plan request_id (svc.fresh_id 0) now)
    store_call (save_workflow workflow)
    announce_approval workflow now
    answer WorkflowOperationStatus.ok (text "research workflow created") (some workflow) now

  abbrev pub store_option :
      CreateResearchWorkflowQuery
      → CreateResearchPlanResult
      → Datetime
      → Option ResearchPlan
      → Option ResearchRequest
      → Action WorkflowOperationResult
  store_option q r now none request =
      answer WorkflowOperationStatus.failed (message_or r.message (text "plan unavailable")) none
        now
  store_option q r now (some plan) none = lift (err (value_error (text "AssertionError")))
  store_option q r now (some plan) (some request) = store_plan q plan request.request_id now

  -- The tests on the status of the plan.
  unfoldable pub use_result :
      CreateResearchWorkflowQuery
      → CreateResearchPlanResult
      → Datetime
      → ResearchPlanStatus
      → Action WorkflowOperationResult
  unfolding answer lift store_plan text
  use_result q r now ResearchPlanStatus.invalid =
      answer WorkflowOperationStatus.invalid r.message none now
  use_result q r now ResearchPlanStatus.resolution_blocked =
      answer WorkflowOperationStatus.resolution_blocked r.message none now
  use_result q r now ResearchPlanStatus.ok = store_option q r now r.plan r.request
  use_result q r now _ =
      answer WorkflowOperationStatus.failed (message_or r.message (text "plan unavailable")) none
        now

  -- CreateResearchWorkflow.execute; `prepared` is the plan and the identifier of its request, if given.
  unfoldable pub create_workflow :
      CreateResearchWorkflowQuery → Option (ResearchPlan × ℕ) → Action WorkflowOperationResult
  unfolding lift ◌>>=◌ create_plan use_result store_plan
  create_workflow q (some (plan, request_id)) = do
    lift (raise_if (not (svc.clock 0).tz_aware) naive_timestamp)
    store_plan q plan request_id (svc.clock 0)
  create_workflow q none = do
    lift (raise_if (not (svc.clock 0).tz_aware) naive_timestamp)
    r ← lift (create_plan plans q.plan_query)
    use_result q r (svc.clock 0) r.status
