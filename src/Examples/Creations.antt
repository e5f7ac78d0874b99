-- ===== src/Examples/Creations.antt =====
-- The creation of a plan, and of the workflow around it.
use agentic_equity_research.Prelude.{
  ◌≡◌, refl, true, false, ◌⊎◌, some, none, [], ◌∷◌, Result, ok, err,
}
use agentic_equity_research.Text.{text, is_space, lstrip, rstrip, strip, split_from, normalize}
use agentic_equity_research.Task.{TaskStatus}
use agentic_equity_research.Budget.{default_budget}
use agentic_equity_research.Plan.{ResearchObjective, ResearchPlan}
use agentic_equity_research.Planning.Create.{
  CreateResearchPlanQuery, CreateResearchPlanResult, PlannerOutcomeStatus, ResearchPlanStatus,
  ResolutionStatus, PlanService, create_plan,
}
use agentic_equity_research.Planning.Matching.{Matches, create_plan-Matches}
use agentic_equity_research.Workflow.{allowed_change}
use agentic_equity_research.Workflow.Store.{save_workflow}
use agentic_equity_research.Workflow.World.{World}
use agentic_equity_research.Workflow.Manage.{WorkflowOperationStatus, WorkflowOperationResult}
use agentic_equity_research.Workflow.Create.{CreateResearchWorkflowQuery, create_workflow}
use agentic_equity_research.Workflow.Creation.{Created, create_workflow-Created}
use agentic_equity_research.Examples.Samples.{noon, word, task, plan_of, company}
use agentic_equity_research.Examples.Workflows.{services}

abbrev made : ResearchPlan
made = plan_of (task 4 [] TaskStatus.pending true ∷ [])

abbrev pub plans : PlanService
plans = record {
  clock = noon;
  run_id = 30;
  request_id = 40;
  resolve =
      λ q. record { status = ResolutionStatus.resolved; company = some company; message = [] };
  create_plan = λ r. record { status = PlannerOutcomeStatus.ok; message = word; plan = some made };
  budget = default_budget;
  upper = λ s. s;
  error_text = λ e. word;
}

abbrev query : ResearchObjective → CreateResearchPlanQuery
query objective = record {
  company_query = record { raw_query = word; country = none; exchange = none; ticker = none };
  objective = objective;
  objective_text = none;
  jurisdiction = none;
  time_horizon_days = none;
}

abbrev no_result : CreateResearchPlanResult
no_result = record {
  status = ResearchPlanStatus.unavailable;
  message = [];
  request = none;
  plan = none;
  resolution = none;
  budget = none;
  evaluated_at = noon;
}

abbrev result_or :
    CreateResearchPlanResult → Result CreateResearchPlanResult → CreateResearchPlanResult
result_or d (ok r) = r
result_or d (err e) = d

abbrev planned : CreateResearchPlanResult
planned = result_or no_result (create_plan plans (query ResearchObjective.company_overview))

program : Unit {0}
unfolding create_plan create_workflow save_workflow allowed_change text is_space strip lstrip rstrip
    split_from normalize
program = tt

create_plan-Matches_example :
    Matches plans (query ResearchObjective.company_overview).company_query planned
unfolding program
create_plan-Matches_example =
    create_plan-Matches plans (query ResearchObjective.company_overview) refl refl

abbrev comprehensive : CreateResearchWorkflowQuery
comprehensive = record {
  plan_query = query ResearchObjective.comprehensive_equity_research;
  require_approval = false;
}

abbrev pub empty : World
empty = record { store = record { workflows = []; checkpoints = [] }; memory = []; events = [] }

abbrev no_answer : WorkflowOperationResult
no_answer = record {
  status = WorkflowOperationStatus.failed;
  message = [];
  workflow = none;
  evaluated_at = noon;
}

abbrev answer_or :
    WorkflowOperationResult → Result WorkflowOperationResult → WorkflowOperationResult
answer_or d (ok r) = r
answer_or d (err e) = d

abbrev answered : WorkflowOperationResult
answered = answer_or no_answer (create_workflow services plans comprehensive none empty).0

create_workflow-Created_example :
    ((answered.workflow ≡ none)
      × ((create_workflow services plans comprehensive none empty).1 ≡ empty))
    ⊎ ((answered.status ≡ WorkflowOperationStatus.ok)
        × Created comprehensive 0 empty
            (create_workflow services plans comprehensive none empty).1
            answered)
unfolding program
create_workflow-Created_example =
    create_workflow-Created services plans comprehensive none empty refl
