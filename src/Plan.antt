-- ===== src/Plan.antt =====
-- src/financial_intelligence/domain/orchestration/plan.py and state.py.
use agentic_equity_research.Prelude.{
  ℕ, Bool, true, false, not, ◌||◌, Option, none, some, List, [], ◌∷◌, ◌==◌, Result, ok, raise_if,
  ◌>>=◌, ◌>>◌, naive_timestamp, planner_version_required, plan_without_tasks, state_run_mismatch,
}
use agentic_equity_research.Text.{Text, strip, is_empty}
use agentic_equity_research.Task.{ResearchTask, Datetime}
use agentic_equity_research.Graph.{validate_task_graph}
use agentic_equity_research.Graph.Topological.{topological_order}
use agentic_equity_research.Outcome.{TaskExecutionResult}

pub data ResearchObjective : Type 0 where
  company_overview market_analysis financial_analysis news_and_events : ResearchObjective
  industry_analysis regulatory_analysis comprehensive_equity_research : ResearchObjective

pub data PlanStatus : Type 0 where
  draft ready executing completed failed cancelled : PlanStatus

pub record ResearchPlan : Type 0 where
  pub plan_id : ℕ
  pub research_run_id : ℕ
  pub objective : ResearchObjective
  pub company_id : ℕ
  pub tasks : List ResearchTask
  pub created_at : Datetime
  pub planner_version : Text
  pub status : PlanStatus

abbrev is_nil : List ResearchTask → Bool
is_nil [] = true
is_nil (t ∷ ts) = false

-- ResearchPlan.__post_init__: it runs on construction and on every `replace`.
unfoldable pub check_plan : ResearchPlan → Result ResearchPlan
check_plan plan = do
  raise_if (not plan.created_at.tz_aware) naive_timestamp
  raise_if (is_empty (strip plan.planner_version)) planner_version_required
  raise_if (is_nil plan.tasks) plan_without_tasks
  validate_task_graph plan.tasks
  ordered ← topological_order plan.tasks
  ok (record plan { tasks = ordered })

-- ResearchPlan.with_tasks(tasks, status=…): the status stays where none is given
unfoldable pub with_tasks :
    ResearchPlan → List ResearchTask → Option PlanStatus → Result ResearchPlan
unfolding check_plan
with_tasks plan tasks none = check_plan (record plan { tasks = tasks })
with_tasks plan tasks (some status) = check_plan (record plan { tasks = tasks; status = status })

-- ResearchPlan.with_status
unfoldable pub with_plan_status : ResearchPlan → PlanStatus → Result ResearchPlan
unfolding check_plan
with_plan_status plan status = check_plan (record plan { status = status })

pub data OrchestrationStatus : Type 0 where
  pending running completed partial failed blocked cancelled budget_exceeded : OrchestrationStatus

pub record OrchestrationState : Type 0 where
  pub research_run_id : ℕ
  pub plan : ResearchPlan
  pub started_at : Datetime
  pub updated_at : Datetime
  pub results : List TaskExecutionResult
  pub status : OrchestrationStatus
  pub total_attempts : ℕ
  pub external_calls : ℕ
  pub warnings : List Text
  pub terminal_reason : Option Text

-- OrchestrationState.__post_init__: it runs on construction and on every `replace`.
unfoldable pub check_state : OrchestrationState → Result OrchestrationState
check_state s = do
  raise_if (not s.started_at.tz_aware || not s.updated_at.tz_aware) naive_timestamp
  raise_if (not (s.plan.research_run_id == s.research_run_id)) state_run_mismatch
  ok s

-- OrchestrationState.with_updated_plan
unfoldable pub with_updated_plan :
    OrchestrationState → ResearchPlan → Datetime → Result OrchestrationState
unfolding check_state
with_updated_plan s plan updated_at =
    check_state (record s { plan = plan; updated_at = updated_at })
