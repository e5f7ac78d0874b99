-- ===== src/Execution/Run.antt =====
-- `ExecuteResearchPlan.execute_prepared`: the guards before the loop, the loop, and the result.
use agentic_equity_research.Prelude.{
  ℕ, ◌+◌, ◌*◌, not, Option, none, some, List, [], ◌∷◌, ◌++◌, keep, length, ◌==◌, Result, ok, err,
  raise_if, ◌>>=◌, ◌>>◌, if◌then◌else◌, naive_timestamp, map,
}
use agentic_equity_research.Text.{Text, text}
use agentic_equity_research.Task.{ResearchTask, Datetime, is_succeeded}
use agentic_equity_research.Outcome.{TaskExecutionResult}
use agentic_equity_research.Budget.{ResearchExecutionBudget, validate_tasks}
use agentic_equity_research.Plan.{
  PlanStatus, ResearchPlan, OrchestrationStatus, OrchestrationState, with_tasks, with_plan_status,
  check_state,
}
use agentic_equity_research.Execution.{CompanyIdentity, Environment, skip_open_tasks}
use agentic_equity_research.Execution.Round.{Loop, run_rounds, reason_or_cancelled}
use agentic_equity_research.Execution.Status.{
  ResearchExecutionStatus, ResearchExecutionResult, check_execution_result, reason_or, to_result,
}

-- The counters and results that a checkpoint hands to a resumed execution.
pub record Seed : Type 0 where
  pub total_attempts : ℕ
  pub external_calls : ℕ
  pub results : List TaskExecutionResult
  pub warnings : List Text

-- A result that carries no plan: the execution was refused before its first round.
abbrev refusal :
    ResearchExecutionStatus → Text → ResearchPlan → Datetime → Datetime → ResearchExecutionResult
refusal status message plan started_at completed_at = record {
  status = status;
  message = message;
  research_run_id = some plan.research_run_id;
  plan_id = some plan.plan_id;
  plan = none;
  orchestration = none;
  task_results = [];
  evidence_refs = [];
  warnings = [];
  completed_count = 0;
  failed_count = 0;
  blocked_count = 0;
  partial_count = 0;
  skipped_count = 0;
  started_at = started_at;
  completed_at = completed_at;
}

-- `_cancelled_before_start`
unfoldable pub cancelled_before_start :
    Environment → ResearchPlan → Datetime → Option Text → Result ResearchExecutionResult
unfolding skip_open_tasks with_tasks check_state check_execution_result
cancelled_before_start env plan started_at reason = do
  let now = env.end_clock
  tasks ← skip_open_tasks plan.tasks now
  cancelled_plan ← with_tasks plan tasks (some PlanStatus.cancelled)
  state ← check_state (record {
    research_run_id = plan.research_run_id;
    plan = cancelled_plan;
    started_at = started_at;
    updated_at = now;
    results = [];
    status = OrchestrationStatus.cancelled;
    total_attempts = 0;
    external_calls = 0;
    warnings = [];
    terminal_reason = some (reason_or_cancelled reason);
  })
  let base =
      refusal ResearchExecutionStatus.cancelled
        (reason_or reason (text "cancelled before first task")) plan started_at now
  check_execution_result (record base {
    plan = some cancelled_plan;
    orchestration = some state;
    skipped_count = length tasks;
  })

abbrev pub succeeded_ids : List ResearchTask → List ℕ
succeeded_ids tasks = map (λ t. t.task_id) (keep (λ t. is_succeeded t.status) tasks)

abbrev pub max_rounds : ResearchPlan → ResearchExecutionBudget → ℕ
max_rounds plan budget = length plan.tasks * budget.max_attempts_per_task + length plan.tasks + 2

-- The `OrchestrationState(…)` that the loop starts from.
abbrev pub start_state : ResearchPlan → ResearchPlan → Datetime → Seed → OrchestrationState
start_state plan executing started_at seed = record {
  research_run_id = plan.research_run_id;
  plan = executing;
  started_at = started_at;
  updated_at = started_at;
  results = seed.results;
  status = OrchestrationStatus.running;
  total_attempts = seed.total_attempts;
  external_calls = seed.external_calls;
  warnings = seed.warnings;
  terminal_reason = none;
}

unfoldable pub execute_loop :
    Environment
    → ResearchExecutionBudget
    → CompanyIdentity
    → ResearchPlan
    → Datetime
    → Seed
    → Result Loop
unfolding with_plan_status check_state run_rounds
execute_loop env budget company plan started_at seed = do
  executing ← with_plan_status plan PlanStatus.executing
  state ← check_state (start_state plan executing started_at seed)
  run_rounds env budget company (max_rounds plan budget) 1
      (record { state = state; executed = succeeded_ids plan.tasks; warnings = seed.warnings })

abbrev run_validated :
    Environment
    → ResearchExecutionBudget
    → CompanyIdentity
    → ResearchPlan
    → Datetime
    → Seed
    → Result (Unit {0})
    → Result ResearchExecutionResult
run_validated env budget company plan started_at seed (err e) = check_execution_result (
    refusal ResearchExecutionStatus.budget_exceeded (env.error_text e) plan started_at
      env.end_clock)
run_validated env budget company plan started_at seed (ok _) =
    if (env.control 0).is_cancelled
    then cancelled_before_start env plan started_at (env.control 0).reason
    else do
      final ← execute_loop env budget company plan started_at seed
      to_result env final.state started_at final.warnings

unfoldable pub execute_prepared :
    Environment
    → ResearchExecutionBudget
    → CompanyIdentity
    → ResearchPlan
    → Datetime
    → Seed
    → Result ResearchExecutionResult
unfolding validate_tasks cancelled_before_start execute_loop to_result check_execution_result
execute_prepared env budget company plan started_at seed = do
  raise_if (not started_at.tz_aware) naive_timestamp
  if not (company.company_id == plan.company_id)
      then check_execution_result (
          refusal ResearchExecutionStatus.failed
            (text "execution company identity contradicts plan CompanyId: plan="
              ++ (plan.company_id ∷ (text " company=" ++ company.company_id ∷ [])))
            plan started_at env.end_clock)
      else run_validated env budget company plan started_at seed (validate_tasks budget plan.tasks)
