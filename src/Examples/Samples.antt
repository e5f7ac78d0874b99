-- ===== src/Examples/Samples.antt =====
-- The inputs of the examples.
use agentic_equity_research.Prelude.{
  ℕ, ◌≡◌, refl, Bool, true, false, Option, none, some, List, [], ◌∷◌, ◌==◌, if◌then◌else◌, ok, All,
  arith,
}
use agentic_equity_research.Text.{Text, strip, lstrip, rstrip, normalize, split_from, is_space}
use agentic_equity_research.Task.{contains, Datetime, TaskType, TaskStatus, ResearchTask}
use agentic_equity_research.Task.Checks.{IsWellFormed}
use agentic_equity_research.Outcome.{TaskResultStatus, TaskEvidenceRef, TaskExecutionResult}
use agentic_equity_research.Retry.{new_control}
use agentic_equity_research.Plan.{ResearchObjective, PlanStatus, ResearchPlan}
use agentic_equity_research.Execution.{CompanyIdentity, Environment}

abbrev pub noon : Datetime
noon = record { tz_aware = true; instant = 12 }

abbrev pub word : Text
word = 97 ∷ []

abbrev pub task : ℕ → List ℕ → TaskStatus → Bool → ResearchTask
task key dependencies status required = record {
  task_id = key;
  task_type = TaskType.market_intelligence;
  capability_id = word;
  description = word;
  dependencies = dependencies;
  status = status;
  priority = 100;
  required = required;
  attempt_count = 0;
  max_attempts = 3;
  created_at = none;
  started_at = none;
  completed_at = none;
}

-- Task 1 has failed; 2 needs it, and the optional 3 needs 2; 4 stands alone.
abbrev pub broken : List ResearchTask
broken =
    task 1 [] TaskStatus.failed true
    ∷ task 2 (1 ∷ []) TaskStatus.pending true
    ∷ task 3 (2 ∷ []) TaskStatus.ready false
    ∷ task 4 [] TaskStatus.pending true
    ∷ []

program : Unit {0}
unfolding strip lstrip rstrip normalize split_from is_space
program = tt

pub task-IsWellFormed :
    (key : ℕ) (dependencies : List ℕ) (status : TaskStatus) (required : Bool)
    → contains key dependencies ≡ false
    → IsWellFormed (task key dependencies status required)
unfolding program
task-IsWellFormed key dependencies status required h = record {
  capability_stripped = refl;
  capability_given = refl;
  description_normal = refl;
  description_given = refl;
  description_short = refl;
  description_printable = refl;
  priority_positive = omega arith;
  priority_capped = omega arith;
  max_attempts_positive = omega arith;
  max_attempts_capped = omega arith;
  attempts_capped = omega arith;
  not_own_dependency = h;
  created_aware = refl;
  started_aware = refl;
  completed_aware = refl;
}

pub broken-IsWellFormed : All IsWellFormed broken
broken-IsWellFormed = (
  task-IsWellFormed 1 [] TaskStatus.failed true refl,
  (
    task-IsWellFormed 2 (1 ∷ []) TaskStatus.pending true refl,
    (
      task-IsWellFormed 3 (2 ∷ []) TaskStatus.ready false refl,
      (task-IsWellFormed 4 [] TaskStatus.pending true refl, tt),
    ),
  ),
)

abbrev pub company : CompanyIdentity
company = record {
  company_id = 7;
  securities = record { security_id = 70; listings = 700 ∷ [] } ∷ [];
}

abbrev pub plan_of : List ResearchTask → ResearchPlan
plan_of tasks = record {
  plan_id = 20;
  research_run_id = 30;
  objective = ResearchObjective.company_overview;
  company_id = 7;
  tasks = tasks;
  created_at = noon;
  planner_version = word;
  status = PlanStatus.ready;
}

abbrev pub evidence : ℕ → Option ℕ → TaskEvidenceRef
evidence company_id security_id = record {
  company_id = company_id;
  source_id = some word;
  authority_tier = none;
  data_origin = none;
  security_id = security_id;
  listing_id = none;
  as_of = none;
  retrieved_at = none;
  locator = none;
}

abbrev pub found_by : ResearchTask → List TaskEvidenceRef → TaskExecutionResult
found_by t refs = record {
  task_id = t.task_id;
  status = TaskResultStatus.success;
  message = word;
  evidence_refs = refs;
  output_summary = none;
  retryable = false;
  error_code = none;
}

abbrev flaky : ResearchTask → TaskExecutionResult
flaky t = record {
  task_id = t.task_id;
  status = TaskResultStatus.failed;
  message = word;
  evidence_refs = [];
  output_summary = none;
  retryable = true;
  error_code = none;
}

-- The executor fails in the first round, and finds evidence in every later one.
abbrev outcome : ℕ → ResearchTask → TaskExecutionResult
outcome k t = if k == 1 then flaky t else found_by t (evidence 7 none ∷ [])

abbrev pub env : Environment
env = record {
  clock = λ k. noon;
  end_clock = noon;
  guard_clock = noon;
  control = λ k. new_control;
  execute_task = λ k t. ok (outcome k t);
  error_text = λ e. word;
  isoformat = λ d. word;
}
