-- ===== src/Budget.antt =====
-- src/financial_intelligence/domain/orchestration/budget.py: the bounds of an execution.
pub mod Limits
pub mod Ancestors
pub mod Depth
use agentic_equity_research.Prelude.{
  ℕ, zero, suc, ◌+◌, Bool, true, false, not, ◌&&◌, ◌||◌, Option, none, some, List, [], ◌∷◌, ◌++◌,
  ltb, leb, length, any, Result, ok, err, raise_if, ◌>>=◌, ◌>>◌, if◌then◌else◌, out_of_fuel,
  budget_out_of_bounds, too_many_tasks, task_attempts_over_budget, plan_too_deep,
  total_attempts_over_budget, external_calls_over_budget,
}
use mathlib.Core.List.{reverse}
use agentic_equity_research.Task.{ResearchTask, contains}
use agentic_equity_research.Graph.{by_id, find_task}

pub record ResearchExecutionBudget : Type 0 where
  pub max_tasks : ℕ
  pub max_attempts_per_task : ℕ
  pub max_total_attempts : ℕ
  pub max_plan_depth : ℕ
  pub max_external_calls : ℕ

-- ResearchExecutionBudget()
abbrev pub default_budget : ResearchExecutionBudget
default_budget = record {
  max_tasks = 20;
  max_attempts_per_task = 3;
  max_total_attempts = 40;
  max_plan_depth = 10;
  max_external_calls = 40;
}

abbrev outside : ℕ → ℕ → ℕ → Bool
outside value lo hi = ltb value lo || ltb hi value

-- ResearchExecutionBudget.__post_init__
unfoldable pub check_budget : ResearchExecutionBudget → Result ResearchExecutionBudget
check_budget b = do
  raise_if (outside b.max_tasks 1 100) budget_out_of_bounds
  raise_if (outside b.max_attempts_per_task 1 10) budget_out_of_bounds
  raise_if (outside b.max_total_attempts 1 500) budget_out_of_bounds
  raise_if (outside b.max_plan_depth 1 50) budget_out_of_bounds
  raise_if (outside b.max_external_calls 1 500) budget_out_of_bounds
  ok b

-- `stack.extend(parent.dependencies)`: the top of the stack, which `pop` takes, comes first.
abbrev pub push_parents : Option ResearchTask → List ℕ → List ℕ
push_parents none stack = stack
push_parents (some parent) stack = reverse parent.dependencies ++ stack

-- `while stack`: `depth` counts the identifiers that are met. `none` says that the fuel ran out.
unfoldable pub depth_loop : ℕ → List ResearchTask → List ℕ → List ℕ → ℕ → Option ℕ
depth_loop fuel m [] seen depth = some depth
depth_loop zero m (dep ∷ stack) seen depth = none
depth_loop (suc fuel) m (dep ∷ stack) seen depth = elim (contains dep seen) [
  | true ↦ depth_loop fuel m stack seen depth
  | false ↦ depth_loop fuel m (push_parents (find_task dep m) stack) (dep ∷ seen) (depth + 1)
]

abbrev pub total_dependencies : List ResearchTask → ℕ
total_dependencies [] = 0
total_dependencies (t ∷ ts) = length t.dependencies + total_dependencies ts

-- A task is pushed for once only, so the pushes are at most the dependencies of all tasks.
unfoldable pub depth_of : List ResearchTask → ResearchTask → Option ℕ
unfolding depth_loop
depth_of m t =
    depth_loop (length t.dependencies + total_dependencies m) m (reverse t.dependencies) [] 1

abbrev check_depth : Option ℕ → ℕ → Result (Unit {0})
check_depth none limit = err out_of_fuel
check_depth (some depth) limit = raise_if (ltb limit depth) plan_too_deep

-- The `for` loop of `validate_tasks`: the sum of the attempts.
unfoldable pub check_tasks :
    ResearchExecutionBudget → List ResearchTask → List ResearchTask → ℕ → Result ℕ
unfolding depth_of
check_tasks b m [] total_attempts = ok total_attempts
check_tasks b m (t ∷ ts) total_attempts = do
  raise_if (ltb b.max_attempts_per_task t.max_attempts) task_attempts_over_budget
  check_depth (depth_of m t) b.max_plan_depth
  check_tasks b m ts (total_attempts + t.max_attempts)

unfoldable pub validate_tasks : ResearchExecutionBudget → List ResearchTask → Result (Unit {0})
unfolding check_tasks by_id
validate_tasks b tasks = do
  raise_if (ltb b.max_tasks (length tasks)) too_many_tasks
  total_attempts ← check_tasks b (by_id tasks) tasks 0
  raise_if (ltb b.max_total_attempts total_attempts) total_attempts_over_budget
  raise_if (ltb b.max_external_calls (length tasks)) external_calls_over_budget
