-- ===== src/Budget/Limits.antt =====
-- What `validate_tasks` of a `ResearchExecutionBudget` accepts.
use agentic_equity_research.Prelude.{
  ℕ, ◌+◌, ◌≤◌, ◌<◌, ◌≡◌, refl, List, [], ◌∷◌, some, Option, length, All, ok, arith, ltb, raise_if,
  >>=-eq-ok, too_many_tasks, total_attempts_over_budget,
}
use agentic_equity_research.Task.{ResearchTask}
use agentic_equity_research.Graph.{by_id}
use agentic_equity_research.Budget.Ancestors.{Ancestor, NoRepeats, depth_of-Ancestor}
use agentic_equity_research.Budget.{
  ResearchExecutionBudget, depth_of, check_depth, check_tasks, validate_tasks,
}

-- sum(t.max_attempts for t in tasks)
abbrev pub total_max_attempts : List ResearchTask → ℕ
total_max_attempts [] = 0
total_max_attempts (t ∷ ts) = t.max_attempts + total_max_attempts ts

-- The task is within the budget for one task, and so are its ancestors, without repeats.
pub record Fits (b : ResearchExecutionBudget) (m : List ResearchTask) (t : ResearchTask)
    : Type 0 where
  pub attempts : t.max_attempts ≤ b.max_attempts_per_task
  pub depth :
      (keys : List ℕ) → NoRepeats keys → All (Ancestor m t) keys → length keys < b.max_plan_depth

check_depth_sound :
    (o : Option ℕ) (limit : ℕ) → check_depth o limit ≡ ok tt → (n : ℕ) × (o ≡ some n) × (n ≤ limit)
check_depth_sound (some n) limit h = (n, refl, ground arith)
check_depth_sound _ limit h = cc

check_tasks_sound :
    (b : ResearchExecutionBudget) (m ts : List ResearchTask) (total : ℕ) {n : ℕ}
    → check_tasks b m ts total ≡ ok n
    → (n ≡ total + total_max_attempts ts) × All (Fits b m) ts
unfolding check_tasks
check_tasks_sound b m [] total h = (ground arith, tt)
check_tasks_sound b m (t ∷ ts) total {n} h =
    let (_, e, h) = >>=-eq-ok (raise_if (ltb b.max_attempts_per_task t.max_attempts) _) _ h in
    let (_, d, h) = >>=-eq-ok (check_depth (depth_of m t) b.max_plan_depth) _ h in
    let (sum, rest) = check_tasks_sound b m ts (total + t.max_attempts) h in
    (
      omega arith,
      (
        record {
          attempts = ground arith;
          depth = λ keys distinct ancestors.
              let (n, e, within) = check_depth_sound (depth_of m t) b.max_plan_depth d in
              let above = depth_of-Ancestor m t {n = n} e keys distinct ancestors in
              omega (arith, above, within);
        },
        rest,
      ),
    )

-- Tasks that are accepted are at most `max_tasks` and `max_external_calls` many; each has at most
-- `max_attempts_per_task` attempts and fewer than `max_plan_depth` different tasks that it depends on,
-- directly or through others; and all attempts together are at most `max_total_attempts`.
pub validate_tasks_sound :
    (b : ResearchExecutionBudget) (tasks : List ResearchTask)
    → validate_tasks b tasks ≡ ok tt
    → (length tasks ≤ b.max_tasks)
      × (length tasks ≤ b.max_external_calls)
      × (total_max_attempts tasks ≤ b.max_total_attempts)
      × All (Fits b (by_id tasks)) tasks
unfolding validate_tasks
validate_tasks_sound b tasks h =
    let (_, few, h) = >>=-eq-ok (raise_if (ltb b.max_tasks (length tasks)) too_many_tasks) _ h in
    let (n, e, h) = >>=-eq-ok (check_tasks b (by_id tasks) tasks 0) _ h in
    let (sum, fits) = check_tasks_sound b (by_id tasks) tasks 0 e in
    let (_, less, h) =
      >>=-eq-ok (raise_if (ltb b.max_total_attempts n) total_attempts_over_budget) _ h in
    (ground arith, ground arith, ground arith, fits)
