-- ===== src/Execution/Limit.antt =====
-- The budgets of a whole execution, from the counters that a checkpoint hands over to the result.
use agentic_equity_research.Prelude.{◌+◌, ◌≤◌, ◌≡◌, >>=-eq-ok, ok, arith}
use mathlib.Core.Path.{subst}
use agentic_equity_research.Task.{Datetime}
use agentic_equity_research.Budget.{ResearchExecutionBudget}
use agentic_equity_research.Plan.{
  PlanStatus, with_plan_status, ResearchPlan, OrchestrationState, check_state,
}
use agentic_equity_research.Execution.{CompanyIdentity, Environment}
use agentic_equity_research.Execution.Round.{Loop}
use agentic_equity_research.Execution.Bounds.{IsWithin, run_rounds-IsWithin}
use agentic_equity_research.Execution.Run.{
  Seed, start_state, execute_loop, max_rounds, succeeded_ids,
}

check_state_same : (s : OrchestrationState) {t : OrchestrationState} → check_state s ≡ ok t → t ≡ s
unfolding check_state
check_state_same s h = ground arith

-- An execution that starts with counters within the budget and returns has used at most
-- `max_total_attempts` attempts and `max_external_calls` calls, those of the seed included; each
-- attempt since the start was one external call; and no counter has gone back.
pub execute_loop_within :
    (env : Environment) (budget : ResearchExecutionBudget) (company : CompanyIdentity)
    (plan : ResearchPlan) (started_at : Datetime) (seed : Seed) {last : Loop}
    → seed.total_attempts ≤ budget.max_total_attempts
    → seed.external_calls ≤ budget.max_external_calls
    → execute_loop env budget company plan started_at seed ≡ ok last
    → (last.state.total_attempts ≤ budget.max_total_attempts)
      × (last.state.external_calls ≤ budget.max_external_calls)
      × (last.state.total_attempts + seed.external_calls
          ≡ last.state.external_calls + seed.total_attempts)
      × (seed.total_attempts ≤ last.state.total_attempts)
unfolding execute_loop
execute_loop_within env budget company plan started_at seed {last} h k e =
    let (executing, _, e) = >>=-eq-ok (with_plan_status plan PlanStatus.executing) _ e in
    let (start, f, e) = >>=-eq-ok (check_state (start_state plan executing started_at seed)) _ e in
    let same = check_state_same (start_state plan executing started_at seed) f in
    let begun : IsWithin env budget company start start = record {
      attempts = rw same h;
      calls = rw same k;
      together = omega arith;
      growing = omega arith;
    } in
    let w =
      run_rounds-IsWithin env budget company (max_rounds plan budget) 1 start
        (record { state = start; executed = succeeded_ids plan.tasks; warnings = seed.warnings })
        begun e in
    (
      w.attempts,
      w.calls,
      subst
          (λ s.
            last.state.total_attempts + s.external_calls
            ≡ last.state.external_calls + s.total_attempts)
          same w.together,
      subst (λ s. s.total_attempts ≤ last.state.total_attempts) same w.growing,
    )
