-- ===== src/Execution/Bounds.antt =====
-- The counters of attempts and of external calls, through the loop of `execute_prepared`.
use agentic_equity_research.Prelude.{
  ℕ, zero, suc, ◌+◌, ◌≤◌, ◌≡◌, Bool, inl, ◌⊎◌, Option, none, some, List, Error, ok, >>=-eq-ok,
  arith,
}
use agentic_equity_research.Text.{Text}
use agentic_equity_research.Task.{ResearchTask, Datetime}
use agentic_equity_research.Graph.{apply_failure_propagation, select_next_ready_task}
use mathlib.Core.Path.{subst}
use agentic_equity_research.Outcome.{TaskExecutionResult}
use agentic_equity_research.Budget.{ResearchExecutionBudget}
use agentic_equity_research.Plan.{
  PlanStatus, ResearchPlan, OrchestrationState, check_state, with_tasks, with_updated_plan,
}
use agentic_equity_research.Execution.{
  CompanyIdentity, Environment, replace_task, apply_cancellation, finalize_no_ready,
}
use agentic_equity_research.Execution.Round.{
  Loop, Step, over_budget, skip_duplicate, exhaust, record_result, conclude, refuse_attempt, invoke,
  start_running, fail_transition, attempt, dispatch, select, advance, stop_cancelled, round,
  no_progress, run_rounds,
}

-- The counters are the same.
abbrev pub SameCounts : OrchestrationState → OrchestrationState → Type 0
SameCounts s t = (t.total_attempts ≡ s.total_attempts) × (t.external_calls ≡ s.external_calls)

-- One more attempt, and one more external call.
abbrev pub OneMore : OrchestrationState → OrchestrationState → Type 0
OneMore s t = (t.total_attempts ≡ s.total_attempts + 1) × (t.external_calls ≡ s.external_calls + 1)

abbrev pub state_of : Step → OrchestrationState
state_of (Step.again l) = l.state
state_of (Step.stop l) = l.state

replace_task_counts :
    (s : OrchestrationState) (t : ResearchTask) (now : Datetime) {u : OrchestrationState}
    → replace_task s t now ≡ ok u
    → SameCounts s u
unfolding replace_task with_updated_plan check_state
replace_task_counts s t now h = ground arith

apply_cancellation_counts :
    (s : OrchestrationState) (now : Datetime) (reason : Text) (b : Bool) {u : OrchestrationState}
    → apply_cancellation s now reason b ≡ ok u
    → SameCounts s u
unfolding apply_cancellation check_state
apply_cancellation_counts s now reason b h = ground arith

finalize_no_ready_counts :
    (s : OrchestrationState) (now : Datetime) (warnings : List Text) {u : OrchestrationState}
    → finalize_no_ready s now warnings ≡ ok u
    → SameCounts s u
unfolding finalize_no_ready check_state
finalize_no_ready_counts s now warnings h = ground arith

over_budget_counts :
    (run : Loop) (now : Datetime) (reason : Text) {step : Step}
    → over_budget run now reason ≡ ok step
    → SameCounts run.state (state_of step)
unfolding over_budget check_state
over_budget_counts run now reason h = ground arith

skip_duplicate_counts :
    (run : Loop) (t : ResearchTask) (now : Datetime) {step : Step}
    → skip_duplicate run t now ≡ ok step
    → SameCounts run.state (state_of step)
unfolding skip_duplicate
skip_duplicate_counts run t now h =
    ground (arith, λ (x u : _). replace_task_counts run.state x now {u = u})

exhaust_counts :
    (run : Loop) (t : ResearchTask) (now : Datetime) {step : Step}
    → exhaust run t now ≡ ok step
    → SameCounts run.state (state_of step)
unfolding exhaust check_state
exhaust_counts run t now h =
    ground (arith, λ (x u : _). replace_task_counts run.state x now {u = u})

record_result_counts :
    (s : OrchestrationState) (t : ResearchTask) (r : TaskExecutionResult) (now : Datetime)
    {u : OrchestrationState}
    → record_result s t r now ≡ ok u
    → SameCounts s u
unfolding record_result check_state
record_result_counts s t r now h = ground (arith, λ (x u : _). replace_task_counts s x now {u = u})

module _ (env : Environment) (budget : ResearchExecutionBudget) (company : CompanyIdentity) where
  conclude_counts :
      (run : Loop) (s : OrchestrationState) (t : ResearchTask) (r : TaskExecutionResult)
      (now : Datetime) {step : Step}
      → conclude env budget company run s t r now ≡ ok step
      → SameCounts s (state_of step)
  unfolding conclude
  conclude_counts run s t r now h =
      ground (arith, λ (x u : _). record_result_counts s x r now {u = u})

  refuse_attempt_counts :
      (run : Loop) (s : OrchestrationState) (t : ResearchTask) (now : Datetime) {step : Step}
      → refuse_attempt env budget company run s t now ≡ ok step
      → SameCounts s (state_of step)
  unfolding refuse_attempt check_state
  refuse_attempt_counts run s t now h =
      ground (arith, λ (x u : _). replace_task_counts s x now {u = u})

  invoke_counts :
      (k : ℕ) (run : Loop) (s : OrchestrationState) (t : ResearchTask) (now : Datetime)
      {step : Step}
      → invoke env budget company k run s t now ≡ ok step
      → OneMore s (state_of step)
  unfolding invoke check_state
  invoke_counts k run s t now {step} h =
      ground (arith, λ (s' r : _). conclude_counts run s' t r now {step = step})

  fail_transition_counts :
      (run : Loop) (e : Error) (now : Datetime) {step : Step}
      → fail_transition env budget company run e now ≡ ok step
      → SameCounts run.state (state_of step)
  unfolding fail_transition check_state
  fail_transition_counts run e now h = ground arith

  -- A step keeps the counters, or adds one to both where both budgets have room.
  abbrev Moves : OrchestrationState → OrchestrationState → Type 0
  Moves s t =
      SameCounts s t
      ⊎ (OneMore s t
          × (s.total_attempts + 1 ≤ budget.max_total_attempts)
          × (s.external_calls + 1 ≤ budget.max_external_calls))

  start_running_counts :
      (k : ℕ) (run : Loop) (t : ResearchTask) (now : Datetime) {step : Step}
      → start_running env budget company k run t now ≡ ok step
      → SameCounts run.state (state_of step)
        ⊎ (OneMore run.state (state_of step)
            × (run.state.total_attempts + 1 ≤ budget.max_total_attempts))
  unfolding start_running
  start_running_counts k run t now {step} h = ground (
    arith,
    λ (u : _). replace_task_counts run.state t now {u = u},
    λ (u : _). refuse_attempt_counts run u t now {step = step},
    λ (u : _). invoke_counts k run u t now {step = step},
  )

  attempt_counts :
      (k : ℕ) (run : Loop) (t : ResearchTask) (now : Datetime) {step : Step}
      → attempt env budget company k run t now ≡ ok step
      → SameCounts run.state (state_of step)
        ⊎ (OneMore run.state (state_of step)
            × (run.state.total_attempts + 1 ≤ budget.max_total_attempts))
  unfolding attempt
  attempt_counts k run t now {step} h = ground (
    arith,
    λ (x : _). start_running_counts k run x now {step = step},
    λ (e : _). fail_transition_counts run e now {step = step},
  )

  dispatch_counts :
      (k : ℕ) (run : Loop) (t : ResearchTask) (now : Datetime) {step : Step}
      → dispatch env budget company k run t now ≡ ok step
      → Moves run.state (state_of step)
  unfolding dispatch
  dispatch_counts k run t now {step} h = ground (
    arith,
    skip_duplicate_counts run t now {step = step},
    λ (reason : _). over_budget_counts run now reason {step = step},
    exhaust_counts run t now {step = step},
    attempt_counts k run t now {step = step},
  )

  select_counts :
      (k : ℕ) (run : Loop) (o : Option ResearchTask) (now : Datetime) {step : Step}
      → select env budget company k run o now ≡ ok step
      → Moves run.state (state_of step)
  unfolding select
  select_counts k run none now h =
      ground (arith, λ (u : _). finalize_no_ready_counts run.state now run.warnings {u = u})
  select_counts k run (some t) now h = dispatch_counts k run t now h

  with_updated_plan_counts :
      (s : OrchestrationState) (plan : ResearchPlan) (now : Datetime) {u : OrchestrationState}
      → with_updated_plan s plan now ≡ ok u
      → SameCounts s u
  unfolding with_updated_plan check_state
  with_updated_plan_counts s plan now h = ground arith

  after_same : (s t u : OrchestrationState) → SameCounts s t → Moves t u → Moves s u
  after_same s t u same m = ground arith

  advance_counts :
      (k : ℕ) (run : Loop) (now : Datetime) {step : Step}
      → advance env budget company k run now ≡ ok step
      → Moves run.state (state_of step)
  unfolding advance
  advance_counts k run now {step} h =
      let (propagated, _, h) = >>=-eq-ok (apply_failure_propagation run.state.plan.tasks) _ h in
      let (plan, _, h) =
        >>=-eq-ok (with_tasks run.state.plan propagated (some PlanStatus.executing)) _ h in
      let (state, e, h) = >>=-eq-ok (with_updated_plan run.state plan now) _ h in
      let (next, _, h) = >>=-eq-ok (select_next_ready_task state.plan.tasks) _ h in
      after_same run.state state (state_of step) (with_updated_plan_counts run.state plan now e)
        (select_counts k (record run { state = state }) next now h)

  round_counts :
      (k : ℕ) (run : Loop) {step : Step}
      → round env budget company k run ≡ ok step
      → Moves run.state (state_of step)
  unfolding round stop_cancelled
  round_counts k run {step} h = ground (
    arith,
    advance_counts k run (env.clock k) {step = step},
    λ (reason : _). over_budget_counts run (env.clock k) reason {step = step},
    λ (reason b u : _). apply_cancellation_counts run.state (env.clock k) reason b {u = u},
  )

  no_progress_counts :
      (run : Loop) {last : Loop}
      → no_progress env budget company run ≡ ok last
      → SameCounts run.state last.state
  unfolding no_progress check_state
  no_progress_counts run h = ground arith

  -- Both counters are within the budget, and they differ by what they differed by at the start.
  pub record IsWithin (start s : OrchestrationState) : Type 0 where
    pub attempts : s.total_attempts ≤ budget.max_total_attempts
    pub calls : s.external_calls ≤ budget.max_external_calls
    pub together : s.total_attempts + start.external_calls ≡ s.external_calls + start.total_attempts
    pub growing : start.total_attempts ≤ s.total_attempts

  Moves-IsWithin :
      (start s t : OrchestrationState) → Moves s t → IsWithin start s → IsWithin start t
  Moves-IsWithin start s t m w = record {
    attempts = ground arith;
    calls = ground arith;
    together = ground arith;
    growing = ground arith;
  }

  pub run_rounds-IsWithin :
      (left k : ℕ) (start : OrchestrationState) (run : Loop) {last : Loop}
      → IsWithin start run.state
      → run_rounds env budget company left k run ≡ ok last
      → IsWithin start last.state
  unfolding run_rounds
  run_rounds-IsWithin zero k start run {last} w h =
      Moves-IsWithin start run.state last.state (inl (no_progress_counts run h)) w
  run_rounds-IsWithin (suc left) k start run {last} w h =
      let (step, e, h') = >>=-eq-ok (round env budget company k run) _ h in
      after step (Moves-IsWithin start run.state (state_of step) (round_counts k run e) w)
        (λ next w'. run_rounds-IsWithin left (k + 1) start next {last = last} w') h'
    where
      after :
          (step : Step)
          → IsWithin start (state_of step)
          → ((next : Loop)
              → IsWithin start next.state
              → run_rounds env budget company left (k + 1) next ≡ ok last
              → IsWithin start last.state)
          → (elim step [
            | Step.again next ↦ run_rounds env budget company left (k + 1) next
            | Step.stop final ↦ ok final
          ])
            ≡ ok last
          → IsWithin start last.state
      after (Step.again next) w' rest h' = rest next w' h'
      after (Step.stop final) w' rest h' =
          let q : final ≡ last = cc in subst (λ l. IsWithin start l.state) q w'
