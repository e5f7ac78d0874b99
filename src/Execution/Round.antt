-- ===== src/Execution/Round.antt =====
-- One round of the `while` loop of `ExecuteResearchPlan.execute_prepared`.
use agentic_equity_research.Prelude.{
  ℕ, zero, suc, ◌+◌, Bool, true, false, ◌&&◌, Option, none, some, List, [], ◌∷◌, ◌++◌, ltb, leb,
  Error, Result, ok, err, ◌>>=◌, if◌then◌else◌,
}
use agentic_equity_research.Text.{Text, text}
use agentic_equity_research.Task.{
  TaskStatus, ResearchTask, Datetime, is_pending, is_ready, is_failed, is_succeeded, contains,
  with_status,
}
use agentic_equity_research.Graph.{apply_failure_propagation, select_next_ready_task, is_open}
use agentic_equity_research.Outcome.{TaskResultStatus, TaskExecutionResult}
use agentic_equity_research.Budget.{ResearchExecutionBudget}
use agentic_equity_research.Retry.{should_retry}
use agentic_equity_research.Plan.{
  PlanStatus, OrchestrationStatus, OrchestrationState, with_tasks, with_plan_status,
  with_updated_plan, check_state,
}
use agentic_equity_research.Execution.{
  CompanyIdentity, Environment, result_to_task_status, failure, enforce_identity, replace_task,
  apply_cancellation, finalize_no_ready,
}

-- The local variables of the loop: `state`, `executed_success_ids` and `warnings`.
pub record Loop : Type 0 where
  pub state : OrchestrationState
  pub executed : List ℕ
  pub warnings : List Text

-- `continue`, or the end of the body; `break`.
pub data Step : Type 0 where
  again stop : Loop → Step

-- control.reason or "cancelled"
abbrev pub reason_or_cancelled : Option Text → Text
reason_or_cancelled none = text "cancelled"
reason_or_cancelled (some []) = text "cancelled"
reason_or_cancelled (some (c ∷ cs)) = c ∷ cs

-- str(TaskId) in a warning: the number of the UUID stands for its text.
abbrev warning_about : Text → ℕ → Text → Text
warning_about before key after = before ++ (key ∷ after)

-- The `break` with `OrchestrationStatus.BUDGET_EXCEEDED` and its reason.
unfoldable pub over_budget : Loop → Datetime → Text → Result Step
unfolding with_plan_status check_state
over_budget run now reason = do
  plan ← with_plan_status run.state.plan PlanStatus.failed
  state ← check_state (record (run.state) {
    status = OrchestrationStatus.budget_exceeded;
    terminal_reason = some reason;
    updated_at = now;
    plan = plan;
  })
  ok (stop (record run { state = state }))

abbrev open_to_skipped : ResearchTask → Datetime → Result ResearchTask
open_to_skipped t now =
    if is_open t.status then with_status t TaskStatus.skipped (some now) false else ok t

-- A ready task that has succeeded before is not executed again.
unfoldable pub skip_duplicate : Loop → ResearchTask → Datetime → Result Step
unfolding replace_task
skip_duplicate run t now = do
  skipped ← open_to_skipped t now
  state ← replace_task run.state skipped now
  ok (
      again (record run {
        state = state;
        warnings =
            run.warnings
            ++ (warning_about (text "duplicate execution prevented for task ") t.task_id [] ∷ []);
      }))

abbrev pending_to_ready : ResearchTask → Result ResearchTask
pending_to_ready t = if is_pending t.status then with_status t TaskStatus.ready none false else ok t

abbrev pub spend_last_attempt : ResearchTask → Datetime → Result ResearchTask
spend_last_attempt t now =
    if is_ready t.status
    then (if ltb t.attempt_count t.max_attempts
        then (do
          running ← with_status t TaskStatus.running (some now) false
          with_status running TaskStatus.failed (some now) false)
        else with_status t TaskStatus.skipped (some now) false)
    else ok t

-- A task whose attempts are used up is closed without a call of the executor.
unfoldable pub exhaust : Loop → ResearchTask → Datetime → Result Step
unfolding replace_task check_state
exhaust run t now = do
  ready ← pending_to_ready t
  exhausted ← spend_last_attempt ready now
  let result =
      failure t.task_id (text "max_attempts_per_task budget exhausted before execution")
        (text "budget_violation")
  replaced ← replace_task run.state exhausted now
  state ←
      check_state (record replaced { results = replaced.results ++ result ∷ []; updated_at = now })
  ok (again (record run { state = state }))

-- The state after a task has finished: `_replace_task`, and the result at the end of `results`.
unfoldable pub record_result :
    OrchestrationState → ResearchTask → TaskExecutionResult → Datetime → Result OrchestrationState
unfolding replace_task check_state
record_result state finished result now = do
  replaced ← replace_task state finished now
  check_state (record replaced { results = replaced.results ++ result ∷ []; updated_at = now })

abbrev is_partial : TaskResultStatus → Bool
is_partial TaskResultStatus.partial = true
is_partial _ = false

abbrev partial_warning : ℕ → Text
partial_warning key =
    warning_about (text "task ") key (
      text " completed with PARTIAL result (downstream deps may proceed; completeness not claimed)")

module _ (env : Environment) (budget : ResearchExecutionBudget) (company : CompanyIdentity) where
  -- From the result of the executor to the end of the body.
  unfoldable pub conclude :
      Loop → OrchestrationState → ResearchTask → TaskExecutionResult → Datetime → Result Step
  unfolding record_result
  conclude run state running result now = do
    let terminal = result_to_task_status result.status
    finished ← with_status running terminal (some now) false
    if is_failed terminal && should_retry finished result budget state.total_attempts
        then (do
          retried ← with_status finished TaskStatus.ready none true
          state' ← record_result state retried result now
          ok (again (record run { state = state' })))
        else (do
          state' ← record_result state finished result now
          ok (
              again (record {
                state = state';
                executed =
                    if is_succeeded terminal then running.task_id ∷ run.executed else run.executed;
                warnings =
                    if is_succeeded terminal && is_partial result.status
                    then run.warnings ++ partial_warning running.task_id ∷ []
                    else run.warnings;
              })))

  -- `break` with `max_total_attempts would be exceeded`.
  unfoldable pub refuse_attempt : Loop → OrchestrationState → ResearchTask → Datetime → Result Step
  unfolding replace_task with_plan_status check_state
  refuse_attempt run state running now = do
    failed ← with_status running TaskStatus.failed (some now) false
    let result =
        failure running.task_id (text "max_total_attempts would be exceeded")
          (text "budget_violation")
    replaced ← replace_task state failed now
    plan ← with_plan_status replaced.plan PlanStatus.failed
    final ← check_state (record replaced {
      results = replaced.results ++ result ∷ [];
      status = OrchestrationStatus.budget_exceeded;
      terminal_reason = some (text "max_total_attempts would be exceeded");
      updated_at = now;
      plan = plan;
    })
    ok (stop (record run { state = final }))

  -- The call of the executor: it counts as an attempt and as an external call.
  unfoldable pub invoke : ℕ → Loop → OrchestrationState → ResearchTask → Datetime → Result Step
  unfolding conclude check_state enforce_identity
  invoke k run state running now = do
    result ← env.execute_task k running
    counted ← check_state (record state {
      total_attempts = state.total_attempts + 1;
      external_calls = state.external_calls + 1;
      updated_at = now;
    })
    conclude run counted running (enforce_identity company running result) now

  unfoldable pub start_running : ℕ → Loop → ResearchTask → Datetime → Result Step
  unfolding invoke refuse_attempt
  start_running k run running now = do
    state ← replace_task run.state running now
    if ltb budget.max_total_attempts (state.total_attempts + 1)
        then refuse_attempt run state running now
        else invoke k run state running now

  -- The `except ValueError` of the move to RUNNING.
  unfoldable pub fail_transition : Loop → Error → Datetime → Result Step
  unfolding with_plan_status check_state
  fail_transition run e now = do
    plan ← with_plan_status run.state.plan PlanStatus.failed
    state ← check_state (record (run.state) {
      status = OrchestrationStatus.failed;
      terminal_reason = some (env.error_text e);
      updated_at = now;
      plan = plan;
    })
    ok (stop (record run { state = state; warnings = run.warnings ++ env.error_text e ∷ [] }))

  unfoldable pub attempt : ℕ → Loop → ResearchTask → Datetime → Result Step
  unfolding start_running fail_transition
  attempt k run t now = do
    ready ← pending_to_ready t
    elim (with_status ready TaskStatus.running (some now) false) [
      | ok running ↦ start_running k run running now
      | err e ↦ fail_transition run e now
    ]

  -- What is done with the selected task.
  unfoldable pub dispatch : ℕ → Loop → ResearchTask → Datetime → Result Step
  unfolding skip_duplicate over_budget exhaust attempt
  dispatch k run t now =
      if contains t.task_id run.executed
      then skip_duplicate run t now
      else if ltb budget.max_external_calls (run.state.external_calls + 1)
      then over_budget run now (text "max_external_calls would be exceeded")
      else if leb budget.max_attempts_per_task t.attempt_count
      then exhaust run t now
      else attempt k run t now

  -- `none` is the `break` after `_finalize_no_ready`.
  unfoldable pub select : ℕ → Loop → Option ResearchTask → Datetime → Result Step
  unfolding dispatch finalize_no_ready
  select k run none now = do
    state ← finalize_no_ready run.state now run.warnings
    ok (stop (record run { state = state }))
  select k run (some t) now = dispatch k run t now

  unfoldable pub advance : ℕ → Loop → Datetime → Result Step
  unfolding select
  advance k run now = do
    propagated ← apply_failure_propagation run.state.plan.tasks
    plan ← with_tasks run.state.plan propagated (some PlanStatus.executing)
    state ← with_updated_plan run.state plan now
    next ← select_next_ready_task state.plan.tasks
    select k (record run { state = state }) next now

  unfoldable pub stop_cancelled : Loop → Bool → Option Text → Datetime → Result Step
  unfolding apply_cancellation
  stop_cancelled run pause reason now = do
    state ← apply_cancellation run.state now (reason_or_cancelled reason) pause
    ok (stop (record run { state = state }))

  -- The body of the loop in round k.
  unfoldable pub round : ℕ → Loop → Result Step
  unfolding advance stop_cancelled over_budget
  round k run =
      let control = env.control k in
      let now = env.clock k in
      if control.is_cancelled
      then stop_cancelled run control.is_pause control.reason now
      else if leb budget.max_total_attempts run.state.total_attempts
      then over_budget run now (text "max_total_attempts exhausted")
      else if leb budget.max_external_calls run.state.external_calls
      then over_budget run now (text "max_external_calls exhausted")
      else advance k run now

  -- The `else` of the loop: `max_rounds` is used up.
  unfoldable pub no_progress : Loop → Result Loop
  unfolding with_plan_status check_state
  no_progress run = do
    let warnings = run.warnings ++ text "no-progress guard terminated execution loop" ∷ []
    plan ← with_plan_status run.state.plan PlanStatus.failed
    state ← check_state (record (run.state) {
      status = OrchestrationStatus.failed;
      terminal_reason = some (text "no-progress guard: max orchestration rounds exceeded");
      updated_at = env.guard_clock;
      warnings = warnings;
      plan = plan;
    })
    ok (record run { state = state; warnings = warnings })

  -- `while rounds < max_rounds`, with the rounds that are left; k is the next round.
  unfoldable pub run_rounds : ℕ → ℕ → Loop → Result Loop
  unfolding round no_progress
  run_rounds zero k run = no_progress run
  run_rounds (suc left) k run = do
    step ← round k run
    elim step [ again next ↦ run_rounds left (k + 1) next | stop last ↦ ok last ]
