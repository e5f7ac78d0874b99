-- ===== src/Examples/Executions.antt =====
-- The execution of a plan.
use agentic_equity_research.Prelude.{
  ◌+◌, ◌≤◌, ◌≡◌, refl, true, none, some, List, [], ◌∷◌, Result, ok, err, arith, All, sort_by,
}
use agentic_equity_research.Task.{TaskStatus, ResearchTask, check_task, with_status}
use agentic_equity_research.Text.{text, normalize, split_from, is_space, lstrip, rstrip, strip}
use agentic_equity_research.Graph.{
  validate_task_graph, apply_failure_propagation, select_next_ready_task,
}
use agentic_equity_research.Graph.Topological.{
  topological_order, emit, release, children, lower_child,
}
use agentic_equity_research.Budget.{default_budget}
use agentic_equity_research.Plan.{OrchestrationStatus, OrchestrationState}
use agentic_equity_research.Outcome.{TaskExecutionResult}
use agentic_equity_research.Retry.{should_retry, is_non_retryable}
use agentic_equity_research.Execution.{enforce_identity}
use agentic_equity_research.Execution.Identity.{IsOwned, IsMismatch, enforce_identity_exact}
use agentic_equity_research.Execution.Round.{Loop}
use agentic_equity_research.Examples.Samples.{word}
use agentic_equity_research.Retry.{ExecutionControl, new_control}
use agentic_equity_research.Prelude.{Option, map, if◌then◌else◌, ◌==◌}
use agentic_equity_research.Plan.{ResearchPlan}
use agentic_equity_research.Execution.Status.{ResearchExecutionResult}
use agentic_equity_research.Execution.Run.{execute_prepared, Seed, execute_loop}
use agentic_equity_research.Execution.Limit.{execute_loop_within}
use agentic_equity_research.Execution.Status.{ResearchExecutionStatus, verdict}
use agentic_equity_research.Execution.Verdict.{IsComplete, ran_out, verdict_completed}
use agentic_equity_research.Examples.Samples.{noon, task, plan_of, company, evidence, found_by, env}

abbrev no_seed : Seed
no_seed = record { total_attempts = 0; external_calls = 0; results = []; warnings = [] }

abbrev single : List ResearchTask
single = task 4 [] TaskStatus.pending true ∷ []

abbrev loop_or : Loop → Result Loop → Loop
loop_or d (ok l) = l
loop_or d (err e) = d

abbrev idle : OrchestrationState
idle = record {
  research_run_id = 30;
  plan = plan_of single;
  started_at = noon;
  updated_at = noon;
  results = [];
  status = OrchestrationStatus.running;
  total_attempts = 0;
  external_calls = 0;
  warnings = [];
  terminal_reason = none;
}

program : Unit {0}
unfolding execute_loop verdict validate_task_graph sort_by topological_order
    apply_failure_propagation select_next_ready_task with_status check_task should_retry text
    is_non_retryable emit release children lower_child strip lstrip rstrip normalize split_from
    is_space
program = tt

final : Loop
unfolding program
final =
    loop_or (record { state = idle; executed = []; warnings = [] })
      (execute_loop env default_budget company (plan_of single) noon no_seed)

single_runs : execute_loop env default_budget company (plan_of single) noon no_seed ≡ ok final
unfolding program final
single_runs = refl

-- The first call fails, and the retry succeeds.
single_counts : (final.state.total_attempts ≡ 2) × (final.state.external_calls ≡ 2)
unfolding program final
single_counts = (refl, refl)

execute_loop_within_example :
    (final.state.total_attempts ≤ default_budget.max_total_attempts)
    × (final.state.external_calls ≤ default_budget.max_external_calls)
    × (final.state.total_attempts + 0 ≡ final.state.external_calls + 0)
    × (0 ≤ final.state.total_attempts)
execute_loop_within_example =
    execute_loop_within env default_budget company (plan_of single) noon no_seed (omega arith)
      (omega arith) single_runs

single_completed : (verdict final.state).run_status ≡ ResearchExecutionStatus.completed
unfolding program final
single_completed = refl

verdict_completed_example :
    ((verdict final.state).run_status ≡ ResearchExecutionStatus.completed
      → (ran_out final.state.status ≡ true) × IsComplete final.state.plan.tasks final.state.results)
    × (ran_out final.state.status ≡ true
        → IsComplete final.state.plan.tasks final.state.results
        → (verdict final.state).run_status ≡ ResearchExecutionStatus.completed)
verdict_completed_example = verdict_completed final.state

abbrev running : ResearchTask
running = task 4 [] TaskStatus.running true

-- The second reference names a security that the company does not have.
abbrev mixed : TaskExecutionResult
mixed = found_by running (evidence 7 none ∷ evidence 7 (some 71) ∷ [])

mixed_replaced : (enforce_identity company running mixed).evidence_refs ≡ []
unfolding enforce_identity
mixed_replaced = refl

enforce_identity_exact_example :
    (All (IsOwned company) mixed.evidence_refs → enforce_identity company running mixed ≡ mixed)
    × ((All (IsOwned company) mixed.evidence_refs → ⊥)
        → IsMismatch running (enforce_identity company running mixed))
    × All (IsOwned company) (enforce_identity company running mixed).evidence_refs
enforce_identity_exact_example = enforce_identity_exact company running mixed

abbrev statuses_of : Option ResearchPlan → List TaskStatus
statuses_of none = []
statuses_of (some plan) = map (λ t. t.status) plan.tasks

abbrev planned : Result ResearchExecutionResult → List TaskStatus
planned (ok r) = statuses_of r.plan
planned (err e) = []

abbrev paused : ExecutionControl
paused = record { is_cancelled = true; is_pause = true; reason = some word }

-- A pause that is asked for before the first round skips the pending task.
early_pause :
    planned (
      execute_prepared
        (record env { control = λ k. paused })
        default_budget
        company
        (plan_of single)
        noon
        no_seed)
    ≡ TaskStatus.skipped ∷ []
unfolding program execute_prepared
early_pause = refl

-- Asked for later, it leaves the task pending.
late_pause :
    planned (
      execute_prepared
        (record env { control = λ k. if k == 0 then new_control else paused })
        default_budget
        company
        (plan_of single)
        noon
        no_seed)
    ≡ TaskStatus.pending ∷ []
unfolding program execute_prepared
late_pause = refl
