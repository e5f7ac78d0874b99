-- ===== src/Execution.antt =====
-- src/financial_intelligence/application/execute_research_plan.py: the bounded execution of a plan.
-- The types, and the steps that `execute_prepared` is made of. The capability executor, the clock,
-- and the control token that other threads may set are read through an `Environment`.
pub mod Round
pub mod Run
pub mod Status
pub mod Bounds
pub mod Limit
pub mod Identity
pub mod Verdict
use agentic_equity_research.Prelude.{
  ℕ, ◌+◌, Bool, true, false, not, ◌&&◌, ◌||◌, Option, none, some, List, [], ◌∷◌, ◌++◌, map, any,
  ◌==◌, Error, Result, ok, err, ◌>>=◌, ◌>>◌, if◌then◌else◌, sort_by,
}
use agentic_equity_research.Text.{Text, text}
use agentic_equity_research.Task.{
  TaskStatus, ResearchTask, Datetime, is_pending, contains, with_status,
}
use agentic_equity_research.Graph.{apply_failure_propagation}
use agentic_equity_research.Outcome.{TaskResultStatus, TaskEvidenceRef, TaskExecutionResult}
use agentic_equity_research.Retry.{ExecutionControl}
use agentic_equity_research.Plan.{
  PlanStatus, ResearchPlan, OrchestrationStatus, OrchestrationState, with_tasks, with_updated_plan,
  check_state,
}

pub record SecurityIdentity : Type 0 where
  pub security_id : ℕ
  pub listings : List ℕ

pub record CompanyIdentity : Type 0 where
  pub company_id : ℕ
  pub securities : List SecurityIdentity

abbrev pub security_ids : List SecurityIdentity → List ℕ
security_ids [] = []
security_ids (s ∷ ss) = s.security_id ∷ security_ids ss

-- company.all_listings()
abbrev pub all_listings : List SecurityIdentity → List ℕ
all_listings [] = []
all_listings (s ∷ ss) = s.listings ++ all_listings ss

-- What the execution reads from outside: `clock k` and `control k` are what round k reads, and
-- round 0 is the start; `guard_clock` is what the guard after the last round reads, and `end_clock`
-- what the result reads. `execute_task k t` is what the executor does with `t` in round k.
pub record Environment : Type 0 where
  pub clock : ℕ → Datetime
  pub end_clock : Datetime
  pub guard_clock : Datetime
  pub control : ℕ → ExecutionControl
  pub execute_task : ℕ → ResearchTask → Result TaskExecutionResult
  pub error_text : Error → Text
  pub isoformat : Datetime → Text

-- `_result_to_task_status`
abbrev pub result_to_task_status : TaskResultStatus → TaskStatus
result_to_task_status TaskResultStatus.success = TaskStatus.succeeded
result_to_task_status TaskResultStatus.partial = TaskStatus.succeeded
result_to_task_status TaskResultStatus.blocked = TaskStatus.blocked
result_to_task_status TaskResultStatus.unavailable = TaskStatus.failed
result_to_task_status TaskResultStatus.failed = TaskStatus.failed

-- A failed `TaskExecutionResult` that cannot be retried.
abbrev pub failure : ℕ → Text → Text → TaskExecutionResult
failure task_id message error_code = record {
  task_id = task_id;
  status = TaskResultStatus.failed;
  message = message;
  evidence_refs = [];
  output_summary = none;
  retryable = false;
  error_code = some error_code;
}

-- x is not None and x not in known
abbrev pub is_foreign : Option ℕ → List ℕ → Bool
is_foreign none known = false
is_foreign (some x) known = not (contains x known)

-- The loop of `_enforce_identity` over `result.evidence_refs`.
unfoldable pub enforce_refs :
    CompanyIdentity
    → ResearchTask
    → TaskExecutionResult
    → List TaskEvidenceRef
    → TaskExecutionResult
enforce_refs company running result [] = result
enforce_refs company running result (ref ∷ refs) =
    let rest = enforce_refs company running result refs in
    if not (ref.company_id == company.company_id)
    then failure running.task_id (text "evidence company_id contradicts plan CompanyId")
        (text "identity_mismatch")
    else if is_foreign ref.security_id (security_ids company.securities)
    then failure running.task_id (text "evidence security_id is not owned by plan CompanyId")
        (text "identity_mismatch")
    else if is_foreign ref.listing_id (all_listings company.securities)
    then failure running.task_id (text "evidence listing_id is not owned by plan CompanyId")
        (text "identity_mismatch")
    else rest

unfoldable pub enforce_identity :
    CompanyIdentity → ResearchTask → TaskExecutionResult → TaskExecutionResult
unfolding enforce_refs
enforce_identity company running result = enforce_refs company running result result.evidence_refs

-- `task if t.task_id == task.task_id else t for t in tasks`
unfoldable pub swap_task : ResearchTask → List ResearchTask → List ResearchTask
swap_task task tasks = map (λ t. if t.task_id == task.task_id then task else t) tasks

unfoldable pub replace_task :
    OrchestrationState → ResearchTask → Datetime → Result OrchestrationState
unfolding swap_task with_tasks with_updated_plan
replace_task state task now = do
  plan ← with_tasks state.plan (swap_task task state.plan.tasks) none
  with_updated_plan state plan now

-- One task of `_apply_cancellation` that is not to be preserved, and of `_cancelled_before_start`.
unfoldable pub skip_open_task : ResearchTask → Datetime → Result ResearchTask
skip_open_task task now = elim task.status [
  | TaskStatus.pending ↦ do
    current ← with_status task TaskStatus.ready none false
    with_status current TaskStatus.skipped (some now) false
  | TaskStatus.ready ↦ with_status task TaskStatus.skipped (some now) false
  | _ ↦ ok task
]

unfoldable pub skip_open_tasks : List ResearchTask → Datetime → Result (List ResearchTask)
unfolding skip_open_task
skip_open_tasks [] now = ok []
skip_open_tasks (t ∷ ts) now = do
  t' ← skip_open_task t now
  rest ← skip_open_tasks ts now
  ok (t' ∷ rest)

-- A pause leaves the unfinished work as it is.
unfoldable pub apply_cancellation :
    OrchestrationState → Datetime → Text → Bool → Result OrchestrationState
unfolding skip_open_tasks with_tasks check_state
apply_cancellation state now reason preserve_pending = do
  updated ← (if preserve_pending then ok state.plan.tasks else skip_open_tasks state.plan.tasks now)
  plan ←
      with_tasks state.plan updated
        (some (if preserve_pending then PlanStatus.ready else PlanStatus.cancelled))
  check_state (record state {
    plan = plan;
    status = OrchestrationStatus.cancelled;
    terminal_reason = some reason;
    updated_at = now;
  })

-- One task of `_finalize_no_ready`.
unfoldable pub finalize_task : ResearchTask → Datetime → Result ResearchTask
finalize_task task now =
    if not (is_pending task.status)
    then ok task
    else if task.required
    then with_status task TaskStatus.blocked none false
    else do
      cur ← with_status task TaskStatus.ready none false
      with_status cur TaskStatus.skipped (some now) false

unfoldable pub finalize_tasks : List ResearchTask → Datetime → Result (List ResearchTask)
unfolding finalize_task
finalize_tasks [] now = ok []
finalize_tasks (t ∷ ts) now = do
  t' ← finalize_task t now
  rest ← finalize_tasks ts now
  ok (t' ∷ rest)

unfoldable pub finalize_no_ready :
    OrchestrationState → Datetime → List Text → Result OrchestrationState
unfolding finalize_tasks with_tasks check_state
finalize_no_ready state now warnings = do
  propagated ← apply_failure_propagation state.plan.tasks
  final_tasks ← finalize_tasks propagated now
  plan ← with_tasks state.plan final_tasks none
  check_state (record state { plan = plan; updated_at = now; warnings = warnings })
