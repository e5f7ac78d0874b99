-- ===== src/Retry.antt =====
-- src/financial_intelligence/domain/orchestration/retry.py and execution_control.py.
use agentic_equity_research.Prelude.{
  ℕ, ◌<◌, ◌≡◌, Bool, true, false, not, ◌||◌, Option, none, some, List, [], ◌∷◌, arith, ltb, leb,
  any, Result, ok, raise_if, ◌>>=◌, ◌>>◌, if◌then◌else◌, reason_out_of_bounds,
}
use agentic_equity_research.Text.{Text, text, same_text, normalize, is_empty, exceeds}
use agentic_equity_research.Task.{ResearchTask}
use agentic_equity_research.Budget.{ResearchExecutionBudget}
use agentic_equity_research.Outcome.{TaskResultStatus, TaskExecutionResult}

-- NON_RETRYABLE_ERROR_CODES
unfoldable pub non_retryable_error_codes : List Text
unfolding text
non_retryable_error_codes =
    text "identity_mismatch"
    ∷ text "invalid_input"
    ∷ text "policy_violation"
    ∷ text "blocked_dependency"
    ∷ text "unavailable"
    ∷ text "budget_violation"
    ∷ text "unknown_capability"
    ∷ text "cancellation"
    ∷ []

-- result.error_code is not None and result.error_code in NON_RETRYABLE_ERROR_CODES
unfoldable pub is_non_retryable : Option Text → Bool
unfolding same_text non_retryable_error_codes
is_non_retryable none = false
is_non_retryable (some code) = any (same_text code) non_retryable_error_codes

abbrev pub has_failed : TaskResultStatus → Bool
has_failed TaskResultStatus.failed = true
has_failed _ = false

-- RetryPolicy.should_retry
unfoldable pub should_retry :
    ResearchTask → TaskExecutionResult → ResearchExecutionBudget → ℕ → Bool
should_retry task result budget total_attempts =
    if not (has_failed result.status)
    then false
    else if not result.retryable
    then false
    else if is_non_retryable result.error_code
    then false
    else if leb task.max_attempts task.attempt_count
    then false
    else if leb budget.max_attempts_per_task task.attempt_count
    then false
    else ltb total_attempts budget.max_total_attempts

-- A retry is granted exactly when the result failed, is retryable, carries no permanent error
-- code, and all three attempt limits leave room.
pub should_retry_iff :
    (task : ResearchTask) (result : TaskExecutionResult) (budget : ResearchExecutionBudget)
    (total_attempts : ℕ)
    → (should_retry task result budget total_attempts ≡ true
        → (result.status ≡ TaskResultStatus.failed)
          × (result.retryable ≡ true)
          × (is_non_retryable result.error_code ≡ false)
          × (task.attempt_count < task.max_attempts)
          × (task.attempt_count < budget.max_attempts_per_task)
          × (total_attempts < budget.max_total_attempts))
      × (result.status ≡ TaskResultStatus.failed
          → result.retryable ≡ true
          → is_non_retryable result.error_code ≡ false
          → task.attempt_count < task.max_attempts
          → task.attempt_count < budget.max_attempts_per_task
          → total_attempts < budget.max_total_attempts
          → should_retry task result budget total_attempts ≡ true)
unfolding should_retry
should_retry_iff task result budget total_attempts =
    (λ h. ground arith, λ a b c d e f. ground arith)

-- The mutable token of execution_control.py.
pub record ExecutionControl : Type 0 where
  pub is_cancelled : Bool
  pub is_pause : Bool
  pub reason : Option Text

-- ExecutionControl()
abbrev pub new_control : ExecutionControl
new_control = record { is_cancelled = false; is_pause = false; reason = none }

-- The check that `cancel` and `request_pause` share.
abbrev check_reason : Text → Result Text
check_reason raw = do
  let reason = normalize raw
  raise_if (is_empty reason || exceeds reason 256) reason_out_of_bounds
  ok reason

-- ExecutionControl.cancel
unfoldable pub cancel : ExecutionControl → Text → Result ExecutionControl
cancel control raw = do
  reason ← check_reason raw
  ok (record control { is_cancelled = true; is_pause = false; reason = some reason })

-- ExecutionControl.request_pause
unfoldable pub request_pause : ExecutionControl → Text → Result ExecutionControl
request_pause control raw = do
  reason ← check_reason raw
  ok (record control { is_cancelled = true; is_pause = true; reason = some reason })
