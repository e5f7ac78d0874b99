-- ===== src/Examples/Tasks.antt =====
-- Tasks, their lifecycle and their texts.
use agentic_equity_research.Prelude.{◌+◌, ◌≤◌, ◌<◌, ◌≡◌, refl, true, false, none, some, [], ◌∷◌, ok}
use agentic_equity_research.Text.{normalize, split_from, is_space, lstrip, rstrip, strip}
use agentic_equity_research.Task.{TaskStatus, ResearchTask, check_task, with_status, moved}
use agentic_equity_research.Task.Checks.{IsWellFormed, check_task_sound}
use agentic_equity_research.Task.Lifecycle.{Changed, with_status-Changed}
use agentic_equity_research.Task.Traces.{Trace, SameTask, attempts-Trace}
use agentic_equity_research.Budget.{default_budget}
use agentic_equity_research.Outcome.{TaskResultStatus, TaskExecutionResult}
use agentic_equity_research.Retry.{should_retry, should_retry_iff, is_non_retryable}
use agentic_equity_research.Examples.Samples.{noon, word, task, task-IsWellFormed}

program : Unit {0}
unfolding check_task with_status moved strip lstrip rstrip normalize split_from is_space
program = tt

normalize-spaced : normalize (32 ∷ 97 ∷ 9 ∷ 32 ∷ 98 ∷ []) ≡ 97 ∷ 32 ∷ 98 ∷ []
unfolding program
normalize-spaced = refl

abbrev ready_task : ResearchTask
ready_task = task 2 (1 ∷ []) TaskStatus.ready true

abbrev running_task : ResearchTask
running_task = record ready_task {
  status = TaskStatus.running;
  attempt_count = 1;
  started_at = some noon;
}

abbrev done_task : ResearchTask
done_task = record running_task { status = TaskStatus.succeeded; completed_at = some noon }

ready_formed : IsWellFormed ready_task
ready_formed = task-IsWellFormed 2 (1 ∷ []) TaskStatus.ready true refl

started : with_status ready_task TaskStatus.running (some noon) false ≡ ok running_task
unfolding program
started = refl

finished : with_status running_task TaskStatus.succeeded (some noon) false ≡ ok done_task
unfolding program
finished = refl

checked : check_task (record ready_task { capability_id = 32 ∷ 97 ∷ [] }) ≡ ok ready_task
unfolding program
checked = refl

check_task_sound_example : IsWellFormed ready_task
check_task_sound_example =
    check_task_sound (record ready_task { capability_id = 32 ∷ 97 ∷ [] }) ready_task checked

with_status-Changed_example : Changed ready_task TaskStatus.running (some noon) false running_task
with_status-Changed_example =
    with_status-Changed ready_task TaskStatus.running (some noon) false ready_formed started

done-Trace : Trace ready_task done_task 1
done-Trace =
    Trace.next (Trace.next Trace.here TaskStatus.running (some noon) false started refl)
      TaskStatus.succeeded (some noon) false finished refl

attempts-Trace_example :
    (done_task.attempt_count ≡ ready_task.attempt_count + 1)
    × (done_task.attempt_count ≤ done_task.max_attempts)
    × SameTask ready_task done_task
attempts-Trace_example = attempts-Trace ready_formed done-Trace

-- A failed, retryable result after one of three attempts.
abbrev failed_result : TaskExecutionResult
failed_result = record {
  task_id = 2;
  status = TaskResultStatus.failed;
  message = word;
  evidence_refs = [];
  output_summary = none;
  retryable = true;
  error_code = none;
}

should_retry_iff_example :
    (should_retry running_task failed_result default_budget 5 ≡ true
      → (failed_result.status ≡ TaskResultStatus.failed)
        × (failed_result.retryable ≡ true)
        × (is_non_retryable failed_result.error_code ≡ false)
        × (running_task.attempt_count < running_task.max_attempts)
        × (running_task.attempt_count < default_budget.max_attempts_per_task)
        × (5 < default_budget.max_total_attempts))
    × (failed_result.status ≡ TaskResultStatus.failed
        → failed_result.retryable ≡ true
        → is_non_retryable failed_result.error_code ≡ false
        → running_task.attempt_count < running_task.max_attempts
        → running_task.attempt_count < default_budget.max_attempts_per_task
        → 5 < default_budget.max_total_attempts
        → should_retry running_task failed_result default_budget 5 ≡ true)
should_retry_iff_example = should_retry_iff running_task failed_result default_budget 5
