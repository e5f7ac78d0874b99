-- ===== src/Task.antt =====
-- src/financial_intelligence/domain/orchestration/tasks.py: research tasks and their lifecycle.
-- A `TaskId` is the 128-bit number of its UUID: `str(UUID)` has a fixed width in lower-case
-- hexadecimal, so the order and the equality of the texts are those of the numbers.
pub mod Checks
pub mod Lifecycle
pub mod Traces
use agentic_equity_research.Prelude.{
  ℕ, ◌+◌, Bool, true, false, not, ◌&&◌, ◌||◌, Option, none, some, List, ltb, ◌==◌, any, Result, ok,
  raise_if, ◌>>=◌, ◌>>◌, if◌then◌else◌, capability_id_required, description_out_of_bounds,
  description_control_characters, priority_out_of_bounds, max_attempts_out_of_bounds,
  attempt_count_out_of_bounds, depends_on_itself, naive_timestamp, invalid_task_transition,
  retry_not_authorized, max_attempts_exceeded,
}
use agentic_equity_research.Text.{Text, strip, normalize, is_empty, has_control, exceeds}

-- A Python `datetime`: whether `tzinfo` is set, and the instant.
pub record Datetime : Type 0 where
  pub tz_aware : Bool
  pub instant : ℕ

-- ts is not None and ts.tzinfo is None
abbrev pub is_naive : Option Datetime → Bool
is_naive none = false
is_naive (some d) = not d.tz_aware

pub data TaskType : Type 0 where
  company_resolution market_intelligence financial_intelligence : TaskType
  news_event_intelligence industry_intelligence regulatory_intelligence : TaskType

pub data TaskStatus : Type 0 where
  pending ready running succeeded failed skipped blocked : TaskStatus

-- `new in _ALLOWED_TRANSITIONS[current]`
abbrev pub allowed_transition : TaskStatus → TaskStatus → Bool
allowed_transition TaskStatus.pending TaskStatus.ready = true
allowed_transition TaskStatus.pending TaskStatus.blocked = true
allowed_transition TaskStatus.pending TaskStatus.skipped = true
allowed_transition TaskStatus.ready TaskStatus.running = true
allowed_transition TaskStatus.ready TaskStatus.blocked = true
allowed_transition TaskStatus.ready TaskStatus.skipped = true
allowed_transition TaskStatus.ready TaskStatus.pending = true
allowed_transition TaskStatus.running TaskStatus.succeeded = true
allowed_transition TaskStatus.running TaskStatus.failed = true
allowed_transition TaskStatus.running TaskStatus.blocked = true
allowed_transition TaskStatus.running TaskStatus.skipped = true
allowed_transition TaskStatus.failed TaskStatus.ready = true
allowed_transition TaskStatus.blocked TaskStatus.ready = true
allowed_transition TaskStatus.blocked TaskStatus.skipped = true
allowed_transition _ _ = false

abbrev pub is_running : TaskStatus → Bool
is_running TaskStatus.running = true
is_running _ = false

abbrev pub is_failed : TaskStatus → Bool
is_failed TaskStatus.failed = true
is_failed _ = false

abbrev pub is_ready : TaskStatus → Bool
is_ready TaskStatus.ready = true
is_ready _ = false

abbrev pub is_pending : TaskStatus → Bool
is_pending TaskStatus.pending = true
is_pending _ = false

abbrev pub is_succeeded : TaskStatus → Bool
is_succeeded TaskStatus.succeeded = true
is_succeeded _ = false

abbrev pub is_blocked : TaskStatus → Bool
is_blocked TaskStatus.blocked = true
is_blocked _ = false

abbrev pub is_skipped : TaskStatus → Bool
is_skipped TaskStatus.skipped = true
is_skipped _ = false

-- status in {SUCCEEDED, FAILED, SKIPPED}
abbrev pub is_completing : TaskStatus → Bool
is_completing TaskStatus.succeeded = true
is_completing TaskStatus.failed = true
is_completing TaskStatus.skipped = true
is_completing _ = false

pub record ResearchTask : Type 0 where
  pub task_id : ℕ
  pub task_type : TaskType
  pub capability_id : Text
  pub description : Text
  pub dependencies : List ℕ
  pub status : TaskStatus
  pub priority : ℕ
  pub required : Bool
  pub attempt_count : ℕ
  pub max_attempts : ℕ
  pub created_at : Option Datetime
  pub started_at : Option Datetime
  pub completed_at : Option Datetime

-- `x in xs`, for identifiers
abbrev pub contains : ℕ → List ℕ → Bool
contains x xs = any (λ y. y == x) xs

-- ResearchTask.__post_init__: it runs on construction and on every `replace`.
unfoldable pub check_task : ResearchTask → Result ResearchTask
check_task t = do
  raise_if (is_empty (strip t.capability_id)) capability_id_required
  let desc = normalize t.description
  raise_if (is_empty desc || exceeds desc 512) description_out_of_bounds
  raise_if (has_control desc) description_control_characters
  raise_if (ltb t.priority 1 || ltb 1000 t.priority) priority_out_of_bounds
  raise_if (ltb t.max_attempts 1 || ltb 10 t.max_attempts) max_attempts_out_of_bounds
  raise_if (ltb t.max_attempts t.attempt_count) attempt_count_out_of_bounds
  raise_if (contains t.task_id t.dependencies) depends_on_itself
  raise_if (is_naive t.created_at || is_naive t.started_at || is_naive t.completed_at)
      naive_timestamp
  ok (record t { capability_id = strip t.capability_id; description = desc })

-- The copy that `with_status` hands to `replace`, once its guards have passed.
unfoldable pub moved : ResearchTask → TaskStatus → Option Datetime → ResearchTask
moved t status at = record t {
  status = status;
  started_at = if is_running status then at else t.started_at;
  completed_at = if is_completing status then at else t.completed_at;
  attempt_count = if is_running status then t.attempt_count + 1 else t.attempt_count;
}

-- ResearchTask.with_status(status, at=…, authorized_retry=…)
unfoldable pub with_status :
    ResearchTask → TaskStatus → Option Datetime → Bool → Result ResearchTask
unfolding moved
with_status t status at authorized_retry = do
  raise_if (not (allowed_transition t.status status)) invalid_task_transition
  raise_if (is_failed t.status && is_ready status && not authorized_retry) retry_not_authorized
  raise_if (is_running status && ltb t.max_attempts (t.attempt_count + 1)) max_attempts_exceeded
  check_task (moved t status at)
