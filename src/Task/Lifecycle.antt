-- ===== src/Task/Lifecycle.antt =====
-- What `ResearchTask.with_status` accepts, refuses and changes.
use agentic_equity_research.Prelude.{
  ◌≤◌, ◌≢◌, refl, ◌⊎◌, ◌+◌, ◌≡◌, Bool, true, false, not, ◌&&◌, Option, ok, err, ltb, arith,
  invalid_task_transition,
}
use agentic_equity_research.Task.{
  ResearchTask, TaskStatus, Datetime, is_naive, allowed_transition, is_running, is_failed, is_ready,
  is_completing, check_task, moved, with_status,
}
use agentic_equity_research.Task.Checks.{IsWellFormed, check_task-IsWellFormed}

-- The changes of status that a task may make.
pub data Moves : TaskStatus → TaskStatus → Type 0 where
  gets_ready : Moves TaskStatus.pending TaskStatus.ready
  waits_again : Moves TaskStatus.ready TaskStatus.pending
  starts : Moves TaskStatus.ready TaskStatus.running
  succeeds : Moves TaskStatus.running TaskStatus.succeeded
  fails : Moves TaskStatus.running TaskStatus.failed
  is_retried : Moves TaskStatus.failed TaskStatus.ready
  is_unblocked : Moves TaskStatus.blocked TaskStatus.ready
  pending_blocked : Moves TaskStatus.pending TaskStatus.blocked
  ready_blocked : Moves TaskStatus.ready TaskStatus.blocked
  running_blocked : Moves TaskStatus.running TaskStatus.blocked
  pending_skipped : Moves TaskStatus.pending TaskStatus.skipped
  ready_skipped : Moves TaskStatus.ready TaskStatus.skipped
  running_skipped : Moves TaskStatus.running TaskStatus.skipped
  blocked_skipped : Moves TaskStatus.blocked TaskStatus.skipped

allowed_transition-Moves : (a b : TaskStatus) → allowed_transition a b ≡ true → Moves a b
allowed_transition-Moves TaskStatus.pending TaskStatus.ready h = Moves.gets_ready
allowed_transition-Moves TaskStatus.pending TaskStatus.blocked h = Moves.pending_blocked
allowed_transition-Moves TaskStatus.pending TaskStatus.skipped h = Moves.pending_skipped
allowed_transition-Moves TaskStatus.ready TaskStatus.running h = Moves.starts
allowed_transition-Moves TaskStatus.ready TaskStatus.blocked h = Moves.ready_blocked
allowed_transition-Moves TaskStatus.ready TaskStatus.skipped h = Moves.ready_skipped
allowed_transition-Moves TaskStatus.ready TaskStatus.pending h = Moves.waits_again
allowed_transition-Moves TaskStatus.running TaskStatus.succeeded h = Moves.succeeds
allowed_transition-Moves TaskStatus.running TaskStatus.failed h = Moves.fails
allowed_transition-Moves TaskStatus.running TaskStatus.blocked h = Moves.running_blocked
allowed_transition-Moves TaskStatus.running TaskStatus.skipped h = Moves.running_skipped
allowed_transition-Moves TaskStatus.failed TaskStatus.ready h = Moves.is_retried
allowed_transition-Moves TaskStatus.blocked TaskStatus.ready h = Moves.is_unblocked
allowed_transition-Moves TaskStatus.blocked TaskStatus.skipped h = Moves.blocked_skipped
allowed_transition-Moves _ _ h = cc

-- What a move to `status` at the time `at` makes of a task.
pub record Changed (t : ResearchTask) (status : TaskStatus) (at : Option Datetime) (retry : Bool)
    (u : ResearchTask) : Type 0 where
  pub edge : Moves t.status status
  pub authorized : t.status ≡ TaskStatus.failed → status ≡ TaskStatus.ready → retry ≡ true
  pub new_status : u.status ≡ status
  pub running :
      status ≡ TaskStatus.running
      → (u.attempt_count ≡ t.attempt_count + 1)
        × (u.attempt_count ≤ t.max_attempts)
        × (u.started_at ≡ at)
  pub not_running :
      status ≢ TaskStatus.running
      → (u.attempt_count ≡ t.attempt_count) × (u.started_at ≡ t.started_at)
  pub completing :
      (status ≡ TaskStatus.succeeded) ⊎ (status ≡ TaskStatus.failed) ⊎ (status ≡ TaskStatus.skipped)
      → u.completed_at ≡ at
  pub not_completing :
      status ≢ TaskStatus.succeeded
      → status ≢ TaskStatus.failed
      → status ≢ TaskStatus.skipped
      → u.completed_at ≡ t.completed_at
  pub same_rest : u ≡ record t {
    status = u.status;
    attempt_count = u.attempt_count;
    started_at = u.started_at;
    completed_at = u.completed_at;
  }

-- What the guards of `with_status` ask for.
pub record MayMove (t : ResearchTask) (status : TaskStatus) (at : Option Datetime) (retry : Bool)
    : Type 0 where
  pub allowed : allowed_transition t.status status ≡ true
  pub authorized : (is_failed t.status && is_ready status && not retry) ≡ false
  pub attempts_left : (is_running status && ltb t.max_attempts (t.attempt_count + 1)) ≡ false
  pub stamped : (is_running status && is_naive at) ≡ false
  pub completed : (is_completing status && is_naive at) ≡ false

module _ (t : ResearchTask) (status : TaskStatus) (at : Option Datetime) (retry : Bool) where
  pub moved-IsWellFormed :
      IsWellFormed t → MayMove t status at retry → IsWellFormed (moved t status at)
  unfolding moved
  moved-IsWellFormed w m = ground arith

  -- A task that may move does move, to exactly the copy with the new status and stamps.
  pub with_status-MayMove :
      IsWellFormed t
      → MayMove t status at retry
      → with_status t status at retry ≡ ok (moved t status at)
  unfolding with_status
  with_status-MayMove w m =
      ground (arith, check_task-IsWellFormed (moved t status at) (moved-IsWellFormed w m))

  -- A move that is not allowed by the table raises.
  pub with_status_refused :
      allowed_transition t.status status ≡ false
      → with_status t status at retry ≡ err invalid_task_transition
  unfolding with_status
  with_status_refused h = ground arith

  check_task-moved :
      {u : ResearchTask}
      → IsWellFormed t
      → check_task (moved t status at) ≡ ok u
      → (u ≡ moved t status at)
        × ((is_running status && is_naive at) ≡ false)
        × ((is_completing status && is_naive at) ≡ false)
  unfolding check_task moved
  check_task-moved w h = ground arith

  -- A call that returns had every guard satisfied, and returned exactly that copy.
  pub with_status_sound :
      {u : ResearchTask}
      → IsWellFormed t
      → with_status t status at retry ≡ ok u
      → MayMove t status at retry × (u ≡ moved t status at)
  unfolding with_status
  with_status_sound {u} w h = ground (arith, check_task-moved {u = u} w)

  pub with_status-IsWellFormed :
      {u : ResearchTask} → IsWellFormed t → with_status t status at retry ≡ ok u → IsWellFormed u
  with_status-IsWellFormed w h = let (m, e) = with_status_sound w h in rw e (moved-IsWellFormed w m)

moved-Changed :
    (t : ResearchTask) (status : TaskStatus) (at : Option Datetime) (retry : Bool)
    → MayMove t status at retry
    → Changed t status at retry (moved t status at)
unfolding moved
moved-Changed t status at retry m = record {
  edge = allowed_transition-Moves t.status status m.allowed;
  authorized = λ e f. ground (arith, m.authorized);
  new_status = refl;
  running = λ e. ground (arith, m.attempts_left);
  not_running = λ e. not_running status e;
  completing = λ e. ground arith;
  not_completing = λ e f g. not_completing status e f g;
  same_rest = refl;
}
  where
    not_running :
        (s : TaskStatus)
        → s ≢ TaskStatus.running
        → ((moved t s at).attempt_count ≡ t.attempt_count)
          × ((moved t s at).started_at ≡ t.started_at)
    not_running TaskStatus.running e = absurd (e refl)
    not_running _ e = (refl, refl)

    not_completing :
        (s : TaskStatus)
        → s ≢ TaskStatus.succeeded
        → s ≢ TaskStatus.failed
        → s ≢ TaskStatus.skipped
        → (moved t s at).completed_at ≡ t.completed_at
    not_completing TaskStatus.succeeded e f g = absurd (e refl)
    not_completing TaskStatus.failed e f g = absurd (f refl)
    not_completing TaskStatus.skipped e f g = absurd (g refl)
    not_completing _ e f g = refl

-- A `with_status` call that returns made one of the changes of the lifecycle, a retry of a failed task
-- only with authorization. Starting counts one attempt, within the maximum, and stamps the start;
-- ending stamps the end; everything else of the task stays.
pub with_status-Changed :
    (t : ResearchTask) (status : TaskStatus) (at : Option Datetime) (retry : Bool)
    {u : ResearchTask}
    → IsWellFormed t
    → with_status t status at retry ≡ ok u
    → Changed t status at retry u
with_status-Changed t status at retry w h =
    let (m, e) = with_status_sound t status at retry w h in rw e (moved-Changed t status at retry m)
