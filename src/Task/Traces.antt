-- ===== src/Task/Traces.antt =====
-- Sequences of successful `with_status` calls on one task.
use agentic_equity_research.Prelude.{
  ℕ, ◌+◌, ◌≤◌, ◌≡◌, refl, Bool, ◌⊎◌, Option, ok, arith, if◌then◌else◌,
}
use agentic_equity_research.Task.{
  ResearchTask, TaskStatus, Datetime, is_running, moved, with_status,
}
use agentic_equity_research.Task.Checks.{IsWellFormed}
use agentic_equity_research.Task.Lifecycle.{with_status_sound, with_status-IsWellFormed}

-- `Trace t u n`: calls of `with_status` lead from `t` to `u`, and `n` of them start an attempt.
pub data Trace (t : ResearchTask) : ResearchTask → ℕ → Type 0 where
  here : Trace t t 0
  next :
      {u v : ResearchTask} {n m : ℕ}
      → Trace t u n
      → (status : TaskStatus) (at : Option Datetime) (retry : Bool)
      → with_status u status at retry ≡ ok v
      → m ≡ (if is_running status then n + 1 else n)
      → Trace t v m

pub Trace-IsWellFormed :
    {t u : ResearchTask} {n : ℕ} → IsWellFormed t → Trace t u n → IsWellFormed u
Trace-IsWellFormed w here = w
Trace-IsWellFormed w (next {u} r status at retry e _) =
    with_status-IsWellFormed u status at retry (Trace-IsWellFormed w r) e

-- What the lifecycle never touches.
pub record SameTask (t u : ResearchTask) : Type 0 where
  pub task_id : u.task_id ≡ t.task_id
  pub capability_id : u.capability_id ≡ t.capability_id
  pub dependencies : u.dependencies ≡ t.dependencies
  pub required : u.required ≡ t.required
  pub priority : u.priority ≡ t.priority
  pub max_attempts : u.max_attempts ≡ t.max_attempts

pub moved-SameTask :
    (t : ResearchTask) (status : TaskStatus) (at : Option Datetime) → SameTask t (moved t status at)
unfolding moved
moved-SameTask t status at = ground arith

attempts-moved :
    (t : ResearchTask) (status : TaskStatus) (at : Option Datetime)
    → (moved t status at).attempt_count
      ≡ (if is_running status then t.attempt_count + 1 else t.attempt_count)
unfolding moved
attempts-moved t status at = refl

-- The attempts of a task are counted exactly, and stay within its limit.
pub attempts-Trace :
    {t u : ResearchTask} {n : ℕ}
    → IsWellFormed t
    → Trace t u n
    → (u.attempt_count ≡ t.attempt_count + n) × (u.attempt_count ≤ u.max_attempts) × SameTask t u
attempts-Trace w here = (omega arith, w.attempts_capped, ground arith)
attempts-Trace {t} w (next {u} {v} {n} {m} r status at retry e c) =
    let wu = Trace-IsWellFormed w r in
    let (may, q) = with_status_sound u status at retry wu e in
    let wv = with_status-IsWellFormed u status at retry wu e in
    let (counted, capped, same) = attempts-Trace w r in
    let count = attempts-moved u status at in
    let kept = moved-SameTask u status at in
    (ground (arith, count), wv.attempts_capped, ground arith)

-- No sequence of calls leads out of SUCCEEDED or SKIPPED.
pub absorbing :
    {t u : ResearchTask} {n : ℕ}
    → IsWellFormed t
    → (t.status ≡ TaskStatus.succeeded) ⊎ (t.status ≡ TaskStatus.skipped)
    → Trace t u n
    → u ≡ t
absorbing w s here = refl
absorbing w s (next {u} r status at retry e _) =
    let wu = Trace-IsWellFormed w r in
    let (may, q) = with_status_sound u status at retry wu e in ground (arith, absorbing w s r)
