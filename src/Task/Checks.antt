-- ===== src/Task/Checks.antt =====
-- What `ResearchTask.__post_init__` accepts.
use agentic_equity_research.Prelude.{◌≤◌, ◌≡◌, false, ok, arith}
use agentic_equity_research.Text.{strip, normalize, is_empty, has_control, exceeds}
use agentic_equity_research.Text.Normal.{strip-strip, normalize-normalize}
use agentic_equity_research.Task.{ResearchTask, is_naive, contains, check_task}

-- The class invariant of a constructed task.
pub record IsWellFormed (t : ResearchTask) : Type 0 where
  pub capability_stripped : strip t.capability_id ≡ t.capability_id
  pub capability_given : is_empty t.capability_id ≡ false
  pub description_normal : normalize t.description ≡ t.description
  pub description_given : is_empty t.description ≡ false
  pub description_short : exceeds t.description 512 ≡ false
  pub description_printable : has_control t.description ≡ false
  pub priority_positive : 1 ≤ t.priority
  pub priority_capped : t.priority ≤ 1000
  pub max_attempts_positive : 1 ≤ t.max_attempts
  pub max_attempts_capped : t.max_attempts ≤ 10
  pub attempts_capped : t.attempt_count ≤ t.max_attempts
  pub not_own_dependency : contains t.task_id t.dependencies ≡ false
  pub created_aware : is_naive t.created_at ≡ false
  pub started_aware : is_naive t.started_at ≡ false
  pub completed_aware : is_naive t.completed_at ≡ false

-- A well-formed task passes the checks unchanged.
pub check_task-IsWellFormed : (t : ResearchTask) → IsWellFormed t → check_task t ≡ ok t
unfolding check_task
check_task-IsWellFormed t w = ground arith

-- Whatever passes the checks is well formed.
pub check_task_sound : (t u : ResearchTask) → check_task t ≡ ok u → IsWellFormed u
unfolding check_task
check_task_sound t u h =
    ground (arith, strip-strip t.capability_id, normalize-normalize t.description)
