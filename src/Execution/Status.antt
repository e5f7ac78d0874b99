-- ===== src/Execution/Status.antt =====
-- `_to_result` of `ExecuteResearchPlan`: from the final state to the status of the run.
use agentic_equity_research.Prelude.{
  ℕ, Bool, true, false, not, ◌&&◌, ◌||◌, Option, none, some, List, [], ◌∷◌, ◌++◌, any, all, keep,
  count, ltb, Result, ok, raise_if, ◌>>=◌, ◌>>◌, if◌then◌else◌, naive_timestamp,
  plan_attached_to_refusal, is_some,
}
use agentic_equity_research.Text.{Text, text, unique_texts}
use agentic_equity_research.Task.{
  ResearchTask, Datetime, is_failed, is_blocked, is_succeeded, is_skipped,
}
use agentic_equity_research.Outcome.{TaskResultStatus, TaskEvidenceRef, TaskExecutionResult}
use agentic_equity_research.Evidence.{dedupe_evidence_refs}
use agentic_equity_research.Plan.{
  PlanStatus, ResearchPlan, OrchestrationStatus, OrchestrationState, with_plan_status, check_state,
}
use agentic_equity_research.Execution.{Environment}

pub data ResearchExecutionStatus : Type 0 where
  completed partial failed blocked cancelled budget_exceeded : ResearchExecutionStatus
  resolution_blocked invalid unavailable : ResearchExecutionStatus

-- The fields of `ResearchExecutionResult` but the query, the resolution and the budget, which are
-- the arguments of the call.
pub record ResearchExecutionResult : Type 0 where
  pub status : ResearchExecutionStatus
  pub message : Text
  pub research_run_id : Option ℕ
  pub plan_id : Option ℕ
  pub plan : Option ResearchPlan
  pub orchestration : Option OrchestrationState
  pub task_results : List TaskExecutionResult
  pub evidence_refs : List TaskEvidenceRef
  pub warnings : List Text
  pub completed_count : ℕ
  pub failed_count : ℕ
  pub blocked_count : ℕ
  pub partial_count : ℕ
  pub skipped_count : ℕ
  pub started_at : Datetime
  pub completed_at : Datetime

abbrev pub is_refusal : ResearchExecutionStatus → Bool
is_refusal ResearchExecutionStatus.resolution_blocked = true
is_refusal ResearchExecutionStatus.invalid = true
is_refusal ResearchExecutionStatus.unavailable = true
is_refusal _ = false

-- ResearchExecutionResult.__post_init__
unfoldable pub check_execution_result : ResearchExecutionResult → Result ResearchExecutionResult
check_execution_result r = do
  raise_if (not r.started_at.tz_aware || not r.completed_at.tz_aware) naive_timestamp
  raise_if (is_refusal r.status && is_some r.plan) plan_attached_to_refusal
  ok r

-- What `_to_result` reads off the tasks and the results.
pub record Tally : Type 0 where
  pub req_failed : Bool
  pub req_blocked : Bool
  pub req_succeeded : ℕ
  pub req_ok : Bool
  pub optional_failed : Bool
  pub partial : ℕ

abbrev pub is_nil : List ResearchTask → Bool
is_nil [] = true
is_nil (t ∷ ts) = false

abbrev pub has_partial : TaskExecutionResult → Bool
has_partial r = elim r.status [ TaskResultStatus.partial ↦ true | _ ↦ false ]

unfoldable pub tally : List ResearchTask → List TaskExecutionResult → Tally
tally tasks results =
    let required = keep (λ t. t.required) tasks in
    let optional = keep (λ t. not t.required) tasks in
    record {
      req_failed = any (λ t. is_failed t.status) required;
      req_blocked = any (λ t. is_blocked t.status) required;
      req_succeeded = count (λ t. is_succeeded t.status) required;
      req_ok = not (is_nil required) && all (λ t. is_succeeded t.status) required;
      optional_failed = any (λ t. is_failed t.status) optional;
      partial = count has_partial results;
    }

-- The status of the run, that of the plan, and the message.
pub record Verdict : Type 0 where
  pub run_status : ResearchExecutionStatus
  pub plan_status : PlanStatus
  pub message : Text

-- The `else` branch of `_to_result`: the run was neither cancelled nor over its budget.
unfoldable pub judge : Tally → Verdict
judge t =
    if t.req_failed && ltb 0 t.req_succeeded
    then record {
      run_status = ResearchExecutionStatus.partial;
      plan_status = PlanStatus.completed;
      message =
          text "transparent partial: one or more required tasks failed while others succeeded";
    }
    else if t.req_failed
    then record {
      run_status = ResearchExecutionStatus.failed;
      plan_status = PlanStatus.failed;
      message = text "one or more required tasks failed";
    }
    else if t.req_blocked && ltb 0 t.req_succeeded
    then record {
      run_status = ResearchExecutionStatus.partial;
      plan_status = PlanStatus.completed;
      message =
          text "transparent partial: one or more required tasks blocked while others succeeded";
    }
    else if t.req_blocked
    then record {
      run_status = ResearchExecutionStatus.blocked;
      plan_status = PlanStatus.failed;
      message = text "one or more required tasks blocked";
    }
    else if t.req_ok && (ltb 0 t.partial || t.optional_failed)
    then record {
      run_status = ResearchExecutionStatus.partial;
      plan_status = PlanStatus.completed;
      message =
          text
            "required tasks finished with PARTIAL capability results and/or optional task failures";
    }
    else if t.req_ok
    then record {
      run_status = ResearchExecutionStatus.completed;
      plan_status = PlanStatus.completed;
      message = text "research plan executed within bounds";
    }
    else record {
      run_status = ResearchExecutionStatus.partial;
      plan_status = PlanStatus.completed;
      message = text "execution finished with incomplete required coverage";
    }

-- state.terminal_reason or default
abbrev pub reason_or : Option Text → Text → Text
reason_or none d = d
reason_or (some []) d = d
reason_or (some (c ∷ cs)) d = c ∷ cs

abbrev pub verdict_of : OrchestrationStatus → Option Text → Tally → Verdict
verdict_of OrchestrationStatus.cancelled reason t = record {
  run_status = ResearchExecutionStatus.cancelled;
  plan_status = PlanStatus.cancelled;
  message = reason_or reason (text "execution cancelled");
}
verdict_of OrchestrationStatus.budget_exceeded reason t = record {
  run_status = ResearchExecutionStatus.budget_exceeded;
  plan_status = PlanStatus.failed;
  message = reason_or reason (text "execution budget exceeded");
}
verdict_of _ reason t = judge t

unfoldable pub verdict : OrchestrationState → Verdict
unfolding tally judge
verdict s = verdict_of s.status s.terminal_reason (tally s.plan.tasks s.results)

-- The table from the status of the run to that of the final state.
abbrev pub final_status : ResearchExecutionStatus → OrchestrationStatus
final_status ResearchExecutionStatus.completed = OrchestrationStatus.completed
final_status ResearchExecutionStatus.partial = OrchestrationStatus.partial
final_status ResearchExecutionStatus.failed = OrchestrationStatus.failed
final_status ResearchExecutionStatus.blocked = OrchestrationStatus.blocked
final_status ResearchExecutionStatus.cancelled = OrchestrationStatus.cancelled
final_status ResearchExecutionStatus.budget_exceeded = OrchestrationStatus.budget_exceeded
final_status _ = OrchestrationStatus.failed

abbrev all_evidence : List TaskExecutionResult → List TaskEvidenceRef
all_evidence [] = []
all_evidence (r ∷ rs) = r.evidence_refs ++ all_evidence rs

unfoldable pub to_result :
    Environment → OrchestrationState → Datetime → List Text → Result ResearchExecutionResult
unfolding verdict with_plan_status check_state check_execution_result unique_texts
    dedupe_evidence_refs
to_result env s started_at extra_warnings = do
  let tasks = s.plan.tasks
  let v = verdict s
  let warnings = unique_texts [] (s.warnings ++ extra_warnings)
  final_plan ← with_plan_status s.plan v.plan_status
  final_state ← check_state (record s {
    plan = final_plan;
    status = final_status v.run_status;
    warnings = warnings;
    terminal_reason = some (reason_or s.terminal_reason v.message);
    updated_at = env.end_clock;
  })
  check_execution_result (record {
    status = v.run_status;
    message = v.message;
    research_run_id = some final_plan.research_run_id;
    plan_id = some final_plan.plan_id;
    plan = some final_plan;
    orchestration = some final_state;
    task_results = final_state.results;
    evidence_refs = dedupe_evidence_refs env.isoformat (all_evidence s.results);
    warnings = warnings;
    completed_count = count (λ t. is_succeeded t.status) tasks;
    failed_count = count (λ t. is_failed t.status) tasks;
    blocked_count = count (λ t. is_blocked t.status) tasks;
    partial_count = count has_partial s.results;
    skipped_count = count (λ t. is_skipped t.status) tasks;
    started_at = started_at;
    completed_at = env.end_clock;
  })
