-- ===== src/Execution/Verdict.antt =====
-- When `_to_result` reports that a run is COMPLETED.
use agentic_equity_research.Prelude.{
  ◌≡◌, refl, Bool, true, false, not, List, [], ◌∷◌, All, any, all, keep, count, arith,
}
use agentic_equity_research.Task.{ResearchTask, is_failed, is_blocked, is_succeeded}
use agentic_equity_research.Outcome.{TaskExecutionResult}
use agentic_equity_research.Plan.{OrchestrationStatus, OrchestrationState}
use agentic_equity_research.Execution.Status.{
  ResearchExecutionStatus, Tally, is_nil, has_partial, tally, judge, verdict, verdict_of,
}

-- What COMPLETED claims: there is required work, all of it succeeded, no optional task failed, and
-- no result was partial.
pub record IsComplete (tasks : List ResearchTask) (results : List TaskExecutionResult)
    : Type 0 where
  pub some_required : any (λ t. t.required) tasks ≡ true
  pub required_done : All (λ t. t.required ≡ true → is_succeeded t.status ≡ true) tasks
  pub optional_not_failed : All (λ t. t.required ≡ false → is_failed t.status ≡ false) tasks
  pub nothing_partial : All (λ r. has_partial r ≡ false) results

all-keep :
    (tasks : List ResearchTask)
    → (all (λ t. is_succeeded t.status) (keep (λ t. t.required) tasks) ≡ true
        → All (λ t. t.required ≡ true → is_succeeded t.status ≡ true) tasks)
      × (All (λ t. t.required ≡ true → is_succeeded t.status ≡ true) tasks
          → all (λ t. is_succeeded t.status) (keep (λ t. t.required) tasks) ≡ true)
all-keep [] = (λ h. tt, λ h. refl)
all-keep (t ∷ ts) =
    let (to, from) = all-keep ts in (λ h. ground (arith, to), λ h. ground (arith, from))

any-keep :
    (tasks : List ResearchTask)
    → (any (λ t. is_failed t.status) (keep (λ t. not t.required) tasks) ≡ false
        → All (λ t. t.required ≡ false → is_failed t.status ≡ false) tasks)
      × (All (λ t. t.required ≡ false → is_failed t.status ≡ false) tasks
          → any (λ t. is_failed t.status) (keep (λ t. not t.required) tasks) ≡ false)
any-keep [] = (λ h. tt, λ h. refl)
any-keep (t ∷ ts) =
    let (to, from) = any-keep ts in (λ h. ground (arith, to), λ h. ground (arith, from))

none_partial :
    (results : List TaskExecutionResult)
    → (count has_partial results ≡ 0 → All (λ r. has_partial r ≡ false) results)
      × (All (λ r. has_partial r ≡ false) results → count has_partial results ≡ 0)
none_partial [] = (λ h. tt, λ h. refl)
none_partial (r ∷ rs) =
    let (to, from) = none_partial rs in (λ h. ground (arith, to), λ h. ground (arith, from))

is_nil-keep :
    (tasks : List ResearchTask)
    → not (is_nil (keep (λ t. t.required) tasks)) ≡ any (λ t. t.required) tasks
is_nil-keep [] = refl
is_nil-keep (t ∷ ts) = ground (arith, is_nil-keep ts)

done_not_failed :
    (ts : List ResearchTask)
    → all (λ t. is_succeeded t.status) ts ≡ true
    → (any (λ t. is_failed t.status) ts ≡ false) × (any (λ t. is_blocked t.status) ts ≡ false)
done_not_failed [] h = (refl, refl)
done_not_failed (t ∷ ts) h = ground (arith, done_not_failed ts)

judge_completed :
    (t : Tally)
    → ((judge t).run_status ≡ ResearchExecutionStatus.completed
        → (t.req_ok ≡ true) × (t.optional_failed ≡ false) × (t.partial ≡ 0))
      × (t.req_ok ≡ true
          → t.req_failed ≡ false
          → t.req_blocked ≡ false
          → t.optional_failed ≡ false
          → t.partial ≡ 0
          → (judge t).run_status ≡ ResearchExecutionStatus.completed)
unfolding judge
judge_completed t = (λ h. ground arith, λ a b c d e. ground arith)

tally_completed :
    (tasks : List ResearchTask) (results : List TaskExecutionResult)
    → ((judge (tally tasks results)).run_status ≡ ResearchExecutionStatus.completed
        → IsComplete tasks results)
      × (IsComplete tasks results
          → (judge (tally tasks results)).run_status ≡ ResearchExecutionStatus.completed)
unfolding tally
tally_completed tasks results =
    let (to, from) = judge_completed (tally tasks results) in
    let required = all-keep tasks in
    let optional = any-keep tasks in
    let partial = none_partial results in
    let some_required = is_nil-keep tasks in
    (
      λ h.
          let (ok', opt, par) = to h in
          record {
            some_required = ground arith;
            required_done = required.0 (ground arith);
            optional_not_failed = optional.0 opt;
            nothing_partial = partial.0 par;
          },
      λ c.
          let done = required.1 c.required_done in
          let (a, b) = done_not_failed (keep (λ t. t.required) tasks) done in
          from (rw (some_required, c.some_required, done) refl) a b
            (optional.1 c.optional_not_failed) (partial.1 c.nothing_partial),
    )

-- The loop ended neither by a cancellation nor by a budget.
abbrev pub ran_out : OrchestrationStatus → Bool
ran_out OrchestrationStatus.cancelled = false
ran_out OrchestrationStatus.budget_exceeded = false
ran_out _ = true

-- A run is reported COMPLETED exactly when it was not cancelled and not over its budget, some task
-- is required, every required task succeeded, no optional task failed and no result is PARTIAL.
pub verdict_completed :
    (s : OrchestrationState)
    → ((verdict s).run_status ≡ ResearchExecutionStatus.completed
        → (ran_out s.status ≡ true) × IsComplete s.plan.tasks s.results)
      × (ran_out s.status ≡ true
          → IsComplete s.plan.tasks s.results
          → (verdict s).run_status ≡ ResearchExecutionStatus.completed)
unfolding verdict
verdict_completed s = by_status s.status
  where
    by_status :
        (o : OrchestrationStatus)
        → ((verdict_of o s.terminal_reason (tally s.plan.tasks s.results)).run_status
              ≡ ResearchExecutionStatus.completed
            → (ran_out o ≡ true) × IsComplete s.plan.tasks s.results)
          × (ran_out o ≡ true
              → IsComplete s.plan.tasks s.results
              → (verdict_of o s.terminal_reason (tally s.plan.tasks s.results)).run_status
                ≡ ResearchExecutionStatus.completed)
    by_status OrchestrationStatus.cancelled = (λ h. cc, λ h. cc)
    by_status OrchestrationStatus.budget_exceeded = (λ h. cc, λ h. cc)
    by_status _ =
        let (to, from) = tally_completed s.plan.tasks s.results in
        (λ h. (refl, to h), λ h c. from c)
