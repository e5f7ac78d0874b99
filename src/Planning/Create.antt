-- ===== src/Planning/Create.antt =====
-- The creation of a plan: domain/orchestration/request.py and planning.py,
-- application/research_plan_contracts.py and application/create_research_plan.py, below
-- src/financial_intelligence. The resolution of the company and the planner are read through a `PlanService`.
use agentic_equity_research.Prelude.{
  ℕ, Bool, true, false, not, ◌&&◌, ◌||◌, Option, none, some, [], ◌∷◌, ◌++◌, ltb, ◌==◌, length,
  is_some, Error, Result, err, raise_if, ◌>>=◌, ◌>>◌, if◌then◌else◌, value_error,
}
use agentic_equity_research.Text.{
  Text, text, fail_if, strip, normalize, is_empty, exceeds, has_control, same_text,
}
use agentic_equity_research.Task.{Datetime}
use agentic_equity_research.Budget.{ResearchExecutionBudget}
use agentic_equity_research.Plan.{ResearchObjective, ResearchPlan}
use agentic_equity_research.Execution.{CompanyIdentity}

-- CompanyQuery: the raw text, and the codes that were given with it.
pub record CompanyQuery : Type 0 where
  pub raw_query : Text
  pub country : Option Text
  pub exchange : Option Text
  pub ticker : Option Text

-- The raw query and the codes of the request are its `company_query`.
pub record ResearchRequest : Type 0 where
  pub request_id : ℕ
  pub research_run_id : ℕ
  pub objective : ResearchObjective
  pub company_query : CompanyQuery
  pub created_at : Datetime
  pub objective_text : Option Text
  pub jurisdiction : Option Text
  pub time_horizon_days : Option ℕ

-- The lines on `objective_text`.
unfoldable pub check_objective_text : Option Text → Result (Option Text)
unfolding strip
check_objective_text none = Result.ok none
check_objective_text (some raw) = do
  fail_if (has_control raw) "objective_text must not contain control characters"
  let content = strip raw
  fail_if (is_empty content || exceeds content 512) "objective_text empty or exceeds bounds"
  Result.ok (some content)

-- The lines on `jurisdiction`, where `upper` is `str.upper`.
unfoldable pub check_jurisdiction : (Text → Text) → Option Text → Result (Option Text)
unfolding strip
check_jurisdiction upper none = Result.ok none
check_jurisdiction upper (some raw) = do
  let code = upper (strip raw)
  fail_if (not (length code == 2)) "jurisdiction must be ISO alpha-2 when set"
  Result.ok (some code)

abbrev is_bad_horizon : Option ℕ → Bool
is_bad_horizon none = false
is_bad_horizon (some days) = ltb days 1 || ltb 3650 days

-- ResearchRequest.__post_init__
unfoldable pub check_research_request : (Text → Text) → ResearchRequest → Result ResearchRequest
unfolding check_objective_text check_jurisdiction strip
check_research_request upper r = do
  fail_if (not r.created_at.tz_aware) "created_at must be timezone-aware"
  fail_if (has_control r.company_query.raw_query) "raw_query must not contain control characters"
  fail_if (is_empty (strip r.company_query.raw_query) && not (is_some r.company_query.ticker))
      "raw_query empty unless ticker is provided"
  fail_if (exceeds r.company_query.raw_query 200) "raw_query exceeds 200 characters"
  objective_text ← check_objective_text r.objective_text
  jurisdiction ← check_jurisdiction upper r.jurisdiction
  fail_if (is_bad_horizon r.time_horizon_days) "time_horizon_days must be between 1 and 3650"
  Result.ok (record r { objective_text = objective_text; jurisdiction = jurisdiction })

pub data PlannerOutcomeStatus : Type 0 where
  ok unavailable invalid failed : PlannerOutcomeStatus

pub record PlannerOutcome : Type 0 where
  pub status : PlannerOutcomeStatus
  pub message : Text
  pub plan : Option ResearchPlan

abbrev pub is_ok_outcome : PlannerOutcomeStatus → Bool
is_ok_outcome PlannerOutcomeStatus.ok = true
is_ok_outcome _ = false

abbrev pub is_invalid_outcome : PlannerOutcomeStatus → Bool
is_invalid_outcome PlannerOutcomeStatus.invalid = true
is_invalid_outcome _ = false

abbrev pub is_failed_outcome : PlannerOutcomeStatus → Bool
is_failed_outcome PlannerOutcomeStatus.failed = true
is_failed_outcome _ = false

unfoldable pub outcome_value : PlannerOutcomeStatus → Text
unfolding text
outcome_value PlannerOutcomeStatus.ok = text "ok"
outcome_value PlannerOutcomeStatus.unavailable = text "unavailable"
outcome_value PlannerOutcomeStatus.invalid = text "invalid"
outcome_value PlannerOutcomeStatus.failed = text "failed"

-- PlannerOutcome.__post_init__
unfoldable pub check_outcome : PlannerOutcome → Result PlannerOutcome
unfolding outcome_value text
check_outcome o = do
  let message = normalize o.message
  fail_if (is_empty message || exceeds message 512) "message empty or exceeds bounds"
  fail_if (is_ok_outcome o.status && not (is_some o.plan)) "ok outcomes require a research plan"
  raise_if (not (is_ok_outcome o.status) && is_some o.plan)
      (value_error (outcome_value o.status ++ text " outcomes must not attach a plan"))
  Result.ok (record o { message = message })

pub data ResolutionStatus : Type 0 where
  resolved ambiguous not_found invalid : ResolutionStatus

pub record ResolutionResult : Type 0 where
  pub status : ResolutionStatus
  pub company : Option CompanyIdentity
  pub message : Text

abbrev pub is_resolved : ResolutionStatus → Bool
is_resolved ResolutionStatus.resolved = true
is_resolved _ = false

abbrev pub is_invalid_query : ResolutionStatus → Bool
is_invalid_query ResolutionStatus.invalid = true
is_invalid_query _ = false

pub record CreateResearchPlanQuery : Type 0 where
  pub company_query : CompanyQuery
  pub objective : ResearchObjective
  pub objective_text : Option Text
  pub jurisdiction : Option Text
  pub time_horizon_days : Option ℕ

pub data ResearchPlanStatus : Type 0 where
  ok resolution_blocked invalid budget_exceeded unavailable : ResearchPlanStatus

pub record CreateResearchPlanResult : Type 0 where
  pub status : ResearchPlanStatus
  pub message : Text
  pub request : Option ResearchRequest
  pub plan : Option ResearchPlan
  pub resolution : Option ResolutionResult
  pub budget : Option ResearchExecutionBudget
  pub evaluated_at : Datetime

abbrev pub is_ok_plan : ResearchPlanStatus → Bool
is_ok_plan ResearchPlanStatus.ok = true
is_ok_plan _ = false

unfoldable pub plan_value : ResearchPlanStatus → Text
unfolding text
plan_value ResearchPlanStatus.ok = text "ok"
plan_value ResearchPlanStatus.resolution_blocked = text "resolution_blocked"
plan_value ResearchPlanStatus.invalid = text "invalid"
plan_value ResearchPlanStatus.budget_exceeded = text "budget_exceeded"
plan_value ResearchPlanStatus.unavailable = text "unavailable"

-- CreateResearchPlanResult.__post_init__
unfoldable pub check_plan_result : CreateResearchPlanResult → Result CreateResearchPlanResult
unfolding plan_value text
check_plan_result r = do
  raise_if (not (is_ok_plan r.status) && is_some r.plan)
      (value_error (plan_value r.status ++ text " results must not attach a plan"))
  fail_if (is_ok_plan r.status && not (is_some r.plan)) "ok results require a research plan"
  fail_if (not r.evaluated_at.tz_aware) "evaluated_at must be timezone-aware"
  Result.ok r

-- What `CreateResearchPlan` calls: its clock, the identifiers it makes, the resolution, the planner, and
-- `str` of an exception.
pub record PlanService : Type 0 where
  pub clock : Datetime
  pub run_id : ℕ
  pub request_id : ℕ
  pub resolve : CompanyQuery → ResolutionResult
  pub create_plan : ResearchRequest → PlannerOutcome
  pub budget : ResearchExecutionBudget
  pub upper : Text → Text
  pub error_text : Error → Text

abbrev message_or : Text → Text → Text
message_or [] d = d
message_or (c ∷ cs) d = c ∷ cs

module _ (svc : PlanService) where
  -- The `return CreateResearchPlanResult(…)` without a plan.
  unfoldable pub refuse :
      ResearchPlanStatus
      → Text
      → Option ResearchRequest
      → Option ResolutionResult
      → Option ResearchExecutionBudget
      → Result CreateResearchPlanResult
  unfolding check_plan_result
  refuse status message request resolution budget = check_plan_result (record {
    status = status;
    message = message;
    request = request;
    plan = none;
    resolution = resolution;
    budget = budget;
    evaluated_at = svc.clock;
  })

  abbrev pub is_foreign_plan : CompanyIdentity → ResearchPlan → Bool
  is_foreign_plan company plan =
      not (plan.company_id == company.company_id) || not (plan.research_run_id == svc.run_id)

  -- From the planner's plan on.
  unfoldable pub accept_plan :
      ResearchRequest
      → ResolutionResult
      → CompanyIdentity
      → ResearchPlan
      → Result CreateResearchPlanResult
  unfolding refuse check_plan_result text
  accept_plan request resolution company plan =
      if is_foreign_plan company plan
      then refuse ResearchPlanStatus.unavailable
          (text "planner returned a plan that does not match the request") (some request)
          (some resolution) none
      else check_plan_result (record {
        status = ResearchPlanStatus.ok;
        message = text "research plan created (not executed)";
        request = some request;
        plan = some plan;
        resolution = some resolution;
        budget = some svc.budget;
        evaluated_at = svc.clock;
      })

  abbrev accept_option :
      ResearchRequest
      → ResolutionResult
      → CompanyIdentity
      → PlannerOutcome
      → Option ResearchPlan
      → Result CreateResearchPlanResult
  accept_option request resolution company outcome none =
      refuse ResearchPlanStatus.unavailable outcome.message (some request) (some resolution) none
  accept_option request resolution company outcome (some plan) =
      if is_ok_outcome outcome.status
      then accept_plan request resolution company plan
      else refuse ResearchPlanStatus.unavailable outcome.message (some request) (some resolution)
          none

  -- From the planner's outcome on.
  unfoldable pub judge_outcome :
      ResearchRequest
      → ResolutionResult
      → CompanyIdentity
      → PlannerOutcome
      → Result CreateResearchPlanResult
  unfolding refuse accept_plan text same_text
  judge_outcome request resolution company outcome =
      if is_invalid_outcome outcome.status
      then refuse ResearchPlanStatus.invalid outcome.message (some request) (some resolution) none
      else if is_failed_outcome outcome.status
          && same_text outcome.message (text "plan exceeds the research execution budget")
      then refuse ResearchPlanStatus.budget_exceeded outcome.message (some request)
          (some resolution) (some svc.budget)
      else accept_option request resolution company outcome outcome.plan

  -- The AssertionError of `assert resolution.company is not None`
  abbrev planned_for :
      ResearchRequest → ResolutionResult → Option CompanyIdentity → Result CreateResearchPlanResult
  planned_for request resolution none = err (value_error (text "AssertionError"))
  planned_for request resolution (some company) =
      judge_outcome request resolution company (svc.create_plan request)

  -- From the request on.
  unfoldable pub plan_request : CompanyQuery → ResearchRequest → Result CreateResearchPlanResult
  unfolding refuse judge_outcome text
  plan_request query request =
      let resolution = svc.resolve query in
      if is_invalid_query resolution.status
      then refuse ResearchPlanStatus.invalid
          (message_or resolution.message (text "invalid company query")) (some request)
          (some resolution) none
      else if not (is_resolved resolution.status)
      then refuse ResearchPlanStatus.resolution_blocked
          (text "research plan withheld until company identity is uniquely resolved") (some request)
          (some resolution) none
      else planned_for request resolution resolution.company

  abbrev pub request_or_refuse :
      CompanyQuery → Result ResearchRequest → Result CreateResearchPlanResult
  request_or_refuse query (err e) =
      refuse ResearchPlanStatus.invalid (svc.error_text e) none none none
  request_or_refuse query (Result.ok request) = plan_request query request

  -- CreateResearchPlan.execute
  unfoldable pub create_plan : CreateResearchPlanQuery → Result CreateResearchPlanResult
  unfolding check_research_request refuse plan_request
  create_plan q = do
    fail_if (not svc.clock.tz_aware) "clock must return timezone-aware datetime"
    request_or_refuse q.company_query (
        check_research_request svc.upper (record {
          request_id = svc.request_id;
          research_run_id = svc.run_id;
          objective = q.objective;
          company_query = q.company_query;
          created_at = svc.clock;
          objective_text = q.objective_text;
          jurisdiction = q.jurisdiction;
          time_horizon_days = q.time_horizon_days;
        }))
