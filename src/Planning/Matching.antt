-- ===== src/Planning/Matching.antt =====
-- What `CreateResearchPlan` returns (src/financial_intelligence/application/create_research_plan.py).
use agentic_equity_research.Prelude.{
  ◌≡◌, not, inl, inr, some, arith, Result, err, ok, Option-cases, >>=-eq-ok,
}
use agentic_equity_research.Text.{fail_if}
use agentic_equity_research.Execution.{CompanyIdentity}
use agentic_equity_research.Plan.{ResearchPlan}
use agentic_equity_research.Planning.Create.{
  CompanyQuery, ResearchRequest, PlannerOutcome, ResolutionStatus, ResolutionResult,
  CreateResearchPlanQuery, ResearchPlanStatus, CreateResearchPlanResult, PlanService, refuse,
  accept_plan, judge_outcome, plan_request, create_plan, request_or_refuse, check_plan_result,
}

-- A result with a plan has the plan of the resolved company and of the prepared run, from the planner.
pub record Matches (svc : PlanService) (query : CompanyQuery) (r : CreateResearchPlanResult)
    : Type 0 where
  pub plan : ResearchPlan
  pub request : ResearchRequest
  pub company : CompanyIdentity
  pub has_plan : r.plan ≡ some plan
  pub has_request : r.request ≡ some request
  pub has_resolution : r.resolution ≡ some (svc.resolve query)
  pub planned : (svc.create_plan request).plan ≡ some plan
  pub was_resolved : (svc.resolve query).status ≡ ResolutionStatus.resolved
  pub has_company : (svc.resolve query).company ≡ some company
  pub same_company : plan.company_id ≡ company.company_id
  pub same_run : plan.research_run_id ≡ svc.run_id

module _ (svc : PlanService) where
  accepted :
      (request : ResearchRequest) (resolution : ResolutionResult) (company : CompanyIdentity)
      (plan : ResearchPlan) {r : CreateResearchPlanResult}
      → accept_plan svc request resolution company plan ≡ ok r
      → r.status ≡ ResearchPlanStatus.ok
      → (r.plan ≡ some plan)
        × (r.request ≡ some request)
        × (r.resolution ≡ some resolution)
        × (plan.company_id ≡ company.company_id)
        × (plan.research_run_id ≡ svc.run_id)
  unfolding accept_plan refuse check_plan_result
  accepted request resolution company plan h is_ok = ground arith

  judged :
      (request : ResearchRequest) (resolution : ResolutionResult) (company : CompanyIdentity)
      (o : PlannerOutcome) {r : CreateResearchPlanResult}
      → judge_outcome svc request resolution company o ≡ ok r
      → r.status ≡ ResearchPlanStatus.ok
      → (plan : ResearchPlan) × (o.plan ≡ some plan)
        × (accept_plan svc request resolution company plan ≡ ok r)
  unfolding judge_outcome refuse check_plan_result
  judged request resolution company o h is_ok = elim (Option-cases o.plan) [
    | inl e ↦ ground arith
    | inr (plan, e) ↦ (plan, e, ground arith)
  ]

  requested :
      (query : CompanyQuery) (request : ResearchRequest) {r : CreateResearchPlanResult}
      → plan_request svc query request ≡ ok r
      → r.status ≡ ResearchPlanStatus.ok
      → (company : CompanyIdentity) × ((svc.resolve query).company ≡ some company)
        × ((svc.resolve query).status ≡ ResolutionStatus.resolved)
        × (judge_outcome svc request (svc.resolve query) company (svc.create_plan request) ≡ ok r)
  unfolding plan_request refuse check_plan_result
  requested query request h is_ok = elim (Option-cases (svc.resolve query).company) [
    | inl e ↦ ground arith
    | inr (company, e) ↦ (company, e, ground arith, ground arith)
  ]

  from_request :
      (query : CompanyQuery) (call : Result ResearchRequest) {r : CreateResearchPlanResult}
      → request_or_refuse svc query call ≡ ok r
      → r.status ≡ ResearchPlanStatus.ok
      → (request : ResearchRequest) × (plan_request svc query request ≡ ok r)
  unfolding refuse check_plan_result
  from_request query (err e) h is_ok = ground arith
  from_request query (ok request) h is_ok = (request, h)

  request_made :
      (q : CreateResearchPlanQuery) {r : CreateResearchPlanResult}
      → create_plan svc q ≡ ok r
      → r.status ≡ ResearchPlanStatus.ok
      → (request : ResearchRequest) × (plan_request svc q.company_query request ≡ ok r)
  unfolding create_plan refuse check_plan_result
  request_made q h is_ok =
      let (_, _, h1) =
        >>=-eq-ok (fail_if (not svc.clock.tz_aware) "clock must return timezone-aware datetime") _
          h in
      from_request q.company_query _ h1 is_ok

  -- A plan is returned as OK only for a company that was resolved, and it is the planner's plan for the
  -- request, of that company and of the prepared run.
  pub create_plan-Matches :
      (q : CreateResearchPlanQuery) {r : CreateResearchPlanResult}
      → create_plan svc q ≡ ok r
      → r.status ≡ ResearchPlanStatus.ok
      → Matches svc q.company_query r
  create_plan-Matches q h is_ok =
      let (request, requesting) = request_made q h is_ok in
      let (company, has_company, resolved, judging) =
        requested q.company_query request requesting is_ok in
      let (plan, planned, accepting) =
        judged request (svc.resolve q.company_query) company (svc.create_plan request) judging
          is_ok in
      let (has_plan, has_request, has_resolution, same_company, same_run) =
        accepted request (svc.resolve q.company_query) company plan accepting is_ok in
      record {
        plan = plan;
        request = request;
        company = company;
        has_plan = has_plan;
        has_request = has_request;
        has_resolution = has_resolution;
        planned = planned;
        was_resolved = resolved;
        has_company = has_company;
        same_company = same_company;
        same_run = same_run;
      }
