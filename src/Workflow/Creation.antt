-- ===== src/Workflow/Creation.antt =====
-- What `CreateResearchWorkflow` stores and answers
-- (src/financial_intelligence/application/create_research_workflow.py).
use agentic_equity_research.Prelude.{
  ℕ, ◌≡◌, refl, sym, ap, ◌∙◌, Bool, true, false, not, ◌||◌, inl, inr, ◌⊎◌, Option, none, some,
  arith, raise_if, naive_timestamp, Error, Result, err, >>=-eq-ok, Result-cases,
}
use mathlib.Core.Path.{subst}
use agentic_equity_research.Text.{Text, text}
use agentic_equity_research.Task.{Datetime}
use agentic_equity_research.Plan.{ResearchObjective, ResearchPlan}
use agentic_equity_research.Planning.Create.{
  ResearchRequest, CreateResearchPlanResult, ResearchPlanStatus, PlanService, create_plan,
}
use agentic_equity_research.Workflow.{
  ApprovalStatus, WorkflowStatus, WorkflowStatus, ApprovalRequirement, check_requirement,
  WorkflowCompanyQuery, check_company_query, ResearchWorkflow, check_workflow, with_workflow_status,
}
use agentic_equity_research.Workflow.Store.{Store, save_workflow}
use agentic_equity_research.Workflow.World.{World, Action, lift, go_on, ◌>>=◌, store_call}
use agentic_equity_research.Workflow.Manage.{
  Services, WorkflowOperationStatus, WorkflowOperationResult, answer, notify,
  check_operation_result,
}
use agentic_equity_research.Workflow.Manage.Answers.{saved}
use agentic_equity_research.Workflow.Create.{
  CreateResearchWorkflowQuery, evaluate_policy, first_status, first_approval, new_workflow,
  build_workflow, announce_approval, store_plan, use_result, store_option, message_or,
  create_workflow,
}

abbrev is_comprehensive : ResearchObjective → Bool
is_comprehensive ResearchObjective.comprehensive_equity_research = true
is_comprehensive _ = false

evaluate_policy-required :
    (objective : ResearchObjective) (asked : Bool) {r : ApprovalRequirement}
    → evaluate_policy objective asked ≡ Result.ok r
    → r.required ≡ (asked || is_comprehensive objective)
unfolding evaluate_policy check_requirement
evaluate_policy-required objective true h = ground arith
evaluate_policy-required ResearchObjective.comprehensive_equity_research false h = ground arith
evaluate_policy-required _ false h = ground arith

-- The workflow that is built from a plan.
record Built (q : CreateResearchWorkflowQuery) (plan : ResearchPlan) (request_id key : ℕ)
    (v : ResearchWorkflow) : Type 0 where
  own_key : v.workflow_id ≡ key
  own_request : v.request_id ≡ request_id
  same_plan : v.plan ≡ plan
  same_run : v.research_run_id ≡ plan.research_run_id
  same_company : v.company_id ≡ plan.company_id
  required_iff :
      v.approval_requirement.required
      ≡ (q.require_approval || is_comprehensive q.plan_query.objective)
  status_by : v.status ≡ first_status v.approval_requirement
  approval_by : v.approval_status ≡ first_approval v.approval_requirement

with_status_parts :
    (x : ResearchWorkflow) (status : WorkflowStatus) (now : Datetime) {v : ResearchWorkflow}
    → with_workflow_status x status now ≡ Result.ok v
    → v ≡ record x { status = status; updated_at = now }
unfolding with_workflow_status check_workflow
with_status_parts x status now h = ground arith

check_workflow-same :
    (x : ResearchWorkflow) {v : ResearchWorkflow} → check_workflow x ≡ Result.ok v → v ≡ x
unfolding check_workflow
check_workflow-same x h = ground arith

abbrev first_change : ApprovalRequirement → Datetime → ResearchWorkflow → ResearchWorkflow
first_change requirement now x = record x { status = first_status requirement; updated_at = now }

new_workflow-Built :
    (q : CreateResearchWorkflowQuery) (plan : ResearchPlan) (request_id key : ℕ)
    (company_query : WorkflowCompanyQuery) (requirement : ApprovalRequirement) (now : Datetime)
    → requirement.required ≡ (q.require_approval || is_comprehensive q.plan_query.objective)
    → Built q plan request_id key
        (record (new_workflow key plan request_id q.plan_query.objective company_query requirement
          now) { status = first_status requirement; updated_at = now })
unfolding new_workflow
new_workflow-Built q plan request_id key company_query requirement now required = record {
  own_key = refl;
  own_request = refl;
  same_plan = refl;
  same_run = refl;
  same_company = refl;
  required_iff = required;
  status_by = refl;
  approval_by = refl;
}

build_workflow-Built :
    (q : CreateResearchWorkflowQuery) (plan : ResearchPlan) (request_id key : ℕ) (now : Datetime)
    {v : ResearchWorkflow}
    → build_workflow q plan request_id key now ≡ Result.ok v
    → Built q plan request_id key v
unfolding build_workflow new_workflow
build_workflow-Built q plan request_id key now h =
    let (requirement, required, h1) =
      >>=-eq-ok (evaluate_policy q.plan_query.objective q.require_approval) _ h in
    let (company_query, _, h2) = >>=-eq-ok (check_company_query _) _ h1 in
    let (x, made, h3) =
      >>=-eq-ok
        (check_workflow
          (new_workflow key plan request_id q.plan_query.objective company_query requirement now))
        _ h2 in
    let policy = evaluate_policy-required q.plan_query.objective q.require_approval required in
    let same = with_status_parts x (first_status requirement) now h3 in
    let start =
      check_workflow-same
        (new_workflow key plan request_id q.plan_query.objective company_query requirement now)
        made in
    subst (Built q plan request_id key) (sym (same ∙ ap (first_change requirement now) start))
      (new_workflow-Built q plan request_id key company_query requirement now policy)

-- What a call of the creation has done.
pub record Created (q : CreateResearchWorkflowQuery) (key : ℕ) (w w' : World)
    (r : WorkflowOperationResult) : Type 0 where
  pub workflow : ResearchWorkflow
  pub has_workflow : r.workflow ≡ some workflow
  pub own_key : workflow.workflow_id ≡ key
  pub is_stored : w'.store ≡ saved workflow w.store
  pub same_memory : w'.memory ≡ w.memory
  pub same_run : workflow.research_run_id ≡ workflow.plan.research_run_id
  pub same_company : workflow.company_id ≡ workflow.plan.company_id
  pub required_iff :
      workflow.approval_requirement.required
      ≡ (q.require_approval || is_comprehensive q.plan_query.objective)
  pub waits :
      workflow.approval_requirement.required ≡ true
      → (workflow.status ≡ WorkflowStatus.awaiting_approval)
        × (workflow.approval_status ≡ ApprovalStatus.pending)
  pub starts :
      workflow.approval_requirement.required ≡ false
      → (workflow.status ≡ WorkflowStatus.ready)
        × (workflow.approval_status ≡ ApprovalStatus.not_required)

save_workflow-saved :
    (v : ResearchWorkflow) (s : Store) {t : Store} → save_workflow v s ≡ Result.ok t → t ≡ saved v s
unfolding save_workflow
save_workflow-saved v s h = ground arith

module _ (svc : Services) (plans : PlanService) where
  announce_approval-same :
      (v : ResearchWorkflow) (now : Datetime) (w : World)
      → ((announce_approval svc plans v now w).0 ≡ Result.ok tt)
        × ((announce_approval svc plans v now w).1.store ≡ w.store)
        × ((announce_approval svc plans v now w).1.memory ≡ w.memory)
  unfolding announce_approval notify
  announce_approval-same v now w = ground arith

  err_ok : {B : Type 0} {e : Error} {b : B} → err e ≡ Result.ok b → ⊥
  err_ok h = cc

  go_on_parts :
      {A B : Type 0} (r : Result A) (f : A → Action B) (w1 : World) {b : B} {w' : World}
      → go_on r f w1 ≡ (Result.ok b, w')
      → (a : A) × (r ≡ Result.ok a) × (f a w1 ≡ (Result.ok b, w'))
  go_on_parts (Result.ok a) f w1 h = (a, refl, h)
  go_on_parts (err e) f w1 h = absurd (err_ok (ap (λ p. p.0) h))

  -- The parts of an action that returns.
  bind_parts :
      {A B : Type 0} (m : Action A) (f : A → Action B) (w : World) {b : B} {w' : World}
      → (m >>= f) w ≡ (Result.ok b, w')
      → (a : A) × (w1 : World) × (m w ≡ (Result.ok a, w1)) × (f a w1 ≡ (Result.ok b, w'))
  unfolding ◌>>=◌
  bind_parts m f w h =
      let (a, e, k) = go_on_parts (m w).0 f (m w).1 h in (a, (m w).1, ap (λ x. (x, (m w).1)) e, k)

  lift_parts :
      {A : Type 0} (call : Result A) (w : World) {a : A} {w1 : World}
      → lift call w ≡ (Result.ok a, w1)
      → (call ≡ Result.ok a) × (w ≡ w1)
  unfolding lift
  lift_parts call w h = ground arith

  store_call_parts :
      (f : Store → Result Store) (w : World) {w1 : World}
      → store_call f w ≡ (Result.ok tt, w1)
      → (s : Store) × (f w.store ≡ Result.ok s) × (w1 ≡ record w { store = s })
  unfolding store_call
  store_call_parts f w h = elim (Result-cases (f w.store)) [
    | inl (s, e) ↦ (s, e, ground arith)
    | inr (raised, e) ↦ ground arith
  ]

  answered :
      (status : WorkflowOperationStatus) (message : Text) (v : Option ResearchWorkflow)
      (now : Datetime) (w : World) {r : WorkflowOperationResult} {w' : World}
      → answer status message v now w ≡ (Result.ok r, w')
      → (r.status ≡ status) × (r.workflow ≡ v) × (w' ≡ w)
  unfolding answer check_operation_result lift
  answered status message v now w h = ground arith

  stored_chain :
      (v : ResearchWorkflow) {w w1 w2 w3 w' : World} {s : Store}
      → w ≡ w1
      → s ≡ saved v w1.store
      → w2 ≡ record w1 { store = s }
      → w3.store ≡ w2.store
      → w3.memory ≡ w2.memory
      → w' ≡ w3
      → (w'.store ≡ saved v w.store) × (w'.memory ≡ w.memory)
  stored_chain v a b c d e f = (
    ap (λ x. x.store) f ∙ d ∙ ap (λ x. x.store) c ∙ b ∙ ap (λ x. saved v x.store) (sym a),
    ap (λ x. x.memory) f ∙ e ∙ ap (λ x. x.memory) c ∙ ap (λ x. x.memory) (sym a),
  )

  without_workflow :
      (status : WorkflowOperationStatus) (message : Text) (now : Datetime) (w : World)
      {r : WorkflowOperationResult} {w' : World}
      → answer status message none now w ≡ (Result.ok r, w')
      → (r.workflow ≡ none) × (w' ≡ w)
  without_workflow status message now w h =
      let (_, a, b) = answered status message none now w h in (a, b)

  store_plan-Created :
      (q : CreateResearchWorkflowQuery) (plan : ResearchPlan) (request_id : ℕ) (now : Datetime)
      (w : World) {r : WorkflowOperationResult} {w' : World}
      → store_plan svc plans q plan request_id now w ≡ (Result.ok r, w')
      → (r.status ≡ WorkflowOperationStatus.ok) × Created q (svc.fresh_id 0) w w' r
  unfolding store_plan
  store_plan-Created q plan request_id now w h =
      let (v, w1, building, h1) =
        bind_parts (lift (build_workflow q plan request_id (svc.fresh_id 0) now)) _ w h in
      let (_, w2, storing, h2) = bind_parts (store_call (save_workflow v)) _ w1 h1 in
      let (_, w3, announcing, h3) = bind_parts (announce_approval svc plans v now) _ w2 h2 in
      let (status, workflow, same) = answered _ _ (some v) now w3 h3 in
      let (built, same1) =
        lift_parts (build_workflow q plan request_id (svc.fresh_id 0) now) w building in
      let (s, saving, same2) = store_call_parts (save_workflow v) w1 storing in
      let b = build_workflow-Built q plan request_id (svc.fresh_id 0) now built in
      let (_, store3, memory3) = announce_approval-same v now w2 in
      let third = ap (λ p. p.1) (sym announcing) in
      let chain =
        stored_chain v same1 (save_workflow-saved v w1.store saving) same2
          (ap (λ x. x.store) third ∙ store3) (ap (λ x. x.memory) third ∙ memory3) same in
      (
        status,
        record {
          workflow = v;
          has_workflow = workflow;
          own_key = b.own_key;
          is_stored = chain.0;
          same_memory = chain.1;
          same_run = b.same_run ∙ ap (λ p. p.research_run_id) (sym b.same_plan);
          same_company = b.same_company ∙ ap (λ p. p.company_id) (sym b.same_plan);
          required_iff = b.required_iff;
          waits = λ e. (b.status_by ∙ rw e refl, b.approval_by ∙ rw e refl);
          starts = λ e. (b.status_by ∙ rw e refl, b.approval_by ∙ rw e refl);
        },
      )

  option_cases :
      (q : CreateResearchWorkflowQuery) (p : CreateResearchPlanResult) (now : Datetime)
      (o : Option ResearchPlan) (request : Option ResearchRequest)
      → p.plan ≡ o
      → (w : World) {r : WorkflowOperationResult} {w' : World}
      → store_option svc plans q p now o request w ≡ (Result.ok r, w')
      → ((r.workflow ≡ none) × (w' ≡ w))
        ⊎ ((plan : ResearchPlan) × (request : ResearchRequest) × (p.plan ≡ some plan)
            × (store_plan svc plans q plan request.request_id now w ≡ (Result.ok r, w')))
  unfolding lift
  option_cases q p now none request e w h = inl (
      without_workflow WorkflowOperationStatus.failed
        (message_or p.message (text "plan unavailable")) now w h)
  option_cases q p now (some plan) none e w h = absurd (err_ok (ap (λ x. x.0) h))
  option_cases q p now (some plan) (some request) e w h = inr (plan, request, e, h)

  use_result-cases :
      (q : CreateResearchWorkflowQuery) (p : CreateResearchPlanResult) (now : Datetime)
      (status : ResearchPlanStatus) (w : World) {r : WorkflowOperationResult} {w' : World}
      → use_result svc plans q p now status w ≡ (Result.ok r, w')
      → ((r.workflow ≡ none) × (w' ≡ w))
        ⊎ ((plan : ResearchPlan) × (request : ResearchRequest) × (p.plan ≡ some plan)
            × (store_plan svc plans q plan request.request_id now w ≡ (Result.ok r, w')))
  unfolding use_result
  use_result-cases q p now ResearchPlanStatus.invalid w h =
      inl (without_workflow WorkflowOperationStatus.invalid p.message now w h)
  use_result-cases q p now ResearchPlanStatus.resolution_blocked w h =
      inl (without_workflow WorkflowOperationStatus.resolution_blocked p.message now w h)
  use_result-cases q p now ResearchPlanStatus.budget_exceeded w h = inl (
      without_workflow WorkflowOperationStatus.failed
        (message_or p.message (text "plan unavailable")) now w h)
  use_result-cases q p now ResearchPlanStatus.unavailable w h = inl (
      without_workflow WorkflowOperationStatus.failed
        (message_or p.message (text "plan unavailable")) now w h)
  use_result-cases q p now ResearchPlanStatus.ok w h =
      option_cases q p now p.plan p.request refl w h

  -- An answer of the creation of a workflow, with a plan that is given or made, either has no workflow
  -- and left everything as it was, or is OK, and its workflow is stored under a fresh identifier, for
  -- the run and the company of its plan: it awaits approval just if approval was asked for or the
  -- objective is the comprehensive one, and is ready otherwise.
  pub create_workflow-Created :
      (q : CreateResearchWorkflowQuery) (prepared : Option (ResearchPlan × ℕ)) (w : World)
      {r : WorkflowOperationResult} {w' : World}
      → create_workflow svc plans q prepared w ≡ (Result.ok r, w')
      → ((r.workflow ≡ none) × (w' ≡ w))
        ⊎ ((r.status ≡ WorkflowOperationStatus.ok) × Created q (svc.fresh_id 0) w w' r)
  unfolding create_workflow
  create_workflow-Created q (some (plan, request_id)) w {r} {w'} h =
      let (_, w1, checked, h1) =
        bind_parts (lift (raise_if (not (svc.clock 0).tz_aware) naive_timestamp)) _ w h in
      let same = (lift_parts _ w checked).1 in
      inr (
        subst (λ x. (r.status ≡ WorkflowOperationStatus.ok) × Created q (svc.fresh_id 0) x w' r)
          (sym same) (store_plan-Created q plan request_id (svc.clock 0) w1 h1))
  create_workflow-Created q none w {r} {w'} h =
      let (_, w1, checked, h1) =
        bind_parts (lift (raise_if (not (svc.clock 0).tz_aware) naive_timestamp)) _ w h in
      let (p, w2, planning, h2) = bind_parts (lift (create_plan plans q.plan_query)) _ w1 h1 in
      let same = (lift_parts _ w checked).1 ∙ (lift_parts _ w1 planning).1 in
      subst
        (λ x.
          ((r.workflow ≡ none) × (w' ≡ x))
          ⊎ ((r.status ≡ WorkflowOperationStatus.ok) × Created q (svc.fresh_id 0) x w' r))
        (sym same)
        (elim (use_result-cases q p (svc.clock 0) p.status w2 h2) [
          | inl kept ↦ inl kept
          | inr (plan, request, _, storing) ↦
              inr (store_plan-Created q plan request.request_id (svc.clock 0) w2 storing)
        ])
