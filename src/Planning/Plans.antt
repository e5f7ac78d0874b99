-- ===== src/Planning/Plans.antt =====
-- The plans that come out of a model's text
-- (src/financial_intelligence/infrastructure/orchestration/llm_planner_adapter.py).
use agentic_equity_research.Prelude.{
  ℕ, suc, ◌+◌, ◌≡◌, refl, ap, true, inl, inr, some, List, [], ◌∷◌, length, All, Elem, Elem-All,
  All-map, Elem-keep, Result, ok, err, arith, Bool-cases, >>=-eq-ok, ok-inj,
}
use mathlib.Core.Path.{subst}
use Prim.Native.String.{String}
use agentic_equity_research.Text.{Text, same_text, has_text, strip}
use agentic_equity_research.Task.{TaskStatus, ResearchTask, Datetime, check_task}
use agentic_equity_research.Graph.{task_ids, validate_task_graph}
use agentic_equity_research.Graph.Topological.{topological_order}
use agentic_equity_research.Graph.Topological.Run.{IsSorted}
use agentic_equity_research.Graph.Topological.Order.{topological_order-IsSorted}
use agentic_equity_research.Graph.Visits.{occurs}
use agentic_equity_research.Graph.Acyclic.{Needs, IsAcyclic, validate_task_graph-IsAcyclic}
use agentic_equity_research.Budget.{validate_tasks}
use agentic_equity_research.Plan.{PlanStatus, ResearchPlan, check_plan}
use agentic_equity_research.Planning.{Loaded, PlannerTaskSpec, parse}
use agentic_equity_research.Planning.Adapter.{
  CapabilityDescriptor, get_capability, is_eligible, planner_capabilities, choose_capability,
  new_task, build_task, build_tasks, fail_when, classified, or_fail, PlanInput, new_plan,
  tasks_of_content, plan_of_content,
}

get_capability-Elem :
    (cs : List CapabilityDescriptor) (key : Text) {c : CapabilityDescriptor}
    → get_capability cs key ≡ some c
    → Elem c cs
unfolding get_capability
get_capability-Elem [] key h = cc
get_capability-Elem (d ∷ cs) key {c} h = elim (Bool-cases (same_text d.capability_id key)) [
  | inl e ↦ let same : d ≡ c = ground arith in subst (λ x. Elem x (d ∷ cs)) same Elem.here
  | inr e ↦ Elem.there (get_capability-Elem cs key (ground arith))
]

-- A task that the planner may ask for: an available capability of the registry other than the
-- resolution of the company, with one attempt.
pub record Offered (registry : List CapabilityDescriptor) (t : ResearchTask) : Type 0 where
  pub capability : CapabilityDescriptor
  pub member : Elem capability registry
  pub eligible : is_eligible capability ≡ true
  pub same_type : t.task_type ≡ capability.task_type
  pub same_id : t.capability_id ≡ strip capability.capability_id
  pub is_pending : t.status ≡ TaskStatus.pending
  pub one_attempt : t.max_attempts ≡ 1

choose_capability-Elem :
    (registry : List CapabilityDescriptor) (key : Text) {c : CapabilityDescriptor}
    → choose_capability registry key ≡ ok c
    → Elem c registry × (is_eligible c ≡ true)
unfolding choose_capability
choose_capability-Elem registry key {c} h =
    Elem-keep is_eligible c registry
      (get_capability-Elem (planner_capabilities registry) key (ground arith))

build_task_parts :
    (ids : List ℕ) (count : ℕ) (at : Datetime) (index : ℕ) (c : CapabilityDescriptor)
    (spec : PlannerTaskSpec) {t : ResearchTask}
    → build_task ids count at index c spec ≡ ok t
    → (t.task_type ≡ c.task_type)
      × (t.capability_id ≡ strip c.capability_id)
      × (t.status ≡ TaskStatus.pending)
      × (t.max_attempts ≡ 1)
unfolding build_task check_task new_task
build_task_parts ids count at index c spec h = ground arith

build_tasks-Offered :
    (registry : List CapabilityDescriptor) (ids : List ℕ) (count : ℕ) (at : Datetime) (index : ℕ)
    (seen : List Text) (specs : List PlannerTaskSpec) {tasks : List ResearchTask}
    → build_tasks registry ids count at index seen specs ≡ ok tasks
    → All (Offered registry) tasks × (length tasks ≡ length specs)
unfolding build_tasks
build_tasks-Offered registry ids count at index seen [] h =
    subst (λ ts. All (Offered registry) ts × (length ts ≡ 0)) (ok-inj h) (tt, refl)
build_tasks-Offered registry ids count at index seen (spec ∷ specs) h =
    let (c, chosen, h1) = >>=-eq-ok (choose_capability registry spec.capability_id) _ h in
    let (_, _, h2) =
      >>=-eq-ok
        (fail_when (has_text c.capability_id seen) "planner requested a duplicate capability") _
        h1 in
    let (t, built, h3) = >>=-eq-ok (build_task ids count at index c spec) _ h2 in
    let (rest, later, h4) =
      >>=-eq-ok (build_tasks registry ids count at (index + 1) (c.capability_id ∷ seen) specs) _
        h3 in
    let (member, eligible) = choose_capability-Elem registry spec.capability_id chosen in
    let (same_type, same_id, pending, attempts) =
      build_task_parts ids count at index c spec built in
    let (all, same_length) =
      build_tasks-Offered registry ids count at (index + 1) (c.capability_id ∷ seen) specs later in
    subst (λ ts. All (Offered registry) ts × (length ts ≡ suc (length specs))) (ok-inj h4)
      (
        (
          record {
            capability = c;
            member = member;
            eligible = eligible;
            same_type = same_type;
            same_id = same_id;
            is_pending = pending;
            one_attempt = attempts;
          },
          all,
        ),
        ap suc same_length,
      )

or_fail-eq-ok :
    {A : Type 0} (call : Result A) (message : String) {a : A}
    → or_fail call message ≡ ok a
    → call ≡ ok a
or_fail-eq-ok (err e) message h = cc
or_fail-eq-ok (ok b) message h = h

-- A plan as `_plan` returns it, whatever the model has written.
pub record Planned (loads : Text → Loaded) (input : PlanInput) (content : Text)
    (plan : ResearchPlan) : Type 0 where
  pub tasks : List ResearchTask
  pub read : tasks_of_content loads input content ≡ ok tasks
  pub affordable : validate_tasks input.budget tasks ≡ ok tt
  pub members : All (λ t. Elem t tasks) plan.tasks
  pub all_there : (k : ℕ) → occurs k (task_ids plan.tasks) ≡ occurs k (task_ids tasks)
  pub sorted : IsSorted [] plan.tasks
  pub acyclic : IsAcyclic plan.tasks
  pub offered : All (Offered input.registry) plan.tasks
  pub is_ready : plan.status ≡ PlanStatus.ready
  pub same_company : plan.company_id ≡ input.company_id
  pub same_run : plan.research_run_id ≡ input.research_run_id

checked_plan :
    (p : ResearchPlan) {plan : ResearchPlan}
    → check_plan p ≡ ok plan
    → (topological_order p.tasks ≡ ok plan.tasks)
      × (plan.status ≡ p.status)
      × (plan.company_id ≡ p.company_id)
      × (plan.research_run_id ≡ p.research_run_id)
unfolding check_plan
checked_plan p h = ground arith

-- What holds of the dependencies among some of the tasks holds among all.
Needs-members :
    (tasks some_tasks : List ResearchTask)
    → All (λ t. Elem t tasks) some_tasks
    → {a b : ℕ} → Needs some_tasks a b
    → Needs tasks a b
Needs-members tasks some_tasks h (Needs.direct m c) =
    Needs.direct (Elem-All (λ t. Elem t tasks) m h) c
Needs-members tasks some_tasks h (Needs.through m n) =
    Needs.through (Needs-members tasks some_tasks h m) (Needs-members tasks some_tasks h n)

tasks_of_content-Offered :
    (loads : Text → Loaded) (input : PlanInput) (content : Text) {tasks : List ResearchTask}
    → tasks_of_content loads input content ≡ ok tasks
    → All (Offered input.registry) tasks
unfolding tasks_of_content
tasks_of_content-Offered loads input content h =
    let (specs, _, h1) = >>=-eq-ok (classified (parse loads content)) _ h in
    (build_tasks-Offered input.registry input.ids (length specs) input.created_at 0 [] specs h1).0

-- Whatever text a model answers, a plan that is made of it is ready, for the company and the run of the
-- request, has no cycle, lists each task after its dependencies, and asks only for available
-- capabilities of the registry other than the resolution of the company, with one attempt each. Its
-- tasks are those that are read from the text, which are within the budget.
pub plan_of_content-Planned :
    (loads : Text → Loaded) (input : PlanInput) (content : Text) {plan : ResearchPlan}
    → plan_of_content loads input content ≡ ok plan
    → Planned loads input content plan
unfolding plan_of_content new_plan
plan_of_content-Planned loads input content {plan} h =
    let (tasks, read, h1) = >>=-eq-ok (tasks_of_content loads input content) _ h in
    let (_, graph, h2) =
      >>=-eq-ok (or_fail (validate_task_graph tasks) "planner dependency graph is invalid") _ h1 in
    let (_, affordable, h3) =
      >>=-eq-ok
        (or_fail (validate_tasks input.budget tasks) "plan exceeds the research execution budget") _
        h2 in
    let (ordered, is_ready, company, run) =
      checked_plan (new_plan input tasks) (or_fail-eq-ok _ _ h3) in
    let (sorted, members, all_there) =
      topological_order-IsSorted tasks {result = plan.tasks} ordered in
    record {
      tasks = tasks;
      read = read;
      affordable = or_fail-eq-ok _ _ affordable;
      members = members;
      all_there = all_there;
      sorted = sorted;
      acyclic = λ k needs.
          validate_task_graph-IsAcyclic tasks (or_fail-eq-ok _ _ graph) k
            (Needs-members tasks plan.tasks members needs);
      offered =
          All-map (λ t. Elem t tasks) (Offered input.registry) plan.tasks
            (λ t m.
              Elem-All (Offered input.registry) m
                (tasks_of_content-Offered loads input content read))
            members;
      is_ready = is_ready;
      same_company = company;
      same_run = run;
    }
