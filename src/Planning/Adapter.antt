-- ===== src/Planning/Adapter.antt =====
-- From the text of the model to a plan: `_build_tasks` and the second half of `LlmPlannerAdapter._plan`
-- (src/financial_intelligence/infrastructure/orchestration/llm_planner_adapter.py), with the registry of
-- capabilities (src/financial_intelligence/application/capability_registry.py).
use agentic_equity_research.Prelude.{
  ℕ, zero, suc, ◌+◌, Bool, true, false, not, ◌&&◌, ◌||◌, Option, none, some, List, [], ◌∷◌, ◌++◌,
  leb, ◌==◌, length, any, keep, Result, ok, err, raise_if, ◌>>=◌, ◌>>◌, if◌then◌else◌,
  PlannerOutputErrorKind, planner_output, planner_failure, value_error, missing_key,
}
use Prim.Native.String.{String}
use agentic_equity_research.Text.{Text, text, same_text, has_text}
use agentic_equity_research.Task.{TaskStatus, TaskType, ResearchTask, Datetime, check_task}
use agentic_equity_research.Graph.{validate_task_graph}
use agentic_equity_research.Budget.{ResearchExecutionBudget, validate_tasks}
use agentic_equity_research.Plan.{ResearchObjective, PlanStatus, ResearchPlan, check_plan}
use agentic_equity_research.Planning.{Loaded, PlannerTaskSpec, parse}

pub data CapabilityAvailability : Type 0 where
  available degraded unavailable : CapabilityAvailability

pub record CapabilityDescriptor : Type 0 where
  pub capability_id : Text
  pub description : Text
  pub availability : CapabilityAvailability
  pub required_inputs : List Text
  pub produced_output_type : Text
  pub task_type : TaskType

abbrev pub is_unavailable : CapabilityAvailability → Bool
is_unavailable CapabilityAvailability.unavailable = true
is_unavailable _ = false

abbrev pub is_resolution : TaskType → Bool
is_resolution TaskType.company_resolution = true
is_resolution _ = false

abbrev registered : List CapabilityDescriptor → List Text
registered [] = []
registered (c ∷ cs) = c.capability_id ∷ registered cs

-- The loop of CapabilityRegistry.__init__; the registry is its capabilities in their order.
unfoldable pub check_registry : List Text → List CapabilityDescriptor → Result (Unit {0})
unfolding same_text text
check_registry seen [] = ok tt
check_registry seen (c ∷ cs) = do
  raise_if (has_text c.capability_id seen)
      (value_error (text "duplicate capability_id: " ++ c.capability_id))
  check_registry (c.capability_id ∷ seen) cs

-- CapabilityRegistry.get
unfoldable pub get_capability : List CapabilityDescriptor → Text → Option CapabilityDescriptor
unfolding same_text
get_capability [] key = none
get_capability (c ∷ cs) key =
    let rest = get_capability cs key in if same_text c.capability_id key then some c else rest

abbrev pub is_eligible : CapabilityDescriptor → Bool
is_eligible c = not (is_unavailable c.availability) && not (is_resolution c.task_type)

-- `_planner_capabilities`, which only a lookup by identifier reads here: their order does not matter.
abbrev pub planner_capabilities : List CapabilityDescriptor → List CapabilityDescriptor
planner_capabilities registry = keep is_eligible registry

-- raise _fail(message)
abbrev fail {ℓ} : {A : Type ℓ} → String → Result A
fail message = err (planner_failure (text message))

abbrev pub fail_when : Bool → String → Result (Unit {0})
fail_when test message = raise_if test (planner_failure (text message))

-- The messages for a capability that is not eligible.
abbrev refused : Option CapabilityDescriptor → Result CapabilityDescriptor
refused none = fail "planner referenced an unknown capability"
refused (some c) =
    if is_unavailable c.availability
    then fail "planner referenced an unavailable capability"
    else fail "planner referenced a capability that is not planner-eligible"

abbrev eligible_or :
    Option CapabilityDescriptor → Option CapabilityDescriptor → Result CapabilityDescriptor
eligible_or none known = refused known
eligible_or (some c) known = ok c

unfoldable pub choose_capability : List CapabilityDescriptor → Text → Result CapabilityDescriptor
unfolding get_capability text
choose_capability registry key =
    eligible_or (get_capability (planner_capabilities registry) key) (get_capability registry key)

-- task_ids[ref]; `none` is the IndexError
unfoldable pub id_at : List ℕ → ℕ → Option ℕ
id_at [] n = none
id_at (k ∷ ks) zero = some k
id_at (k ∷ ks) (suc n) = id_at ks n

abbrev id_or : Option ℕ → Result ℕ
id_or none = err missing_key
id_or (some k) = ok k

-- tuple(task_ids[ref] for ref in refs)
unfoldable pub ids_at : List ℕ → List ℕ → Result (List ℕ)
unfolding id_at
ids_at ids [] = ok []
ids_at ids (r ∷ refs) = do k ← id_or (id_at ids r); rest ← ids_at ids refs; ok (k ∷ rest)

-- The arguments of `ResearchTask`.
unfoldable pub new_task :
    CapabilityDescriptor → PlannerTaskSpec → ℕ → List ℕ → Datetime → ResearchTask
new_task c spec key dependencies created_at = record {
  task_id = key;
  task_type = c.task_type;
  capability_id = c.capability_id;
  description = spec.description;
  dependencies = dependencies;
  status = TaskStatus.pending;
  priority = spec.priority;
  required = true;
  attempt_count = 0;
  max_attempts = 1;
  created_at = some created_at;
  started_at = none;
  completed_at = none;
}

-- `except ValueError`
abbrev validated : Result ResearchTask → Result ResearchTask
validated (err e) = fail "planner task was rejected by domain validation"
validated (ok t) = ok t

-- One round of the loop of `_build_tasks`, once the capability is chosen.
unfoldable pub build_task :
    List ℕ → ℕ → Datetime → ℕ → CapabilityDescriptor → PlannerTaskSpec → Result ResearchTask
unfolding id_at ids_at new_task check_task text
build_task ids count created_at index c spec = do
  fail_when (any (λ r. leb count r || r == index) spec.depends_on)
      "planner produced an invalid dependency reference"
  key ← id_or (id_at ids index)
  dependencies ← ids_at ids spec.depends_on
  validated (check_task (new_task c spec key dependencies created_at))

-- `_build_tasks`, where `ids` are the identifiers that are made first, one for each specification.
unfoldable pub build_tasks :
    List CapabilityDescriptor
    → List ℕ
    → ℕ
    → Datetime
    → ℕ
    → List Text
    → List PlannerTaskSpec
    → Result (List ResearchTask)
unfolding choose_capability build_task text same_text
build_tasks registry ids count created_at index seen [] = ok []
build_tasks registry ids count created_at index seen (spec ∷ specs) = do
  c ← choose_capability registry spec.capability_id
  fail_when (has_text c.capability_id seen) "planner requested a duplicate capability"
  task ← build_task ids count created_at index c spec
  rest ← build_tasks registry ids count created_at (index + 1) (c.capability_id ∷ seen) specs
  ok (task ∷ rest)

-- `except PlannerOutputError`, with _OUTPUT_KIND_MESSAGES
abbrev pub classified : Result (List PlannerTaskSpec) → Result (List PlannerTaskSpec)
classified (err (planner_output PlannerOutputErrorKind.malformed_json m)) =
    fail "planner output was not valid JSON"
classified (err (planner_output PlannerOutputErrorKind.invalid_structure m)) =
    fail "planner output failed structural validation"
classified (err (planner_output PlannerOutputErrorKind.oversized m)) =
    fail "planner output exceeded size bounds"
classified (err e) = err e
classified (ok specs) = ok specs

-- `try: … except: raise _fail(message)`
abbrev pub or_fail {ℓ} : {A : Type ℓ} → Result A → String → Result A
or_fail (err e) message = fail message
or_fail (ok a) message = ok a

-- What `_plan` takes from the request, from the server and from the adapter.
pub record PlanInput : Type 0 where
  pub registry : List CapabilityDescriptor
  pub budget : ResearchExecutionBudget
  pub ids : List ℕ
  pub plan_id : ℕ
  pub research_run_id : ℕ
  pub objective : ResearchObjective
  pub company_id : ℕ
  pub created_at : Datetime

unfoldable pub tasks_of_content : (Text → Loaded) → PlanInput → Text → Result (List ResearchTask)
unfolding parse build_tasks text
tasks_of_content loads input content = do
  specs ← classified (parse loads content)
  build_tasks input.registry input.ids (length specs) input.created_at 0 [] specs

-- The arguments of `ResearchPlan`.
unfoldable pub new_plan : PlanInput → List ResearchTask → ResearchPlan
unfolding text
new_plan input tasks = record {
  plan_id = input.plan_id;
  research_run_id = input.research_run_id;
  objective = input.objective;
  company_id = input.company_id;
  tasks = tasks;
  created_at = input.created_at;
  planner_version = text "llm-planner-v1";
  status = PlanStatus.ready;
}

-- `_plan`, from the content that the model answered.
unfoldable pub plan_of_content : (Text → Loaded) → PlanInput → Text → Result ResearchPlan
unfolding tasks_of_content validate_task_graph validate_tasks new_plan check_plan text
plan_of_content loads input content = do
  tasks ← tasks_of_content loads input content
  or_fail (validate_task_graph tasks) "planner dependency graph is invalid"
  or_fail (validate_tasks input.budget tasks) "plan exceeds the research execution budget"
  or_fail (check_plan (new_plan input tasks)) "planner output was rejected by plan validation"
