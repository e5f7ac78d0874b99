-- ===== src/Examples/Plannings.antt =====
-- A planner's answer of two tasks, of which the second needs the first.
use agentic_equity_research.Prelude.{
  ℕ, zero, suc, ◌≡◌, refl, true, List, [], ◌∷◌, Result, ok, err, length, sort_by, arith,
}
use agentic_equity_research.Text.{
  Text, text, is_space, lstrip, rstrip, strip, split_from, normalize, same_text,
}
use agentic_equity_research.Task.{TaskType, ResearchTask, Datetime}
use agentic_equity_research.Graph.{find_task}
use agentic_equity_research.Graph.Topological.{topological_order}
use agentic_equity_research.Budget.{default_budget}
use agentic_equity_research.Plan.{ResearchObjective, PlanStatus, ResearchPlan}
use agentic_equity_research.Planning.{
  Json, Items, Fields, Loaded, PlannerTaskSpec, parse, check_spec,
}
use agentic_equity_research.Planning.Specs.{IsOutput, parse-IsOutput}
use agentic_equity_research.Planning.Adapter.{
  CapabilityAvailability, CapabilityDescriptor, PlanInput, build_tasks, tasks_of_content,
  plan_of_content, id_at,
}
use agentic_equity_research.Planning.Plans.{Planned, plan_of_content-Planned}
use agentic_equity_research.Planning.Builds.{IsInjective, AllEligible, build_tasks-IsOutput}

abbrev raw_task : Text → Items → Json
raw_task capability depends_on = Json.object (
    Fields.field (text "capability_id") (Json.string capability) (
      Fields.field (text "description") (Json.string (text "what  to do")) (
        Fields.field (text "depends_on") (Json.array depends_on)
          (Fields.field (text "priority") (Json.natural 10) Fields.no_fields))))

abbrev answer : Json
answer = Json.object (
    Fields.field (text "type") (Json.string (text "research_plan")) (
      Fields.field (text "tasks")
        (Json.array (
          Items.item (raw_task (text "market") Items.no_items) (
            Items.item (raw_task (text "news") (Items.item (Json.natural 0) Items.no_items))
              Items.no_items)))
        Fields.no_fields))

abbrev loads : Text → Loaded
loads content = Loaded.value answer

abbrev spec : Text → List ℕ → PlannerTaskSpec
spec capability depends_on = record {
  capability_id = capability;
  description = text "what to do";
  depends_on = depends_on;
  priority = 10;
}

abbrev specs : List PlannerTaskSpec
specs = spec (text "market") [] ∷ spec (text "news") (0 ∷ []) ∷ []

abbrev content : Text
content = 123 ∷ []

program : Unit {0}
unfolding plan_of_content tasks_of_content parse check_spec text is_space strip lstrip rstrip
    split_from normalize same_text sort_by find_task topological_order
program = tt

parse_runs : parse loads content ≡ ok specs
unfolding program
parse_runs = refl

parse-IsOutput_example : IsOutput specs
parse-IsOutput_example = parse-IsOutput loads content parse_runs

abbrev capability : Text → TaskType → CapabilityDescriptor
capability id type = record {
  capability_id = id;
  description = text "what it does";
  availability = CapabilityAvailability.available;
  required_inputs = [];
  produced_output_type = [];
  task_type = type;
}

abbrev registry : List CapabilityDescriptor
registry =
    capability (text "market") TaskType.market_intelligence
    ∷ capability (text "news") TaskType.news_event_intelligence
    ∷ []

abbrev noon : Datetime
noon = record { tz_aware = true; instant = 12 }

abbrev ids : List ℕ
ids = 7 ∷ 8 ∷ []

ids_differ : IsInjective ids
unfolding id_at
ids_differ zero zero k h q = refl
ids_differ zero (suc zero) k h q = cc
ids_differ zero (suc (suc j)) k h q = cc
ids_differ (suc zero) zero k h q = cc
ids_differ (suc zero) (suc zero) k h q = refl
ids_differ (suc zero) (suc (suc j)) k h q = cc
ids_differ (suc (suc i)) j k h q = cc

eligible : AllEligible registry [] specs
unfolding program
eligible = (
  capability (text "market") TaskType.market_intelligence,
  refl,
  refl,
  (capability (text "news") TaskType.news_event_intelligence, refl, refl, tt),
)

build_tasks-IsOutput_example :
    (tasks : List ResearchTask) × (build_tasks registry ids (length specs) noon 0 [] specs
      ≡ ok tasks)
build_tasks-IsOutput_example =
    build_tasks-IsOutput registry ids noon specs parse-IsOutput_example ids_differ (omega arith)
      refl eligible

abbrev input : PlanInput
input = record {
  registry = registry;
  budget = default_budget;
  ids = ids;
  plan_id = 1;
  research_run_id = 2;
  objective = ResearchObjective.company_overview;
  company_id = 3;
  created_at = noon;
}

abbrev plan_or : ResearchPlan → Result ResearchPlan → ResearchPlan
plan_or d (ok p) = p
plan_or d (err e) = d

abbrev no_plan : ResearchPlan
no_plan = record {
  plan_id = 0;
  research_run_id = 0;
  objective = ResearchObjective.company_overview;
  company_id = 0;
  tasks = [];
  created_at = noon;
  planner_version = [];
  status = PlanStatus.draft;
}

abbrev found_plan : ResearchPlan
found_plan = plan_or no_plan (plan_of_content loads input content)

plan_of_content-Planned_example : Planned loads input content found_plan
unfolding program
plan_of_content-Planned_example = plan_of_content-Planned loads input content refl
