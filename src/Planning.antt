-- ===== src/Planning.antt =====
-- src/financial_intelligence/domain/orchestration/planner_output.py: from the text of a language model to
-- the specifications of tasks. `json.loads`, called with the hooks of `_load_json`, is a parameter.
pub mod Specs
pub mod Adapter
pub mod Plans
pub mod Builds
pub mod Create
pub mod Matching
use agentic_equity_research.Prelude.{
  ℕ, suc, ◌+◌, Bool, true, false, not, ◌&&◌, ◌||◌, Option, none, some, List, [], ◌∷◌, ◌++◌, ltb,
  leb, ◌==◌, length, any, all, Result, ok, err, raise_if, ◌>>=◌, ◌>>◌, if◌then◌else◌,
  PlannerOutputErrorKind, planner_output,
}
use Prim.Native.String.{String}
use agentic_equity_research.Text.{
  Text, text, strip, is_empty, exceeds, same_text, has_text, split_from, words, join, str_int,
  digits,
}
use agentic_equity_research.Task.{contains}
use agentic_equity_research.Budget.{default_budget}

mutual
  -- What `json.loads` returns; an object keeps its pairs, whose keys are distinct.
  pub data Json : Type 0 where
    null float : Json
    boolean : Bool → Json
    natural negative : ℕ → Json
    string : Text → Json
    array : Items → Json
    object : Fields → Json

  pub data Items : Type 0 where
    no_items : Items
    item : Json → Items → Items

  pub data Fields : Type 0 where
    no_fields : Fields
    field : Text → Json → Fields → Fields

-- `json.loads` with the hooks: the document is not valid JSON, an object has a key twice, or a value.
pub data Loaded : Type 0 where
  malformed ambiguous : Loaded
  value : Json → Loaded

pub record PlannerTaskSpec : Type 0 where
  pub capability_id : Text
  pub description : Text
  pub depends_on : List ℕ
  pub priority : ℕ

-- MAX_PLANNER_TASKS
abbrev pub max_planner_tasks : ℕ
max_planner_tasks = default_budget.max_tasks

-- `if test: _invalid(message)`
abbrev pub invalid_if : Bool → String → Result (Unit {0})
invalid_if test message =
    raise_if test (planner_output PlannerOutputErrorKind.invalid_structure (text message))

abbrev invalid {ℓ} : {A : Type ℓ} → String → Result A
invalid message = err (planner_output PlannerOutputErrorKind.invalid_structure (text message))

abbrev is_lower : ℕ → Bool
is_lower c = leb 97 c && leb c 122

abbrev pub is_identifier : ℕ → Bool
is_identifier c = is_lower c || (leb 48 c && leb c 57) || c == 95

-- [a-z][a-z0-9_]*
abbrev pub matches_pattern : Text → Bool
matches_pattern [] = false
matches_pattern (c ∷ cs) = is_lower c && all is_identifier cs

-- _has_control_characters: the characters of the category Cc
abbrev pub has_control_characters : Text → Bool
has_control_characters s = any (λ c. ltb c 32 || (leb 127 c && leb c 159)) s

-- len(set(xs)) != len(xs)
unfoldable pub has_duplicates : List ℕ → Bool
has_duplicates [] = false
has_duplicates (x ∷ xs) = contains x xs || has_duplicates xs

unfoldable pub items_length : Items → ℕ
items_length Items.no_items = 0
items_length (Items.item j js) = suc (items_length js)

-- The loop over the entries of `depends_on`.
unfoldable pub check_references : Items → Result (List ℕ)
check_references Items.no_items = ok []
check_references (Items.item (Json.natural n) js) = do rest ← check_references js; ok (n ∷ rest)
check_references (Items.item (Json.negative n) js) =
    invalid "depends_on entries must be non-negative"
check_references (Items.item _ js) = invalid "depends_on entries must be integers"

abbrev text_or : String → Json → Result Text
text_or message (Json.string s) = ok s
text_or message _ = invalid message

abbrev items_or : String → Json → Result Items
items_or message (Json.array js) = ok js
items_or message _ = invalid message

-- type(value) is int; a negative one is below every bound on it.
abbrev priority_or : Json → Result ℕ
priority_or (Json.natural n) = ok n
priority_or (Json.negative n) = ok 0
priority_or _ = invalid "priority must be an integer"

-- PlannerTaskSpec.__post_init__, from the values of the four fields.
unfoldable pub check_spec : Json → Json → Items → Json → Result PlannerTaskSpec
unfolding split_from items_length check_references has_duplicates
check_spec raw_capability raw_description raw_depends_on raw_priority = do
  capability_id ← text_or "capability_id must be a string" raw_capability
  invalid_if (exceeds capability_id 64 || not (matches_pattern capability_id))
      "capability_id is empty, oversized, or malformed"
  raw ← text_or "description must be a string" raw_description
  invalid_if (has_control_characters raw) "description must not contain control characters"
  let description = join (words raw)
  invalid_if (is_empty description || exceeds description 512)
      "description is empty or exceeds bounds"
  invalid_if (leb max_planner_tasks (items_length raw_depends_on)) "depends_on exceeds bounds"
  depends_on ← check_references raw_depends_on
  invalid_if (has_duplicates depends_on) "depends_on must not contain duplicates"
  priority ← priority_or raw_priority
  invalid_if (ltb priority 1 || ltb 1000 priority) "priority must be between 1 and 1000"
  ok (record {
    capability_id = capability_id;
    description = description;
    depends_on = depends_on;
    priority = priority;
  })

-- raw[key]
unfoldable pub lookup : Text → Fields → Option Json
unfolding same_text
lookup key Fields.no_fields = none
lookup key (Fields.field k j fs) =
    let rest = lookup key fs in if same_text k key then some j else rest

-- names.issuperset(raw)
unfoldable pub only_fields : List Text → Fields → Bool
unfolding same_text
only_fields names Fields.no_fields = true
only_fields names (Fields.field k j fs) = has_text k names && only_fields names fs

abbrev found {ℓ} : {A : Type ℓ} → Option A → String → Result A
found none message = invalid message
found (some a) message = ok a

abbrev fields_or : String → Json → Result Fields
fields_or message (Json.object fs) = ok fs
fields_or message _ = invalid message

-- The arguments of `PlannerTaskSpec` in `_build_task`.
pub record RawTask : Type 0 where
  pub capability_id : Json
  pub description : Json
  pub depends_on : Items
  pub priority : Json

unfoldable pub read_fields : Json → Result RawTask
unfolding text lookup only_fields
read_fields raw = do
  fields ← fields_or "task must be an object" raw
  invalid_if
      (not (
        only_fields
          (text "capability_id" ∷ text "description" ∷ text "depends_on" ∷ text "priority" ∷ [])
          fields))
      "task contains unknown fields"
  capability_id ← found (lookup (text "capability_id") fields) "task is missing required fields"
  description ← found (lookup (text "description") fields) "task is missing required fields"
  raw_depends_on ← found (lookup (text "depends_on") fields) "task is missing required fields"
  priority ← found (lookup (text "priority") fields) "task is missing required fields"
  depends_on ← items_or "depends_on must be a list" raw_depends_on
  ok (record {
    capability_id = capability_id;
    description = description;
    depends_on = depends_on;
    priority = priority;
  })

-- The body of the `try` of `_build_task`.
unfoldable pub read_task : Json → Result PlannerTaskSpec
unfolding read_fields check_spec
read_task raw = do
  r ← read_fields raw
  check_spec r.capability_id r.description r.depends_on r.priority

-- `except PlannerOutputError`: the message is put behind the index of the task.
abbrev pub at_task : ℕ → Result PlannerTaskSpec → Result PlannerTaskSpec
at_task index (err (planner_output kind message)) =
    err (planner_output kind (text "tasks[" ++ str_int index ++ text "]: " ++ message))
at_task index (err e) = err e
at_task index (ok spec) = ok spec

-- _build_task(i, raw) for each entry
unfoldable pub build_specs : ℕ → Items → Result (List PlannerTaskSpec)
unfolding read_task text digits
build_specs index Items.no_items = ok []
build_specs index (Items.item raw js) = do
  spec ← at_task index (read_task raw)
  rest ← build_specs (index + 1) js
  ok (spec ∷ rest)

-- The references of one task: not itself, and a task of the output.
unfoldable pub check_spec_references : ℕ → ℕ → List ℕ → Result (Unit {0})
unfolding text digits
check_spec_references index count [] = ok tt
check_spec_references index count (r ∷ refs) = do
  raise_if (r == index) (
      planner_output PlannerOutputErrorKind.invalid_structure
        (text "tasks[" ++ str_int index ++ text "] must not depend on itself"))
  raise_if (leb count r) (
      planner_output PlannerOutputErrorKind.invalid_structure
        (text "tasks[" ++ str_int index ++ text "] depends_on references a missing task"))
  check_spec_references index count refs

unfoldable pub check_all_references : ℕ → ℕ → List PlannerTaskSpec → Result (Unit {0})
unfolding check_spec_references
check_all_references index count [] = ok tt
check_all_references index count (s ∷ specs) = do
  check_spec_references index count s.depends_on
  check_all_references (index + 1) count specs

abbrev no_specs : List PlannerTaskSpec → Bool
no_specs [] = true
no_specs (s ∷ specs) = false

-- PlannerOutput.__post_init__; a PlannerOutput is its `tasks`.
unfoldable pub check_output : List PlannerTaskSpec → Result (List PlannerTaskSpec)
unfolding check_all_references
check_output specs = do
  invalid_if (no_specs specs) "tasks must not be empty"
  invalid_if (ltb max_planner_tasks (length specs)) "tasks exceeds maximum count"
  check_all_references 0 (length specs) specs
  ok specs

abbrev is_text : Text → Json → Bool
is_text s (Json.string t) = same_text s t
is_text s _ = false

abbrev loaded : Loaded → Result Json
loaded (Loaded.value j) = ok j
loaded Loaded.ambiguous = invalid "planner output contains duplicate keys"
loaded Loaded.malformed =
    err (
      planner_output PlannerOutputErrorKind.malformed_json
        (text "planner output is not valid JSON"))

-- The part of `parse` that comes before the tasks are built.
unfoldable pub parse_tasks : (Text → Loaded) → Text → Result Items
unfolding strip text same_text lookup only_fields items_length
parse_tasks loads content = do
  raise_if (exceeds content 32768)
      (planner_output PlannerOutputErrorKind.oversized (text "planner output exceeds size bounds"))
  raise_if (is_empty (strip content))
      (planner_output PlannerOutputErrorKind.malformed_json (text "planner output empty"))
  payload ← loaded (loads content)
  fields ← fields_or "planner output must be a JSON object" payload
  invalid_if (not (only_fields (text "type" ∷ text "tasks" ∷ []) fields))
      "planner output contains unknown fields"
  kind ← found (lookup (text "type") fields) "planner output is missing required fields"
  raw_tasks ← found (lookup (text "tasks") fields) "planner output is missing required fields"
  invalid_if (not (is_text (text "research_plan") kind))
      "planner output type must be 'research_plan'"
  tasks ← items_or "tasks must be a list" raw_tasks
  invalid_if (ltb max_planner_tasks (items_length tasks)) "tasks exceeds maximum count"
  ok tasks

-- PlannerOutput.parse
unfoldable pub parse : (Text → Loaded) → Text → Result (List PlannerTaskSpec)
unfolding parse_tasks build_specs check_output
parse loads content = do
  tasks ← parse_tasks loads content
  specs ← build_specs 0 tasks
  check_output specs
