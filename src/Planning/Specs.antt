-- ===== src/Planning/Specs.antt =====
-- What `PlannerOutput.parse` accepts (src/financial_intelligence/domain/orchestration/planner_output.py).
use agentic_equity_research.Prelude.{
  ℕ, ◌+◌, ◌≤◌, ◌<◌, ◌≡◌, refl, sym, true, false, List, [], ◌∷◌, ltb, ◌==◌, length, All, Result, ok,
  arith, >>=-eq-ok, ok-inj,
}
use mathlib.Core.Path.{subst}
use agentic_equity_research.Text.{Text, is_empty, exceeds, normalize, has_control, words, join}
use agentic_equity_research.Text.Normal.{normalize-join}
use agentic_equity_research.Text.Characters.{any-split_from}
use agentic_equity_research.Planning.{
  Json, Items, Loaded, PlannerTaskSpec, max_planner_tasks, matches_pattern, has_control_characters,
  has_duplicates, check_spec, read_fields, read_task, parse_tasks, at_task, build_specs,
  check_spec_references, check_all_references, check_output, parse,
}

-- The bounds of one specification.
pub record IsSpec (s : PlannerTaskSpec) : Type 0 where
  pub capability_short : exceeds s.capability_id 64 ≡ false
  pub capability_pattern : matches_pattern s.capability_id ≡ true
  pub description_normal : normalize s.description ≡ s.description
  pub description_given : is_empty s.description ≡ false
  pub description_short : exceeds s.description 512 ≡ false
  pub description_printable : has_control s.description ≡ false
  pub references_distinct : has_duplicates s.depends_on ≡ false
  pub priority_positive : 1 ≤ s.priority
  pub priority_capped : s.priority ≤ 1000

printable : (s : Text) → has_control_characters s ≡ false → has_control s ≡ false
printable [] h = refl
printable (c ∷ s) h = ground (arith, printable s)

printable_words :
    (raw : Text) → has_control_characters raw ≡ false → has_control (join (words raw)) ≡ false
printable_words raw h = any-split_from (λ c. ltb c 32) refl [] raw refl (printable raw h)

check_spec-IsSpec :
    (capability description : Json) (depends_on : Items) (priority : Json) {s : PlannerTaskSpec}
    → check_spec capability description depends_on priority ≡ ok s
    → IsSpec s
unfolding check_spec
check_spec-IsSpec (Json.string c) (Json.string d) js p {s} h = record {
  capability_short = ground arith;
  capability_pattern = ground arith;
  description_normal = ground (arith, normalize-join d);
  description_given = ground arith;
  description_short = ground arith;
  description_printable = ground (arith, printable_words d);
  references_distinct = ground arith;
  priority_positive = ground arith;
  priority_capped = ground arith;
}
check_spec-IsSpec capability description js p h = ground arith

at_task-eq-ok :
    (index : ℕ) (call : Result PlannerTaskSpec) {s : PlannerTaskSpec}
    → at_task index call ≡ ok s
    → call ≡ ok s
at_task-eq-ok index call h = ground arith

build_specs-IsSpec :
    (index : ℕ) (js : Items) {specs : List PlannerTaskSpec}
    → build_specs index js ≡ ok specs
    → All IsSpec specs
unfolding build_specs read_task
build_specs-IsSpec index Items.no_items h = subst (All IsSpec) (ok-inj h) tt
build_specs-IsSpec index (Items.item raw js) h =
    let (s, first, h1) = >>=-eq-ok (at_task index (read_task raw)) _ h in
    let (rest, later, h2) = >>=-eq-ok (build_specs (index + 1) js) _ h1 in
    let (r, _, checked) =
      >>=-eq-ok (read_fields raw) _ (at_task-eq-ok index (read_task raw) first) in
    subst (All IsSpec) (ok-inj h2) (
      check_spec-IsSpec r.capability_id r.description r.depends_on r.priority checked,
      build_specs-IsSpec (index + 1) js later,
    )

-- Each reference of the specifications, of which the first has the number `index`.
abbrev pub AllLinked : ℕ → ℕ → List PlannerTaskSpec → Type 0
AllLinked count index [] = Unit
AllLinked count index (s ∷ specs) =
    All (λ r. ((r == index) ≡ false) × (r < count)) s.depends_on × AllLinked count (index + 1) specs

check_spec_references_sound :
    (index count : ℕ) (refs : List ℕ)
    → check_spec_references index count refs ≡ ok tt
    → All (λ r. ((r == index) ≡ false) × (r < count)) refs
unfolding check_spec_references
check_spec_references_sound index count [] h = tt
check_spec_references_sound index count (r ∷ refs) h =
    ground (arith, check_spec_references_sound index count refs)

check_all_references_sound :
    (index count : ℕ) (specs : List PlannerTaskSpec)
    → check_all_references index count specs ≡ ok tt
    → AllLinked count index specs
unfolding check_all_references
check_all_references_sound index count [] h = tt
check_all_references_sound index count (s ∷ specs) h = ground (
  arith,
  check_spec_references_sound index count s.depends_on,
  check_all_references_sound (index + 1) count specs,
)

-- A PlannerOutput that the constructor has made.
pub record IsOutput (specs : List PlannerTaskSpec) : Type 0 where
  pub given : 1 ≤ length specs
  pub bounded : length specs ≤ max_planner_tasks
  pub valid : All IsSpec specs
  pub linked : AllLinked (length specs) 0 specs

check_output_parts :
    (specs : List PlannerTaskSpec) {made : List PlannerTaskSpec}
    → check_output specs ≡ ok made
    → (made ≡ specs)
      × (1 ≤ length specs)
      × (length specs ≤ max_planner_tasks)
      × (check_all_references 0 (length specs) specs ≡ ok tt)
unfolding check_output
check_output_parts [] h = ground arith
check_output_parts (s ∷ specs) h = ground arith

-- What `parse` returns, whatever text a model has written: one task at least and no more than a plan may
-- hold, each within the bounds of a task, with references to other tasks of the output only.
pub parse-IsOutput :
    (loads : Text → Loaded) (content : Text) {specs : List PlannerTaskSpec}
    → parse loads content ≡ ok specs
    → IsOutput specs
unfolding parse
parse-IsOutput loads content h =
    let (tasks, _, h1) = >>=-eq-ok (parse_tasks loads content) _ h in
    let (specs, built, h2) = >>=-eq-ok (build_specs 0 tasks) _ h1 in
    let (same, given, bounded, references) = check_output_parts specs h2 in
    subst IsOutput (sym same) (record {
      given = given;
      bounded = bounded;
      valid = build_specs-IsSpec 0 tasks built;
      linked = check_all_references_sound 0 (length specs) specs references;
    })
