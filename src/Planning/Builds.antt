-- ===== src/Planning/Builds.antt =====
-- What the parser accepts can be made into tasks: `_build_tasks` of
-- src/financial_intelligence/infrastructure/orchestration/llm_planner_adapter.py.
use agentic_equity_research.Prelude.{
  ℕ, zero, suc, ◌+◌, ◌≤◌, ◌<◌, ◌≡◌, refl, ap, ◌∙◌, Bool, true, false, not, ◌||◌, inl, inr, some,
  List, [], ◌∷◌, leb, ◌==◌, ==_iff, length, any, all, All, ok, arith, Bool-cases,
}
use agentic_equity_research.Text.Same.{same_text-eq}
use agentic_equity_research.Text.{Text, is_space, is_empty, has_text, strip}
use agentic_equity_research.Text.Characters.{strip-solid}
use agentic_equity_research.Task.{ResearchTask, Datetime, contains}
use agentic_equity_research.Task.Checks.{IsWellFormed, check_task-IsWellFormed}
use agentic_equity_research.Planning.{PlannerTaskSpec, matches_pattern, is_identifier}
use agentic_equity_research.Planning.Specs.{IsSpec, IsOutput, AllLinked}
use agentic_equity_research.Planning.Adapter.{
  CapabilityDescriptor, get_capability, planner_capabilities, choose_capability, new_task,
  build_task, build_tasks, ids_at, id_at,
}

-- Different places have different identifiers.
abbrev pub IsInjective : List ℕ → Type 0
IsInjective ids = (i j k : ℕ) → id_at ids i ≡ some k → id_at ids j ≡ some k → i ≡ j

-- The capability of each specification is eligible, and none is asked for twice.
abbrev pub AllEligible : List CapabilityDescriptor → List Text → List PlannerTaskSpec → Type 0
AllEligible registry seen [] = Unit
AllEligible registry seen (s ∷ specs) =
    (c : CapabilityDescriptor) × (choose_capability registry s.capability_id ≡ ok c)
    × (has_text c.capability_id seen ≡ false)
    × AllEligible registry (c.capability_id ∷ seen) specs

id_at-total : (ids : List ℕ) (n : ℕ) → n < length ids → (k : ℕ) × (id_at ids n ≡ some k)
unfolding id_at
id_at-total [] n h = absurd (omega arith)
id_at-total (k ∷ ids) zero h = (k, refl)
id_at-total (k ∷ ids) (suc n) h = id_at-total ids n (omega arith)

contains-cons :
    (k key : ℕ) (ks : List ℕ)
    → (k == key) ≡ false
    → contains key ks ≡ false
    → contains key (k ∷ ks) ≡ false
contains-cons k key ks h q = ground arith

clash : {b : Bool} → b ≡ true → b ≡ false → ⊥
clash h k = cc

ids_at-total :
    (ids : List ℕ) (index key : ℕ) (refs : List ℕ) (count : ℕ)
    → IsInjective ids
    → id_at ids index ≡ some key
    → count ≤ length ids
    → All (λ r. ((r == index) ≡ false) × (r < count)) refs
    → (ks : List ℕ) × (ids_at ids refs ≡ ok ks) × (contains key ks ≡ false)
unfolding ids_at
ids_at-total ids index key [] count inj own enough linked = ([], refl, refl)
ids_at-total ids index key (r ∷ refs) count inj own enough linked =
    let (k, e) = id_at-total ids r (omega (arith, linked.0.1)) in
    let (ks, es, apart) = ids_at-total ids index key refs count inj own enough linked.1 in
    (k ∷ ks, rw (e, es) refl, contains-cons k key ks (differs k e) apart)
  where
    differs : (k : ℕ) → id_at ids r ≡ some k → (k == key) ≡ false
    differs k e = elim (Bool-cases (k == key)) [
      | inl q ↦
          let same = inj r index key (e ∙ ap some ((==_iff k key).0 q)) own in
          absurd (clash ((==_iff r index).1 same) linked.0.0)
      | inr q ↦ q
    ]

get_capability-id :
    (cs : List CapabilityDescriptor) (key : Text) {c : CapabilityDescriptor}
    → get_capability cs key ≡ some c
    → c.capability_id ≡ key
unfolding get_capability
get_capability-id [] key h = cc
get_capability-id (d ∷ cs) key {c} h =
    ground (arith, same_text-eq d.capability_id key, get_capability-id cs key {c = c})

identifier_solid : (s : Text) → all is_identifier s ≡ true → any is_space s ≡ false
unfolding is_space
identifier_solid [] h = refl
identifier_solid (c ∷ s) h = ground (arith, identifier_solid s)

pattern_solid : (s : Text) → matches_pattern s ≡ true → (strip s ≡ s) × (is_empty s ≡ false)
pattern_solid [] h = cc
pattern_solid (c ∷ s) h = (strip-solid (c ∷ s) (identifier_solid (c ∷ s) (ground arith)), refl)

new_task-IsWellFormed :
    (c : CapabilityDescriptor) (spec : PlannerTaskSpec) (key : ℕ) (dependencies : List ℕ)
    (at : Datetime)
    → IsSpec spec
    → c.capability_id ≡ spec.capability_id
    → contains key dependencies ≡ false
    → at.tz_aware ≡ true
    → IsWellFormed (new_task c spec key dependencies at)
unfolding new_task
new_task-IsWellFormed c spec key dependencies at s same apart aware =
    let (solid, given) = pattern_solid spec.capability_id s.capability_pattern in
    record {
      capability_stripped = rw same solid;
      capability_given = rw same given;
      description_normal = s.description_normal;
      description_given = s.description_given;
      description_short = s.description_short;
      description_printable = s.description_printable;
      priority_positive = s.priority_positive;
      priority_capped = s.priority_capped;
      max_attempts_positive = omega arith;
      max_attempts_capped = omega arith;
      attempts_capped = omega arith;
      not_own_dependency = apart;
      created_aware = ap not aware;
      started_aware = refl;
      completed_aware = refl;
    }

valid_references :
    (index count : ℕ) (refs : List ℕ)
    → All (λ r. ((r == index) ≡ false) × (r < count)) refs
    → any (λ r. leb count r || r == index) refs ≡ false
valid_references index count [] h = refl
valid_references index count (r ∷ refs) h = ground (arith, valid_references index count refs h.1)

build_task-total :
    (ids : List ℕ) (count : ℕ) (at : Datetime) (index : ℕ) (c : CapabilityDescriptor)
    (spec : PlannerTaskSpec)
    → IsInjective ids
    → count ≤ length ids
    → index < count
    → at.tz_aware ≡ true
    → IsSpec spec
    → c.capability_id ≡ spec.capability_id
    → All (λ r. ((r == index) ≡ false) × (r < count)) spec.depends_on
    → (t : ResearchTask) × (build_task ids count at index c spec ≡ ok t)
unfolding build_task
build_task-total ids count at index c spec inj enough inside aware s same linked =
    let (key, own) = id_at-total ids index (omega arith) in
    let (ks, es, apart) = ids_at-total ids index key spec.depends_on count inj own enough linked in
    let checked =
      check_task-IsWellFormed (new_task c spec key ks at)
        (new_task-IsWellFormed c spec key ks at s same apart aware) in
    (
      new_task c spec key ks at,
      rw (valid_references index count spec.depends_on linked, own, es, checked) refl,
    )

choose_capability-id :
    (registry : List CapabilityDescriptor) (key : Text) {c : CapabilityDescriptor}
    → choose_capability registry key ≡ ok c
    → c.capability_id ≡ key
unfolding choose_capability
choose_capability-id registry key {c} h =
    get_capability-id (planner_capabilities registry) key {c = c} (ground arith)

build_tasks_from :
    (registry : List CapabilityDescriptor) (ids : List ℕ) (count : ℕ) (at : Datetime) (index : ℕ)
    (seen : List Text) (specs : List PlannerTaskSpec)
    → IsInjective ids
    → count ≤ length ids
    → index + length specs ≡ count
    → at.tz_aware ≡ true
    → All IsSpec specs
    → AllLinked count index specs
    → AllEligible registry seen specs
    → (tasks : List ResearchTask) × (build_tasks registry ids count at index seen specs ≡ ok tasks)
unfolding build_tasks
build_tasks_from registry ids count at index seen [] inj enough place aware valid linked eligible =
    ([], refl)
build_tasks_from registry ids count at index seen (spec ∷ specs) inj enough place aware valid linked
      eligible =
    let (c, chosen, fresh, later) = eligible in
    let (t, built) =
      build_task-total ids count at index c spec inj enough (omega arith) aware valid.0
        (choose_capability-id registry spec.capability_id chosen) linked.0 in
    let (tasks, rest) =
      build_tasks_from registry ids count at (index + 1) (c.capability_id ∷ seen) specs inj enough
        (omega arith) aware valid.1 linked.1 later in
    (t ∷ tasks, rw (chosen, fresh, built, rest) refl)

-- Whatever the parser accepts becomes tasks, if its capabilities are eligible and none is asked for
-- twice: with an identifier for each task, all different, and a clock with a time zone, no check of a
-- task or of a reference refuses it.
pub build_tasks-IsOutput :
    (registry : List CapabilityDescriptor) (ids : List ℕ) (at : Datetime)
    (specs : List PlannerTaskSpec)
    → IsOutput specs
    → IsInjective ids
    → length specs ≤ length ids
    → at.tz_aware ≡ true
    → AllEligible registry [] specs
    → (tasks : List ResearchTask) × (build_tasks registry ids (length specs) at 0 [] specs
        ≡ ok tasks)
build_tasks-IsOutput registry ids at specs output inj enough aware eligible =
    build_tasks_from registry ids (length specs) at 0 [] specs inj enough (omega arith) aware
      output.valid output.linked eligible
