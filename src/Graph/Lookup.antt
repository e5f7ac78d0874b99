-- ===== src/Graph/Lookup.antt =====
-- Task graphs that `validate_task_graph` accepts: distinct identifiers, and dependencies that are
-- there. Looking tasks up by their identifier.
use agentic_equity_research.Prelude.{
  ℕ, ◌≡◌, refl, ◌∙◌, ap, true, false, inl, inr, some, List, [], ◌∷◌, ◌++◌, ◌==◌, All, ok,
  Bool-cases, arith,
}
use agentic_equity_research.Task.{ResearchTask, contains}
use agentic_equity_research.Graph.{
  put_task, put_all, by_id, find_task, task_ids, check_duplicates, check_dependencies,
  check_all_dependencies, check_cycles, validate_task_graph,
}

-- No identifier is there twice, nor among `seen`.
abbrev pub Fresh : List ℕ → List ResearchTask → Type 0
Fresh seen [] = Unit
Fresh seen (t ∷ ts) = (contains t.task_id seen ≡ false) × Fresh (t.task_id ∷ seen) ts

abbrev pub IsDistinct : List ResearchTask → Type 0
IsDistinct tasks = Fresh [] tasks

-- The dependency is one of `ids`, and not the task itself.
abbrev pub IsDependency : List ℕ → ℕ → ℕ → Type 0
IsDependency ids key dep = (contains dep ids ≡ true) × ((dep == key) ≡ false)

abbrev pub IsClosed : List ℕ → List ResearchTask → Type 0
IsClosed ids tasks = All (λ t. All (IsDependency ids t.task_id) t.dependencies) tasks

check_duplicates_sound :
    (seen : List ℕ) (tasks : List ResearchTask)
    → check_duplicates seen tasks ≡ ok tt
    → Fresh seen tasks
unfolding check_duplicates
check_duplicates_sound seen [] h = tt
check_duplicates_sound seen (t ∷ ts) h =
    ground (arith, check_duplicates_sound (t.task_id ∷ seen) ts)

check_dependencies_sound :
    (ids : List ℕ) (key : ℕ) (deps : List ℕ)
    → check_dependencies ids key deps ≡ ok tt
    → All (IsDependency ids key) deps
unfolding check_dependencies
check_dependencies_sound ids key [] h = tt
check_dependencies_sound ids key (d ∷ ds) h = ground (arith, check_dependencies_sound ids key ds)

check_all_dependencies_sound :
    (ids : List ℕ) (tasks : List ResearchTask)
    → check_all_dependencies ids tasks ≡ ok tt
    → IsClosed ids tasks
unfolding check_all_dependencies
check_all_dependencies_sound ids [] h = tt
check_all_dependencies_sound ids (t ∷ ts) h = ground (
  arith,
  check_dependencies_sound ids t.task_id t.dependencies,
  check_all_dependencies_sound ids ts,
)

-- A task graph that is accepted has distinct identifiers, every dependency is a task of the graph
-- other than the task itself, and the cycle detection visits every task.
pub validate_task_graph_sound :
    (tasks : List ResearchTask)
    → validate_task_graph tasks ≡ ok tt
    → IsDistinct tasks × IsClosed (task_ids tasks) tasks × (check_cycles tasks ≡ ok tt)
unfolding validate_task_graph
validate_task_graph_sound tasks h =
    ground
      (arith, check_duplicates_sound [] tasks, check_all_dependencies_sound (task_ids tasks) tasks)

put_task_absent :
    (t : ResearchTask) (m : List ResearchTask)
    → contains t.task_id (task_ids m) ≡ false
    → put_task t m ≡ m ++ t ∷ []
unfolding put_task
put_task_absent t [] h = refl
put_task_absent t (u ∷ us) h = ground (arith, put_task_absent t us)

contains-append_one :
    (k : ℕ) (t : ResearchTask) (m : List ResearchTask)
    → contains k (task_ids m) ≡ false
    → (t.task_id == k) ≡ false
    → contains k (task_ids (m ++ t ∷ [])) ≡ false
contains-append_one k t [] h q = ground arith
contains-append_one k t (u ∷ us) h q = ground (arith, contains-append_one k t us)

append_one :
    (m : List ResearchTask) (t : ResearchTask) (ts : List ResearchTask)
    → (m ++ t ∷ []) ++ ts ≡ m ++ t ∷ ts
append_one [] t ts = refl
append_one (u ∷ us) t ts = ap (λ zs. u ∷ zs) (append_one us t ts)

append_nothing : (m : List ResearchTask) → m ≡ m ++ []
append_nothing [] = refl
append_nothing (u ∷ us) = ap (λ zs. u ∷ zs) (append_nothing us)

put_all-Fresh :
    (m ts : List ResearchTask) (seen : List ℕ)
    → ((k : ℕ) → contains k seen ≡ false → contains k (task_ids m) ≡ false)
    → Fresh seen ts
    → put_all m ts ≡ m ++ ts
unfolding put_all
put_all-Fresh m [] seen sub fresh = append_nothing m
put_all-Fresh m (t ∷ ts) seen sub fresh =
    ap (λ n. put_all n ts) (put_task_absent t m (sub t.task_id fresh.0))
    ∙ put_all-Fresh (m ++ t ∷ []) ts (t.task_id ∷ seen) grown fresh.1
    ∙ append_one m t ts
  where
    grown :
        (k : ℕ)
        → contains k (t.task_id ∷ seen) ≡ false
        → contains k (task_ids (m ++ t ∷ [])) ≡ false
    grown k h = contains-append_one k t m (sub k (ground arith)) (ground arith)

-- The dict of tasks with distinct identifiers is the list of the tasks.
pub by_id-IsDistinct : (tasks : List ResearchTask) → IsDistinct tasks → by_id tasks ≡ tasks
unfolding by_id
by_id-IsDistinct tasks h = put_all-Fresh [] tasks [] (λ k e. refl) h

pub find_task_there :
    (k : ℕ) (m : List ResearchTask)
    → contains k (task_ids m) ≡ true
    → (t : ResearchTask) × (find_task k m ≡ some t)
unfolding find_task
find_task_there k [] h = cc
find_task_there k (t ∷ ts) h = elim (Bool-cases (t.task_id == k)) [
  | inl e ↦ (t, ground arith)
  | inr e ↦ let (u, f) = find_task_there k ts (ground arith) in (u, ground arith)
]

pub find_task-id :
    (k : ℕ) (m : List ResearchTask) {t : ResearchTask} → find_task k m ≡ some t → t.task_id ≡ k
unfolding find_task
find_task-id k [] h = cc
find_task-id k (u ∷ us) {t} h = ground (arith, find_task-id k us {t = t})
