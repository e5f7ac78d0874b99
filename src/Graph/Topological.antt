-- ===== src/Graph/Topological.antt =====
-- `topological_order` of src/financial_intelligence/domain/orchestration/graph.py.
pub mod Release
pub mod Children
pub mod Run
pub mod Order
use agentic_equity_research.Prelude.{
  ℕ, zero, suc, Bool, true, false, List, [], ◌∷◌, ◌++◌, ◌==◌, length, sort_by, Result, ok, err,
  ◌>>◌, if◌then◌else◌, out_of_fuel,
}
use agentic_equity_research.Task.{ResearchTask}
use agentic_equity_research.Graph.{Degree, indegree, lower, precedes, validate_task_graph}

-- One entry of `children[node]` for each time that a task lists `node`.
abbrev pub repeat_child : ℕ → ResearchTask → List ℕ → List ResearchTask
repeat_child node t [] = []
repeat_child node t (dep ∷ deps) =
    let rest = repeat_child node t deps in (elim (dep == node) [ true ↦ t ∷ rest | false ↦ rest ])

unfoldable pub children : ℕ → List ResearchTask → List ResearchTask
children node [] = []
children node (t ∷ ts) = repeat_child node t t.dependencies ++ children node ts

abbrev pub tasks_at_zero : List Degree → List ResearchTask
tasks_at_zero [] = []
tasks_at_zero (d ∷ ds) =
    let rest = tasks_at_zero ds in (elim (d.count == 0) [ true ↦ d.task ∷ rest | false ↦ rest ])

-- `indegree[child] -= 1`, and whether it is 0 now.
unfoldable pub lower_child : ℕ → List Degree → List Degree × Bool
lower_child child [] = ([], false)
lower_child child (d ∷ ds) =
    let (n, reached) = lower d.count in
    let (rest, found) = lower_child child ds in
    (elim (d.task.task_id == child) [
      | true ↦ (record { task = d.task; count = n } ∷ ds, reached)
      | false ↦ (d ∷ rest, found)
    ])

-- `for child in sorted(children[node], key=sort_key)`
unfoldable pub release :
    List ResearchTask → List Degree → List ResearchTask → List Degree × List ResearchTask
unfolding lower_child
release [] degrees ready = (degrees, ready)
release (child ∷ rest) degrees ready =
    let (degrees', reached) = lower_child child.task_id degrees in
    release rest degrees' (if reached then sort_by precedes (ready ++ child ∷ []) else ready)

-- `while ready`
unfoldable pub emit :
    ℕ
    → List ResearchTask
    → List Degree
    → List ResearchTask
    → List ResearchTask
    → Result (List ResearchTask)
unfolding release children
emit fuel tasks degrees [] ordered = ok ordered
emit zero tasks degrees (node ∷ ready) ordered = err out_of_fuel
emit (suc fuel) tasks degrees (node ∷ ready) ordered =
    let (degrees', ready') =
      release (sort_by precedes (children node.task_id tasks)) degrees ready in
    emit fuel tasks degrees' ready' (ordered ++ node ∷ [])

unfoldable pub topological_order : List ResearchTask → Result (List ResearchTask)
unfolding validate_task_graph indegree emit
topological_order tasks = do
  validate_task_graph tasks
  let degrees = indegree tasks
  emit (length tasks) tasks degrees (sort_by precedes (tasks_at_zero degrees)) []
