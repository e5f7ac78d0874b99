-- ===== src/Graph/Kahn.antt =====
-- The cycle detection of `validate_task_graph`: its counters and its queue.
use agentic_equity_research.Prelude.{
  ℕ, zero, suc, ◌+◌, ◌≤◌, ◌≡◌, refl, ap, ◌∙◌, true, false, ◌⊎◌, Option, some, List, [], ◌∷◌, ◌++◌,
  ◌==◌, length, length-append, length-sort_by, leb, sort_by, ok, err, arith, graph_cycle,
}
use agentic_equity_research.Task.{ResearchTask}
use agentic_equity_research.Graph.{
  Degree, indegree, ids_at_zero, push_sorted, visit_children, kahn, check_visited, check_cycles,
}

-- The counters that are not at 0.
abbrev pub positive : List Degree → ℕ
positive [] = 0
positive (d ∷ ds) =
    let rest = positive ds in (elim (d.count == 0) [ true ↦ rest | false ↦ suc rest ])

length-push_sorted : (x : ℕ) (queue : List ℕ) → length (push_sorted x queue) ≡ suc (length queue)
length-push_sorted x queue =
    length-sort_by leb (queue ++ x ∷ []) ∙ length-append queue (x ∷ []) ∙ omega arith

-- What one visit takes off the counters it puts into the queue.
pub visit_children_work :
    (node : ℕ) (ds : List Degree) (queue : List ℕ)
    → length (visit_children node ds queue).1 + positive (visit_children node ds queue).0
      ≡ length queue + positive ds
unfolding visit_children
visit_children_work node [] queue = refl
visit_children_work node (d ∷ ds) queue = ground (
  arith,
  visit_children_work node ds queue,
  visit_children_work node ds (push_sorted d.task.task_id queue),
  length-push_sorted d.task.task_id queue,
)

pub kahn_total :
    (fuel : ℕ) (ds : List Degree) (queue : List ℕ) (visited : ℕ)
    → length queue + positive ds ≤ fuel
    → (n : ℕ) × (kahn fuel ds queue visited ≡ some n)
unfolding kahn
kahn_total fuel ds [] visited h = (visited, refl)
kahn_total zero ds (node ∷ queue) visited h = ground arith
kahn_total (suc fuel) ds (node ∷ queue) visited h =
    let work = visit_children_work node ds queue in
    kahn_total fuel (visit_children node ds queue).0 (visit_children node ds queue).1 (visited + 1)
      (omega arith)

-- Every counter is at 0 or positive.
pub zero_or_positive : (ds : List Degree) → length (ids_at_zero ds) + positive ds ≡ length ds
zero_or_positive [] = refl
zero_or_positive (d ∷ ds) = ground (arith, zero_or_positive ds)

pub length-indegree : (tasks : List ResearchTask) → length (indegree tasks) ≡ length tasks
unfolding indegree
length-indegree [] = refl
length-indegree (t ∷ ts) = ap suc (length-indegree ts)

check_visited_cases :
    (n : ℕ) (o : Option ℕ)
    → (v : ℕ) × (o ≡ some v)
    → (check_visited o n ≡ ok tt) ⊎ (check_visited o n ≡ err graph_cycle)
check_visited_cases n o (v, e) = rw e (ground arith)

-- The cycle detection ends on every list of tasks within one visit for each task: it accepts the
-- graph or raises the cycle error, and nothing else.
pub check_cycles_ends :
    (tasks : List ResearchTask)
    → (check_cycles tasks ≡ ok tt) ⊎ (check_cycles tasks ≡ err graph_cycle)
unfolding check_cycles
check_cycles_ends tasks =
    let ds = indegree tasks in
    let split = zero_or_positive ds in
    let count = length-indegree tasks in
    let sorted = length-sort_by leb (ids_at_zero ds) in
    check_visited_cases (length tasks) (kahn (length tasks) ds (sort_by leb (ids_at_zero ds)) 0)
      (kahn_total (length tasks) ds (sort_by leb (ids_at_zero ds)) 0 (omega arith))
