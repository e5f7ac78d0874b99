-- ===== src/Graph/Visits.antt =====
-- The invariant of the cycle detection of `validate_task_graph`: which tasks have been visited or queued.
use agentic_equity_research.Prelude.{
  ℕ, ◌+◌, ◌≤◌, ◌≡◌, refl, ap, ◌∙◌, true, false, not, List, [], ◌∷◌, ◌++◌, ◌==◌, ==_iff, count,
  count-append, count-sort_by, leb, arith, All, if◌then◌else◌, ◌&&◌,
}
use agentic_equity_research.Task.{ResearchTask, contains}
use agentic_equity_research.Graph.{Degree, push_sorted, visit_children, lower}

abbrev pub occurs : ℕ → List ℕ → ℕ
occurs k xs = count (λ x. x == k) xs

abbrev pub tasks_of : List Degree → List ResearchTask
tasks_of [] = []
tasks_of (d ∷ ds) = d.task ∷ tasks_of ds

-- The counters of the tasks `k` that are at 0.
abbrev pub zeros : ℕ → List Degree → ℕ
zeros k ds = count (λ d. d.task.task_id == k && d.count == 0) ds

-- The dependencies that are not among the visited.
abbrev pub unvisited : List ℕ → List ℕ → ℕ
unvisited visited deps = count (λ d. not (contains d visited)) deps

abbrev pub IsSettled : List ℕ → Degree → Type 0
IsSettled visited d = unvisited visited d.task.dependencies ≤ d.count

occurs-push_sorted :
    (k x : ℕ) (queue : List ℕ) → occurs k (push_sorted x queue) ≡ occurs k (x ∷ queue)
occurs-push_sorted k x queue =
    count-sort_by leb (λ y. y == k) (queue ++ x ∷ [])
    ∙ count-append (λ y. y == k) queue (x ∷ [])
    ∙ ground arith

-- One visit queues each task whose counter it takes to 0.
pub visit_children-occurs :
    (k node : ℕ) (ds : List Degree) (queue : List ℕ)
    → occurs k (visit_children node ds queue).1 + zeros k ds
      ≡ occurs k queue + zeros k (visit_children node ds queue).0
unfolding visit_children
visit_children-occurs k node [] queue = refl
visit_children-occurs k node (d ∷ ds) queue = ground (
  arith,
  visit_children-occurs k node ds queue,
  visit_children-occurs k node ds (push_sorted d.task.task_id queue),
  occurs-push_sorted k d.task.task_id queue,
)

pub visit_children-tasks_of :
    (node : ℕ) (ds : List Degree) (queue : List ℕ)
    → tasks_of (visit_children node ds queue).0 ≡ tasks_of ds
unfolding visit_children
visit_children-tasks_of node [] queue = refl
visit_children-tasks_of node (d ∷ ds) queue =
    ap (λ ts. d.task ∷ ts) (visit_children-tasks_of node ds _)

pub unvisited-cons :
    (node : ℕ) (visited deps : List ℕ)
    → contains node visited ≡ false
    → unvisited (node ∷ visited) deps + occurs node deps ≡ unvisited visited deps
unvisited-cons node visited [] h = refl
unvisited-cons node visited (d ∷ deps) h =
    ground (arith, unvisited-cons node visited deps h, contains-same)
  where
    contains-same : (d == node) ≡ true → contains d visited ≡ false
    contains-same e = ap (λ k. contains k visited) ((==_iff d node).0 e) ∙ h

pub occurs-contains : (k : ℕ) (xs : List ℕ) → contains k xs ≡ true → 1 ≤ occurs k xs
occurs-contains k [] h = cc
occurs-contains k (x ∷ xs) h = ground (arith, occurs-contains k xs)

unvisited_falls :
    (node : ℕ) (visited : List ℕ) (d : Degree)
    → contains node visited ≡ false
    → IsSettled visited d
    → IsSettled (node ∷ visited) (record {
      task = d.task;
      count = if contains node d.task.dependencies then (lower d.count).0 else d.count;
    })
unvisited_falls node visited d h s = ground (
  arith,
  unvisited-cons node visited d.task.dependencies h,
  occurs-contains node d.task.dependencies,
)

pub visit_children-IsSettled :
    (node : ℕ) (visited : List ℕ) (ds : List Degree) (queue : List ℕ)
    → contains node visited ≡ false
    → All (IsSettled visited) ds
    → All (IsSettled (node ∷ visited)) (visit_children node ds queue).0
unfolding visit_children
visit_children-IsSettled node visited [] queue h s = tt
visit_children-IsSettled node visited (d ∷ ds) queue h s =
    (unvisited_falls node visited d h s.0, visit_children-IsSettled node visited ds _ h s.1)
