-- ===== src/Graph/Tight.antt =====
-- The counters of the cycle detection of `validate_task_graph`: none is above what is left to visit.
use agentic_equity_research.Prelude.{
  ℕ, zero, suc, ◌+◌, ◌≤◌, ◌≡◌, refl, sym, false, some, List, [], ◌∷◌, length, arith, All,
  if◌then◌else◌,
}
use mathlib.Core.Path.{subst}
use agentic_equity_research.Task.{ResearchTask, contains}
use agentic_equity_research.Graph.{Degree, indegree, visit_children, kahn, lower, task_ids}
use agentic_equity_research.Graph.Kahn.{positive, visit_children_work}
use agentic_equity_research.Graph.Visits.{occurs, tasks_of, unvisited, unvisited-cons}
use agentic_equity_research.Graph.Acyclic.{Inv, Inv-visit, Inv-apart, unvisited_nothing}

-- No dependency is listed twice.
abbrev pub AllOnce : List ResearchTask → Type 0
AllOnce tasks = All (λ t. (k : ℕ) → occurs k t.dependencies ≤ 1) tasks

-- A counter is not above the dependencies that are left.
abbrev pub IsTight : List ℕ → Degree → Type 0
IsTight visited d = d.count ≤ unvisited visited d.task.dependencies

no_contains : (k : ℕ) (xs : List ℕ) → contains k xs ≡ false → occurs k xs ≡ 0
no_contains k [] h = refl
no_contains k (x ∷ xs) h = ground (arith, no_contains k xs)

IsTight-lower :
    (node : ℕ) (visited : List ℕ) (d : Degree)
    → contains node visited ≡ false
    → occurs node d.task.dependencies ≤ 1
    → IsTight visited d
    → IsTight (node ∷ visited) (record {
      task = d.task;
      count = if contains node d.task.dependencies then (lower d.count).0 else d.count;
    })
IsTight-lower node visited d h once s =
    ground (
      arith,
      unvisited-cons node visited d.task.dependencies h,
      no_contains node d.task.dependencies,
    )

visit_children-IsTight :
    (node : ℕ) (visited : List ℕ) (ds : List Degree) (queue : List ℕ)
    → contains node visited ≡ false
    → AllOnce (tasks_of ds)
    → All (IsTight visited) ds
    → All (IsTight (node ∷ visited)) (visit_children node ds queue).0
unfolding visit_children
visit_children-IsTight node visited [] queue h once s = tt
visit_children-IsTight node visited (d ∷ ds) queue h once s = (
  IsTight-lower node visited d h (once.0 node) s.0,
  visit_children-IsTight node visited ds _ h once.1 s.1,
)

module _ (tasks : List ResearchTask) (one : (k : ℕ) → occurs k (task_ids tasks) ≤ 1)
    (once : AllOnce tasks) where
  pub record Final (n : ℕ) (ds : List Degree) (queue : List ℕ) (v : ℕ) : Type 0 where
    pub degrees : List Degree
    pub visited : List ℕ
    pub inv : Inv tasks one degrees [] visited
    pub tight : All (IsTight visited) degrees
    pub work : v + positive degrees ≡ n + length queue + positive ds

  pub kahn-Final :
      (fuel : ℕ) (ds : List Degree) (queue visited : List ℕ) (n v : ℕ)
      → Inv tasks one ds queue visited
      → All (IsTight visited) ds
      → kahn fuel ds queue n ≡ some v
      → Final n ds queue v
  unfolding kahn
  kahn-Final fuel ds [] visited n v inv tight h = record {
    degrees = ds;
    visited = visited;
    inv = inv;
    tight = tight;
    work = ground arith;
  }
  kahn-Final zero ds (node ∷ queue) visited n v inv tight h = cc
  kahn-Final (suc fuel) ds (node ∷ queue) visited n v inv tight h =
      let tight' =
        visit_children-IsTight node visited ds queue (Inv-apart tasks one ds node queue visited inv)
          (subst AllOnce (sym inv.same) once) tight in
      let final =
        kahn-Final fuel _ _ (node ∷ visited) (n + 1) v
          (Inv-visit tasks one ds node queue visited inv) tight' h in
      record {
        degrees = final.degrees;
        visited = final.visited;
        inv = final.inv;
        tight = final.tight;
        work = omega (arith, final.work, visit_children_work node ds queue);
      }

pub indegree-IsTight : (ts : List ResearchTask) → All (IsTight []) (indegree ts)
unfolding indegree
indegree-IsTight [] = tt
indegree-IsTight (t ∷ ts) = (omega (arith, unvisited_nothing t.dependencies), indegree-IsTight ts)
