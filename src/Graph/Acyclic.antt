-- ===== src/Graph/Acyclic.antt =====
-- The task graphs that `validate_task_graph` accepts have no cycle.
use agentic_equity_research.Prelude.{
  ℕ, zero, suc, ◌+◌, ◌≤◌, ◌<◌, ◌≡◌, refl, ap, sym, ◌∙◌, true, false, inl, inr, Option, some, List,
  [], ◌∷◌, ◌==◌, ==_iff, ==_refl, length, count, count-sort_by, length-sort_by, Elem, Elem-All, leb,
  sort_by, ok, arith, All, if◌then◌else◌, Bool-cases,
}
use mathlib.Core.Path.{subst}
use agentic_equity_research.Task.{ResearchTask, contains}
use agentic_equity_research.Graph.{
  Degree, indegree, ids_at_zero, visit_children, kahn, task_ids, check_visited, check_cycles,
  validate_task_graph,
}
use agentic_equity_research.Graph.Kahn.{
  positive, visit_children_work, zero_or_positive, length-indegree,
}
use agentic_equity_research.Graph.Lookup.{Fresh, validate_task_graph_sound}
use agentic_equity_research.Graph.Visits.{
  occurs, tasks_of, zeros, unvisited, IsSettled, visit_children-occurs, visit_children-tasks_of,
  visit_children-IsSettled,
}

-- Every dependency of the task `x` was visited before.
abbrev pub IsAfter : List ℕ → ℕ → ResearchTask → Type 0
IsAfter visited x t = (t.task_id == x) ≡ true → unvisited visited t.dependencies ≡ 0

-- The last visited comes first.
abbrev pub InOrder : List ResearchTask → List ℕ → Type 0
InOrder tasks [] = Unit
InOrder tasks (x ∷ visited) = All (IsAfter visited x) tasks × InOrder tasks visited

module _ (tasks : List ResearchTask) (one : (k : ℕ) → occurs k (task_ids tasks) ≤ 1) where
  pub record Inv (ds : List Degree) (queue visited : List ℕ) : Type 0 where
    pub same : tasks_of ds ≡ tasks
    pub counted : (k : ℕ) → occurs k visited + occurs k queue ≡ zeros k ds
    settled : All (IsSettled visited) ds
    ordered : InOrder tasks visited

  pub zeros_le : (k : ℕ) (ds : List Degree) → zeros k ds ≤ occurs k (task_ids (tasks_of ds))
  zeros_le k [] = omega arith
  zeros_le k (d ∷ ds) = ground (arith, zeros_le k ds)

  pub zeros-All :
      (k : ℕ) (ds : List Degree)
      → occurs k (task_ids (tasks_of ds)) ≤ zeros k ds
      → All (λ d. (d.task.task_id == k) ≡ true → d.count ≡ 0) ds
  zeros-All k [] h = tt
  zeros-All k (d ∷ ds) h = ground (arith, zeros-All k ds, zeros_le k ds)

  pub settled-IsAfter :
      (visited : List ℕ) (x : ℕ) (ds : List Degree)
      → All (IsSettled visited) ds
      → All (λ d. (d.task.task_id == x) ≡ true → d.count ≡ 0) ds
      → All (IsAfter visited x) (tasks_of ds)
  settled-IsAfter visited x [] s z = tt
  settled-IsAfter visited x (d ∷ ds) s z =
      ((λ e. omega (arith, s.0, z.0 e)), settled-IsAfter visited x ds s.1 z.1)

  pub no_occurs : (k : ℕ) (xs : List ℕ) → occurs k xs ≡ 0 → contains k xs ≡ false
  no_occurs k [] h = refl
  no_occurs k (x ∷ xs) h = ground (arith, no_occurs k xs)

  pub occurs-head : (k : ℕ) (xs : List ℕ) → occurs k (k ∷ xs) ≡ suc (occurs k xs)
  occurs-head k xs = rw (==_refl k, count) refl

  -- The head of the queue has not been visited.
  head_once :
      (ds : List Degree) (node : ℕ) (queue visited : List ℕ)
      → Inv ds (node ∷ queue) visited
      → (occurs node visited ≡ 0) × (occurs node (task_ids (tasks_of ds)) ≤ zeros node ds)
  head_once ds node queue visited inv =
      let bound : occurs node (task_ids (tasks_of ds)) ≤ 1 = rw inv.same (one node) in
      let head = occurs-head node queue in
      (
        omega (arith, inv.counted node, zeros_le node ds, bound, head),
        omega (arith, inv.counted node, zeros_le node ds, bound, head),
      )

  pub Inv-apart :
      (ds : List Degree) (node : ℕ) (queue visited : List ℕ)
      → Inv ds (node ∷ queue) visited
      → contains node visited ≡ false
  Inv-apart ds node queue visited inv =
      no_occurs node visited (head_once ds node queue visited inv).0

  pub Inv-visit :
      (ds : List Degree) (node : ℕ) (queue visited : List ℕ)
      → Inv ds (node ∷ queue) visited
      → Inv (visit_children node ds queue).0 (visit_children node ds queue).1 (node ∷ visited)
  Inv-visit ds node queue visited inv = record {
    same = visit_children-tasks_of node ds queue ∙ inv.same;
    counted = λ k. ground (arith, visit_children-occurs k node ds queue, inv.counted k);
    settled =
        visit_children-IsSettled node visited ds queue (Inv-apart ds node queue visited inv)
          inv.settled;
    ordered = (
      subst (All (IsAfter visited node)) inv.same (
          settled-IsAfter visited node ds inv.settled
            (zeros-All node ds (head_once ds node queue visited inv).1)),
      inv.ordered,
    );
  }

  -- What is left when the loop ends.
  record Ended (visited_count : ℕ) (ds : List Degree) (queue : List ℕ) (v : ℕ) : Type 0 where
    final : List Degree
    visited : List ℕ
    inv : Inv final [] visited
    work : v + positive final ≡ visited_count + length queue + positive ds

  kahn-Ended :
      (fuel : ℕ) (ds : List Degree) (queue visited : List ℕ) (n v : ℕ)
      → Inv ds queue visited
      → kahn fuel ds queue n ≡ some v
      → Ended n ds queue v
  unfolding kahn
  kahn-Ended fuel ds [] visited n v inv h = record {
    final = ds;
    visited = visited;
    inv = inv;
    work = ground arith;
  }
  kahn-Ended zero ds (node ∷ queue) visited n v inv h = cc
  kahn-Ended (suc fuel) ds (node ∷ queue) visited n v inv h =
      let ended =
        kahn-Ended fuel _ _ (node ∷ visited) (n + 1) v (Inv-visit ds node queue visited inv) h in
      record {
        final = ended.final;
        visited = ended.visited;
        inv = ended.inv;
        work = omega (arith, ended.work, visit_children_work node ds queue);
      }

-- The place of a task in the visits: its first one counts.
abbrev pub rank : List ℕ → ℕ → ℕ
rank [] k = 0
rank (x ∷ visited) k =
    let earlier = rank visited k in
    if contains k visited then earlier else if x == k then suc (length visited) else 0

rank_le : (visited : List ℕ) (k : ℕ) → rank visited k ≤ length visited
rank_le [] k = omega arith
rank_le (x ∷ visited) k = ground (arith, rank_le visited k)

-- All of `deps` were visited.
pub all_visited :
    (visited deps : List ℕ) (dep : ℕ)
    → unvisited visited deps ≡ 0
    → contains dep deps ≡ true
    → contains dep visited ≡ true
all_visited visited [] dep h c = cc
all_visited visited (d ∷ deps) dep h c = elim (Bool-cases (d == dep)) [
  | inl e ↦ subst (λ k. contains k visited ≡ true) ((==_iff d dep).0 e) (ground arith)
  | inr e ↦ all_visited visited deps dep (ground arith) (ground arith)
]

pub rank_falls :
    (tasks : List ResearchTask) (visited : List ℕ) (t : ResearchTask) (dep : ℕ)
    → ((x : ℕ) (rest : List ℕ) → All (IsAfter rest x) tasks → IsAfter rest x t)
    → InOrder tasks visited
    → contains t.task_id visited ≡ true
    → contains dep t.dependencies ≡ true
    → (contains dep visited ≡ true) × (rank visited dep < rank visited t.task_id)
rank_falls tasks [] t dep pick order inside c = cc
rank_falls tasks (x ∷ visited) t dep pick order inside c =
    elim (Bool-cases (contains t.task_id visited)) [
      | inl e ↦ ground (arith, rank_falls tasks visited t dep pick order.1 e c)
      | inr e ↦ ground (
        arith,
        all_visited visited t.dependencies dep (pick x visited order.0 (ground arith)) c,
        rank_le visited dep,
      )
    ]

pub positive-zeros :
    (k : ℕ) (ds : List Degree) → positive ds ≡ 0 → zeros k ds ≡ occurs k (task_ids (tasks_of ds))
positive-zeros k [] h = refl
positive-zeros k (d ∷ ds) h = ground (arith, positive-zeros k ds)

pub tasks_of-indegree : (ts : List ResearchTask) → tasks_of (indegree ts) ≡ ts
unfolding indegree
tasks_of-indegree [] = refl
tasks_of-indegree (t ∷ ts) = ap (λ us. t ∷ us) (tasks_of-indegree ts)

occurs-ids_at_zero : (k : ℕ) (ds : List Degree) → occurs k (ids_at_zero ds) ≡ zeros k ds
occurs-ids_at_zero k [] = refl
occurs-ids_at_zero k (d ∷ ds) = ground (arith, occurs-ids_at_zero k ds)

pub unvisited_nothing : (deps : List ℕ) → unvisited [] deps ≡ length deps
unvisited_nothing [] = refl
unvisited_nothing (d ∷ deps) = ap suc (unvisited_nothing deps)

indegree-IsSettled : (ts : List ResearchTask) → All (IsSettled []) (indegree ts)
unfolding indegree
indegree-IsSettled [] = tt
indegree-IsSettled (t ∷ ts) =
    (omega (arith, unvisited_nothing t.dependencies), indegree-IsSettled ts)

pub contains-occurs : (k : ℕ) (xs : List ℕ) → 1 ≤ occurs k xs → contains k xs ≡ true
contains-occurs k [] h = absurd (omega arith)
contains-occurs k (x ∷ xs) h = ground (arith, contains-occurs k xs)

module _ (tasks : List ResearchTask) (one : (k : ℕ) → occurs k (task_ids tasks) ≤ 1) where
  pub Inv-indegree : Inv tasks one (indegree tasks) (sort_by leb (ids_at_zero (indegree tasks))) []
  Inv-indegree = record {
    same = tasks_of-indegree tasks;
    counted = λ k. omega (
      arith,
      count-sort_by leb (λ x. x == k) (ids_at_zero (indegree tasks)),
      occurs-ids_at_zero k (indegree tasks),
    );
    settled = indegree-IsSettled tasks;
    ordered = tt;
  }

  visited_all : (v : Option ℕ) (n : ℕ) → check_visited v n ≡ ok tt → v ≡ some n
  visited_all v n h = ground arith

  -- The visits of an accepted graph.
  pub check_cycles-Ended :
      check_cycles tasks ≡ ok tt
      → (visited : List ℕ) × InOrder tasks visited
        × ((k : ℕ) → occurs k visited ≡ occurs k (task_ids tasks))
  unfolding check_cycles
  check_cycles-Ended h =
      let ds = indegree tasks in
      let queue = sort_by leb (ids_at_zero ds) in
      let ended =
        kahn-Ended tasks one (length tasks) ds queue [] 0 (length tasks) Inv-indegree
          (visited_all (kahn (length tasks) ds queue 0) (length tasks) h) in
      let settled : positive ended.final ≡ 0 = omega (
        arith,
        ended.work,
        zero_or_positive ds,
        length-indegree tasks,
        length-sort_by leb (ids_at_zero ds),
      ) in
      (
        ended.visited,
        ended.inv.ordered,
        λ k. omega (
          arith,
          ended.inv.counted k,
          positive-zeros k ended.final settled,
          ap (λ ts. occurs k (task_ids ts)) ended.inv.same,
        ),
      )

-- `b` is a dependency of `a`, or of what `a` needs.
pub data Needs (tasks : List ResearchTask) : ℕ → ℕ → Type 0 where
  direct :
      {t : ResearchTask} {dep : ℕ}
      → Elem t tasks
      → contains dep t.dependencies ≡ true
      → Needs tasks t.task_id dep
  through : {a b c : ℕ} → Needs tasks a b → Needs tasks b c → Needs tasks a c

abbrev pub IsAcyclic : List ResearchTask → Type 0
IsAcyclic tasks = (k : ℕ) → ¬ Needs tasks k k

pub Elem-occurs :
    (t : ResearchTask) (ts : List ResearchTask) → Elem t ts → 1 ≤ occurs t.task_id (task_ids ts)
Elem-occurs t [] m = elim m [ ]
Elem-occurs t (u ∷ ts) Elem.here = rw (==_refl t.task_id, count) (omega arith)
Elem-occurs t (u ∷ ts) (Elem.there m) = ground (arith, Elem-occurs t ts m)

Needs-rank :
    (tasks : List ResearchTask) (visited : List ℕ)
    → InOrder tasks visited
    → ((k : ℕ) → occurs k visited ≡ occurs k (task_ids tasks))
    → {a b : ℕ} → Needs tasks a b
    → rank visited b < rank visited a
Needs-rank tasks visited order all (Needs.direct {t} {dep} m c) =
    (rank_falls tasks visited t dep (λ x rest h. Elem-All (IsAfter rest x) m h) order
      (contains-occurs t.task_id visited (omega (arith, all t.task_id, Elem-occurs t tasks m))) c).1
Needs-rank tasks visited order all (Needs.through m n) =
    omega (arith, Needs-rank tasks visited order all m, Needs-rank tasks visited order all n)

pub Fresh-occurs :
    (k : ℕ) (seen : List ℕ) (ts : List ResearchTask)
    → Fresh seen ts
    → (occurs k (task_ids ts) ≤ 1) × (contains k seen ≡ true → occurs k (task_ids ts) ≡ 0)
Fresh-occurs k seen [] h = (omega arith, λ e. refl)
Fresh-occurs k seen (t ∷ ts) h = ground (arith, Fresh-occurs k (t.task_id ∷ seen) ts h.1, same)
  where
    same : (t.task_id == k) ≡ true → contains k seen ≡ false
    same e = ap (λ x. contains x seen) (sym ((==_iff t.task_id k).0 e)) ∙ h.0

-- In a task graph that is accepted, no task needs itself, by whatever chain of dependencies.
pub validate_task_graph-IsAcyclic :
    (tasks : List ResearchTask) → validate_task_graph tasks ≡ ok tt → IsAcyclic tasks
validate_task_graph-IsAcyclic tasks h k needs =
    let (distinct, _, accepted) = validate_task_graph_sound tasks h in
    let (visited, order, all) =
      check_cycles-Ended tasks (λ x. (Fresh-occurs x [] tasks distinct).0) accepted in
    absurd (omega (arith, Needs-rank tasks visited order all needs))
