-- ===== src/Graph/Topological/Order.antt =====
-- `topological_order` puts every task once, after its dependencies.
use agentic_equity_research.Prelude.{
  ℕ, zero, suc, ◌+◌, ◌≤◌, ◌≡◌, refl, ap, sym, inl, inr, List, [], ◌∷◌, ◌++◌, ◌==◌, count-sort_by,
  length, sort_by, arith, All, All-map, All-Elem, Elem, Elem-All, Bool-cases, sort_by-All,
  length-sort_by, ok, >>=-eq-ok,
}
use mathlib.Core.Path.{subst}
use agentic_equity_research.Task.{ResearchTask}
use agentic_equity_research.Graph.{
  Degree, indegree, task_ids, precedes, check_cycles, validate_task_graph,
}
use agentic_equity_research.Graph.Lookup.{validate_task_graph_sound}
use agentic_equity_research.Graph.Visits.{occurs, tasks_of, zeros, occurs-contains}
use agentic_equity_research.Graph.Kahn.{positive, length-indegree}
use agentic_equity_research.Graph.Tight.{IsTight}
use agentic_equity_research.Graph.Complete.{
  IsRanked, ZeroBelow, zeros_below, ZeroBelow-suc, all_zero, no_rank,
}
use agentic_equity_research.Graph.Acyclic.{
  IsAfter, rank, rank_falls, positive-zeros, tasks_of-indegree, check_cycles-Ended, contains-occurs,
  Fresh-occurs, Elem-occurs, unvisited_nothing,
}
use agentic_equity_research.Graph.Topological.{children, tasks_at_zero, emit, topological_order}
use agentic_equity_research.Graph.Topological.Release.{named, Due, release_work}
use agentic_equity_research.Graph.Topological.Children.{named-task_ids}
use agentic_equity_research.Graph.Topological.Run.{IsSorted, Run, emit-Emitted}

indegree-Due : (ts : List ResearchTask) → All (Due [] []) (indegree ts)
unfolding indegree
indegree-Due [] = tt
indegree-Due (t ∷ ts) = (omega (arith, unvisited_nothing t.dependencies), indegree-Due ts)

named-tasks_at_zero : (k : ℕ) (ds : List Degree) → named k (tasks_at_zero ds) ≡ zeros k ds
named-tasks_at_zero k [] = refl
named-tasks_at_zero k (d ∷ ds) = ground (arith, named-tasks_at_zero k ds)

tasks_at_zero-All :
    (P : ResearchTask → Type 0) (ds : List Degree) → All P (tasks_of ds) → All P (tasks_at_zero ds)
tasks_at_zero-All P [] h = tt
tasks_at_zero-All P (d ∷ ds) h = elim (Bool-cases (d.count == 0)) [
  | inl e ↦ rw (e, tasks_at_zero, All) (h.0, tasks_at_zero-All P ds h.1)
  | inr e ↦ rw (e, tasks_at_zero) (tasks_at_zero-All P ds h.1)
]

module _ (tasks : List ResearchTask) (one : (k : ℕ) → occurs k (task_ids tasks) ≤ 1) where
  Run-indegree :
      Run tasks one (indegree tasks) (sort_by precedes (tasks_at_zero (indegree tasks))) []
  Run-indegree = record {
    same = tasks_of-indegree tasks;
    due = indegree-Due tasks;
    queued = λ k. omega (
      arith,
      count-sort_by precedes (λ t. t.task_id == k) (tasks_at_zero (indegree tasks)),
      named-tasks_at_zero k (indegree tasks),
    );
    members =
        sort_by-All precedes (λ t. Elem t tasks) (tasks_at_zero (indegree tasks))
          (tasks_at_zero-All (λ t. Elem t tasks) (indegree tasks)
            (subst (All (λ t. Elem t tasks)) (sym (tasks_of-indegree tasks))
              (All-Elem _ tasks (λ t m. m))));
  }

  -- The visits of the cycle detection rank the tasks.
  accepted_rank :
      check_cycles tasks ≡ ok tt → (order : ℕ → ℕ) × IsRanked order (task_ids tasks) tasks
  accepted_rank accepted =
      let (visited, order, all) = check_cycles-Ended tasks one accepted in
      (
        rank visited,
        All-Elem _ tasks (λ t m dep c.
            let (inside, falls) =
              rank_falls tasks visited t dep (λ x rest h. Elem-All (IsAfter rest x) m h) order
                (contains-occurs t.task_id visited
                  (omega (arith, all t.task_id, Elem-occurs t tasks m)))
                c in
            (falls, omega (arith, all dep, occurs-contains dep visited inside))),
      )

  Run-ZeroBelow :
      (order : ℕ → ℕ) (ds : List Degree) (visited : List ℕ)
      → IsRanked order (task_ids tasks) tasks
      → Run tasks one ds [] visited
      → (n : ℕ) → ZeroBelow order n ds
  Run-ZeroBelow order ds visited ranked run zero = no_rank order ds
  Run-ZeroBelow order ds visited ranked run (suc n) =
      let z = Run-ZeroBelow order ds visited ranked run n in
      ZeroBelow-suc order n visited (task_ids tasks) ds
        (λ k lt here. contains-occurs k visited (
          omega (
            arith,
            run.queued k,
            zeros_below order n k ds lt z,
            ap (λ ts. occurs k (task_ids ts)) run.same,
          )))
        (All-map (Due visited []) (IsTight visited) ds (λ d h. omega (arith, h)) run.due)
        (subst (IsRanked order (task_ids tasks)) (sym run.same) ranked)

  Run-zeros :
      (ds : List Degree) (visited : List ℕ)
      → check_cycles tasks ≡ ok tt
      → Run tasks one ds [] visited
      → (k : ℕ) → occurs k visited ≡ occurs k (task_ids tasks)
  Run-zeros ds visited accepted run k =
      let (order, ranked) = accepted_rank accepted in
      let none_left = all_zero order ds (Run-ZeroBelow order ds visited ranked run) in
      omega (
        arith,
        run.queued k,
        positive-zeros k ds none_left,
        ap (λ ts. occurs k (task_ids ts)) run.same,
      )

-- The tasks that `topological_order` returns are those it is given, each identifier as often as
-- there, and each of them comes after all of its dependencies.
pub topological_order-IsSorted :
    (tasks : List ResearchTask) {result : List ResearchTask}
    → topological_order tasks ≡ ok result
    → IsSorted [] result
      × All (λ t. Elem t tasks) result
      × ((k : ℕ) → occurs k (task_ids result) ≡ occurs k (task_ids tasks))
unfolding topological_order
topological_order-IsSorted tasks {result} h =
    let (_, valid, h1) = >>=-eq-ok (validate_task_graph tasks) _ h in
    let (distinct, _, accepted) = validate_task_graph_sound tasks valid in
    let one : (k : ℕ) → occurs k (task_ids tasks) ≤ 1 = λ k. (Fresh-occurs k [] tasks distinct).0 in
    let e =
      emit-Emitted tasks one (length tasks) (indegree tasks) _ [] [] {result = result}
        (Run-indegree tasks one) h1 in
    let same : e.out ≡ result = sym e.added in
    (
      subst (IsSorted []) same e.sorted,
      subst (All (λ t. Elem t tasks)) same e.members,
      λ k. omega (
        arith,
        named-task_ids k result,
        e.counted k,
        Run-zeros tasks one e.degrees e.final accepted e.run k,
        ap (named k) same,
      ),
    )

emit_total :
    (fuel : ℕ) (tasks : List ResearchTask) (ds : List Degree) (ready ordered : List ResearchTask)
    → length ready + positive ds ≤ fuel
    → (result : List ResearchTask) × (emit fuel tasks ds ready ordered ≡ ok result)
unfolding emit
emit_total fuel tasks ds [] ordered h = (ordered, refl)
emit_total zero tasks ds (t ∷ ready) ordered h = absurd (omega arith)
emit_total (suc fuel) tasks ds (t ∷ ready) ordered h =
    let work = release_work (sort_by precedes (children t.task_id tasks)) ds ready in
    emit_total fuel tasks _ _ (ordered ++ t ∷ []) (omega (arith, work, h))

length-tasks_at_zero : (ds : List Degree) → length (tasks_at_zero ds) + positive ds ≡ length ds
length-tasks_at_zero [] = refl
length-tasks_at_zero (d ∷ ds) = ground (arith, length-tasks_at_zero ds)

-- Of a task graph that is accepted `topological_order` returns the tasks, each identifier as often as
-- it is there, and each task after all of its dependencies.
pub topological_order_sorts :
    (tasks : List ResearchTask)
    → validate_task_graph tasks ≡ ok tt
    → (result : List ResearchTask) × (topological_order tasks ≡ ok result)
      × IsSorted [] result
      × All (λ t. Elem t tasks) result
      × ((k : ℕ) → occurs k (task_ids result) ≡ occurs k (task_ids tasks))
unfolding topological_order
topological_order_sorts tasks valid =
    let ds = indegree tasks in
    let few : length (sort_by precedes (tasks_at_zero ds)) + positive ds ≤ length tasks = omega (
      arith,
      length-sort_by precedes (tasks_at_zero ds),
      length-tasks_at_zero ds,
      length-indegree tasks,
    ) in
    let (result, e) =
      emit_total (length tasks) tasks ds (sort_by precedes (tasks_at_zero ds)) [] few in
    let returned : topological_order tasks ≡ ok result = rw valid e in
    let (sorted, members, counted) = topological_order-IsSorted tasks returned in
    (result, returned, sorted, members, counted)
