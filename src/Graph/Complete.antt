-- ===== src/Graph/Complete.antt =====
-- The cycle detection of `validate_task_graph` accepts every graph that has an order.
use agentic_equity_research.Prelude.{
  ℕ, zero, suc, ◌+◌, ◌≤◌, ◌<◌, ◌≡◌, refl, ap, sym, ◌∙◌, true, some, List, [], ◌∷◌, ◌==◌, ==_iff,
  ==_refl, length, length-sort_by, leb, sort_by, ok, arith, All,
}
use mathlib.Core.Path.{subst}
use agentic_equity_research.Task.{ResearchTask, contains}
use agentic_equity_research.Graph.{
  Degree, indegree, ids_at_zero, task_ids, check_cycles, check_duplicates, check_dependencies,
  check_all_dependencies, validate_task_graph,
}
use agentic_equity_research.Graph.Lookup.{IsDistinct, Fresh}
use agentic_equity_research.Graph.Kahn.{positive, kahn_total, zero_or_positive, length-indegree}
use agentic_equity_research.Graph.Visits.{occurs, tasks_of, zeros, unvisited}
use agentic_equity_research.Graph.Acyclic.{Inv, Inv-indegree, contains-occurs, Fresh-occurs}
use agentic_equity_research.Graph.Tight.{AllOnce, IsTight, kahn-Final, indegree-IsTight}

-- The rank of each dependency is lower, and each dependency is one of `ids`.
abbrev pub IsRanked : (ℕ → ℕ) → List ℕ → List ResearchTask → Type 0
IsRanked rank ids tasks =
    All
      (λ t.
        (dep : ℕ)
        → contains dep t.dependencies ≡ true
        → (rank dep < rank t.task_id) × (1 ≤ occurs dep ids))
      tasks

no_unvisited :
    (visited deps : List ℕ)
    → ((dep : ℕ) → contains dep deps ≡ true → contains dep visited ≡ true)
    → unvisited visited deps ≡ 0
no_unvisited visited [] h = refl
no_unvisited visited (d ∷ deps) h =
    ground (arith, h d, no_unvisited visited deps (λ dep c. h dep (ground arith)), ==_refl d)

module _ (rank : ℕ → ℕ) where
  -- The counters of the tasks of a rank below `n` are at 0.
  abbrev pub ZeroBelow : ℕ → List Degree → Type 0
  ZeroBelow n ds = All (λ d. rank d.task.task_id < n → d.count ≡ 0) ds

  pub zeros_below :
      (n k : ℕ) (ds : List Degree)
      → rank k < n
      → ZeroBelow n ds
      → occurs k (task_ids (tasks_of ds)) ≤ zeros k ds
  zeros_below n k [] lt z = omega arith
  zeros_below n k (d ∷ ds) lt z = ground (arith, zeros_below n k ds lt z.1, same)
    where
      same : (d.task.task_id == k) ≡ true → rank d.task.task_id < n
      same e = subst (λ x. rank x < n) (sym ((==_iff d.task.task_id k).0 e)) lt

  pub ZeroBelow-suc :
      (n : ℕ) (visited : List ℕ) (ids : List ℕ) (ds : List Degree)
      → ((k : ℕ) → rank k < n → 1 ≤ occurs k ids → contains k visited ≡ true)
      → All (IsTight visited) ds
      → IsRanked rank ids (tasks_of ds)
      → ZeroBelow (suc n) ds
  ZeroBelow-suc n visited ids [] below tight ranked = tt
  ZeroBelow-suc n visited ids (d ∷ ds) below tight ranked = (
    (λ lt. omega (
      arith,
      tight.0,
      no_unvisited visited d.task.dependencies
          (λ dep c. below dep (omega (arith, (ranked.0 dep c).0)) (ranked.0 dep c).1),
    )),
    ZeroBelow-suc n visited ids ds below tight.1 ranked.1,
  )

  pub all_zero : (ds : List Degree) → ((n : ℕ) → ZeroBelow n ds) → positive ds ≡ 0
  all_zero [] h = refl
  all_zero (d ∷ ds) h =
      ground (arith, all_zero ds (λ n. (h n).1), (h (suc (rank d.task.task_id))).0 (omega arith))

  pub no_rank : (ds : List Degree) → ZeroBelow 0 ds
  no_rank [] = tt
  no_rank (d ∷ ds) = ((λ lt. absurd (omega arith)), no_rank ds)

  Inv-ZeroBelow :
      (tasks : List ResearchTask) (one : (k : ℕ) → occurs k (task_ids tasks) ≤ 1) (ds : List Degree)
      (visited : List ℕ)
      → IsRanked rank (task_ids tasks) tasks
      → Inv tasks one ds [] visited
      → All (IsTight visited) ds
      → (n : ℕ) → ZeroBelow n ds
  Inv-ZeroBelow tasks one ds visited ranked inv tight zero = no_rank ds
  Inv-ZeroBelow tasks one ds visited ranked inv tight (suc n) =
      let z = Inv-ZeroBelow tasks one ds visited ranked inv tight n in
      ZeroBelow-suc n visited (task_ids tasks) ds
        (λ k lt here. contains-occurs k visited (
          omega (
            arith,
            inv.counted k,
            zeros_below n k ds lt z,
            ap (λ ts. occurs k (task_ids ts)) inv.same,
          )))
        tight (subst (IsRanked rank (task_ids tasks)) (sym inv.same) ranked)

  check_cycles-IsRanked :
      (tasks : List ResearchTask)
      → IsDistinct tasks
      → AllOnce tasks
      → IsRanked rank (task_ids tasks) tasks
      → check_cycles tasks ≡ ok tt
  unfolding check_cycles
  check_cycles-IsRanked tasks distinct once ranked =
      let one : (k : ℕ) → occurs k (task_ids tasks) ≤ 1 =
        λ k. (Fresh-occurs k [] tasks distinct).0 in
      let ds = indegree tasks in
      let queue = sort_by leb (ids_at_zero ds) in
      let sizes : length queue + positive ds ≡ length tasks =
        omega (
          arith,
          zero_or_positive ds,
          length-indegree tasks,
          length-sort_by leb (ids_at_zero ds),
        ) in
      let (v, e) = kahn_total (length tasks) ds queue 0 (omega (arith, sizes)) in
      let final =
        kahn-Final tasks one once (length tasks) ds queue [] 0 v (Inv-indegree tasks one)
          (indegree-IsTight tasks) e in
      let settled =
        all_zero final.degrees
          (Inv-ZeroBelow tasks one final.degrees final.visited ranked final.inv final.tight) in
      let all : v ≡ length tasks = omega (arith, final.work, settled, sizes) in
      rw (e ∙ ap some all) (ground arith)

  check_dependencies-IsRanked :
      (ids : List ℕ) (key : ℕ) (deps : List ℕ)
      → ((dep : ℕ) → contains dep deps ≡ true → (rank dep < rank key) × (1 ≤ occurs dep ids))
      → check_dependencies ids key deps ≡ ok tt
  unfolding check_dependencies
  check_dependencies-IsRanked ids key [] h = refl
  check_dependencies-IsRanked ids key (dep ∷ deps) h =
      let (lt, here) = h dep (ground (arith, ==_refl dep)) in
      ground (
        arith,
        contains-occurs dep ids here,
        apart,
        check_dependencies-IsRanked ids key deps (λ x c. h x (ground arith)),
      )
    where
      apart : (dep == key) ≡ true → rank dep ≡ rank key
      apart e = ap rank ((==_iff dep key).0 e)

  check_all_dependencies-IsRanked :
      (ids : List ℕ) (tasks : List ResearchTask)
      → IsRanked rank ids tasks
      → check_all_dependencies ids tasks ≡ ok tt
  unfolding check_all_dependencies
  check_all_dependencies-IsRanked ids [] h = refl
  check_all_dependencies-IsRanked ids (t ∷ ts) h =
      rw (check_dependencies-IsRanked ids t.task_id t.dependencies h.0)
        (check_all_dependencies-IsRanked ids ts h.1)

  check_duplicates-Fresh :
      (seen : List ℕ) (ts : List ResearchTask) → Fresh seen ts → check_duplicates seen ts ≡ ok tt
  unfolding check_duplicates
  check_duplicates-Fresh seen [] h = refl
  check_duplicates-Fresh seen (t ∷ ts) h = rw h.0 (check_duplicates-Fresh (t.task_id ∷ seen) ts h.1)

  -- A task list with distinct keys whose dependencies can be ranked, each listed once, each the key
  -- of a task and each of a lower rank than the task that lists it, is accepted.
  pub validate_task_graph-IsRanked :
      (tasks : List ResearchTask)
      → IsDistinct tasks
      → AllOnce tasks
      → IsRanked rank (task_ids tasks) tasks
      → validate_task_graph tasks ≡ ok tt
  unfolding validate_task_graph
  validate_task_graph-IsRanked tasks distinct once ranked =
      rw
        (
          check_duplicates-Fresh [] tasks distinct,
          check_all_dependencies-IsRanked (task_ids tasks) tasks ranked,
        )
        (check_cycles-IsRanked tasks distinct once ranked)
