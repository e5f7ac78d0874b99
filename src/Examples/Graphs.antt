-- ===== src/Examples/Graphs.antt =====
-- Task graphs.
use agentic_equity_research.Prelude.{
  ◌≢◌, out_of_fuel, ◌≤◌, ◌≡◌, refl, true, false, ◌⊎◌, Option, some, List, [], ◌∷◌, ok, err, length,
  All, Elem, arith, ℕ, sym, ==_iff, IsOrdered, sort_by, insert_by, graph_cycle,
}
use agentic_equity_research.Task.{
  TaskStatus, ResearchTask, contains, check_task, with_status, moved,
}
use agentic_equity_research.Text.{normalize, split_from, is_space, lstrip, rstrip, strip}
use agentic_equity_research.Graph.{
  put_task, put_all, by_id, find_task, task_ids, check_duplicates, check_dependencies,
  check_all_dependencies, indegree, visit_children, kahn, check_cycles, validate_task_graph,
  ready_tasks, select_next_ready_task, precedes, has_failed_parent, visit_task, propagate_pass,
  propagate_loop, apply_failure_propagation, deps_succeeded, collect_ready,
}
use agentic_equity_research.Graph.Lookup.{IsDistinct, IsClosed, validate_task_graph_sound}
use agentic_equity_research.Graph.Kahn.{check_cycles_ends}
use agentic_equity_research.Graph.Acyclic.{IsAcyclic, validate_task_graph-IsAcyclic}
use agentic_equity_research.Graph.Complete.{validate_task_graph-IsRanked}
use agentic_equity_research.Graph.Visits.{occurs}
use agentic_equity_research.Graph.Topological.{topological_order}
use agentic_equity_research.Graph.Topological.Run.{IsSorted}
use agentic_equity_research.Graph.Topological.Order.{topological_order_sorts}
use agentic_equity_research.Graph.Ready.{
  IsRunnable, IsChoice, ready_tasks_exact, select_next_ready_task_first,
}
use agentic_equity_research.Graph.Spread.Fallen.{Fell, IsWaiting, FallenParent}
use agentic_equity_research.Graph.Spread.Fixpoint.{apply_failure_propagation_settles}
use agentic_equity_research.Budget.{
  default_budget, depth_loop, depth_of, check_tasks, validate_tasks,
}
use agentic_equity_research.Budget.Depth.{validate_tasks_ends}
use agentic_equity_research.Budget.Limits.{Fits, total_max_attempts, validate_tasks_sound}
use agentic_equity_research.Examples.Samples.{task, broken, broken-IsWellFormed}

program : Unit {0}
unfolding validate_task_graph check_duplicates check_all_dependencies check_dependencies
    check_cycles indegree kahn visit_children sort_by insert_by validate_tasks check_tasks depth_of
    depth_loop by_id put_all put_task find_task ready_tasks collect_ready deps_succeeded
    select_next_ready_task apply_failure_propagation propagate_loop propagate_pass visit_task
    has_failed_parent with_status moved check_task strip lstrip rstrip normalize split_from is_space
program = tt

broken_accepted : validate_task_graph broken ≡ ok tt
unfolding program
broken_accepted = refl

cyclic_rejected :
    validate_task_graph
      (task 1 (2 ∷ []) TaskStatus.pending true ∷ task 2 (1 ∷ []) TaskStatus.pending true ∷ [])
    ≡ err graph_cycle
unfolding program
cyclic_rejected = refl

-- A dependency that is listed twice is counted twice and taken off once.
repeated_rejected :
    validate_task_graph
      (task 1 [] TaskStatus.pending true ∷ task 2 (1 ∷ 1 ∷ []) TaskStatus.pending true ∷ [])
    ≡ err graph_cycle
unfolding program
repeated_rejected = refl

broken_next : select_next_ready_task broken ≡ ok (some (task 4 [] TaskStatus.pending true))
unfolding program
broken_next = refl

broken_spread :
    apply_failure_propagation broken
    ≡ ok (
        task 1 [] TaskStatus.failed true
        ∷ task 2 (1 ∷ []) TaskStatus.blocked true
        ∷ task 3 (2 ∷ []) TaskStatus.skipped false
        ∷ task 4 [] TaskStatus.pending true
        ∷ [])
unfolding program
broken_spread = refl

broken_facts : IsDistinct broken × IsClosed (task_ids broken) broken × (check_cycles broken ≡ ok tt)
broken_facts = validate_task_graph_sound broken broken_accepted

validate_task_graph_sound_example :
    IsDistinct broken × IsClosed (task_ids broken) broken × (check_cycles broken ≡ ok tt)
validate_task_graph_sound_example = validate_task_graph_sound broken broken_accepted

validate_task_graph-IsAcyclic_example : IsAcyclic broken
validate_task_graph-IsAcyclic_example = validate_task_graph-IsAcyclic broken broken_accepted

none_twice : (k : ℕ) → occurs k [] ≤ 1
none_twice k = omega arith

one_once : (x k : ℕ) → occurs k (x ∷ []) ≤ 1
one_once x k = ground arith

only : (dep x : ℕ) → contains dep (x ∷ []) ≡ true → dep ≡ x
only dep x c = ground (arith, sym ((==_iff x dep).0 (ground arith)))

validate_task_graph-IsRanked_example : validate_task_graph broken ≡ ok tt
validate_task_graph-IsRanked_example =
    validate_task_graph-IsRanked (λ k. k) broken broken_facts.0
      (none_twice, (one_once 1, (one_once 2, (none_twice, tt))))
      (
        (λ dep c. absurd (ground arith)),
        (
          (λ dep c. ground (arith, only dep 1)),
          ((λ dep c. ground (arith, only dep 2)), ((λ dep c. absurd (ground arith)), tt)),
        ),
      )

topological_order_sorts_example :
    (result : List ResearchTask) × (topological_order broken ≡ ok result)
    × IsSorted [] result
    × All (λ t. Elem t broken) result
    × ((k : ℕ) → occurs k (task_ids result) ≡ occurs k (task_ids broken))
topological_order_sorts_example = topological_order_sorts broken broken_accepted

check_cycles_ends_example : (check_cycles broken ≡ ok tt) ⊎ (check_cycles broken ≡ err graph_cycle)
check_cycles_ends_example = check_cycles_ends broken

ready_tasks_exact_example :
    (r : List ResearchTask) × (ready_tasks broken ≡ ok r)
    × ((a : ResearchTask) → Elem a r → IsRunnable broken a × Elem a broken)
    × ((a : ResearchTask) → Elem a broken → IsRunnable broken a → Elem a r)
    × IsOrdered precedes r
ready_tasks_exact_example = ready_tasks_exact broken broken_facts.0 broken_facts.1

select_next_ready_task_first_example :
    (o : Option ResearchTask) × (select_next_ready_task broken ≡ ok o) × IsChoice broken o
select_next_ready_task_first_example =
    select_next_ready_task_first broken broken_facts.0 broken_facts.1

apply_failure_propagation_settles_example :
    (n : List ResearchTask) × (apply_failure_propagation broken ≡ ok (sort_by precedes n))
    × (task_ids n ≡ task_ids broken)
    × ((k : ℕ) (t : ResearchTask)
        → find_task k broken ≡ some t
        → (u : ResearchTask) × (find_task k n ≡ some u) × Fell n t u)
    × All (λ t. IsWaiting t → ¬ FallenParent n t.dependencies) n
apply_failure_propagation_settles_example =
    apply_failure_propagation_settles broken broken_facts.0 broken_facts.1 broken-IsWellFormed

broken_fits : validate_tasks default_budget broken ≡ ok tt
unfolding program
broken_fits = refl

validate_tasks_sound_example :
    (length broken ≤ default_budget.max_tasks)
    × (length broken ≤ default_budget.max_external_calls)
    × (total_max_attempts broken ≤ default_budget.max_total_attempts)
    × All (Fits default_budget (by_id broken)) broken
validate_tasks_sound_example = validate_tasks_sound default_budget broken broken_fits

-- Two tasks that need each other.
validate_tasks_ends_example :
    validate_tasks default_budget
      (task 1 (2 ∷ []) TaskStatus.pending true ∷ task 2 (1 ∷ []) TaskStatus.pending true ∷ [])
    ≢ err out_of_fuel
validate_tasks_ends_example =
    validate_tasks_ends default_budget
      (task 1 (2 ∷ []) TaskStatus.pending true ∷ task 2 (1 ∷ []) TaskStatus.pending true ∷ [])
