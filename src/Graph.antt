-- ===== src/Graph.antt =====
-- src/financial_intelligence/domain/orchestration/graph.py: the task graph.
-- `by_id` is a Python dict: a list of tasks with one entry for each key, in insertion order.
pub mod Kahn
pub mod Acyclic
pub mod Complete
pub mod Lookup
pub mod Ready
pub mod Spread
pub mod Tight
pub mod Topological
pub mod Visits
use agentic_equity_research.Prelude.{
  ℕ, zero, suc, ◌+◌, ◌-◌, Bool, true, false, not, ◌&&◌, ◌||◌, Option, none, some, List, [], ◌∷◌,
  ◌++◌, map, ltb, leb, ◌==◌, length, any, keep, sort_by, Result, ok, err, raise_if, ◌>>=◌, ◌>>◌,
  if◌then◌else◌, duplicate_task_id, missing_dependency, self_dependency, graph_cycle, missing_key,
  out_of_fuel,
}
use agentic_equity_research.Task.{
  TaskStatus, ResearchTask, is_pending, is_ready, is_succeeded, is_completing, contains,
  with_status,
}

-- by_id[task.task_id] = task
unfoldable pub put_task : ResearchTask → List ResearchTask → List ResearchTask
put_task t [] = t ∷ []
put_task t (u ∷ us) = elim (u.task_id == t.task_id) [ true ↦ t ∷ us | false ↦ u ∷ put_task t us ]

unfoldable pub put_all : List ResearchTask → List ResearchTask → List ResearchTask
put_all m [] = m
put_all m (t ∷ ts) = put_all (put_task t m) ts

-- {t.task_id: t for t in tasks}
unfoldable pub by_id : List ResearchTask → List ResearchTask
unfolding put_all put_task
by_id tasks = put_all [] tasks

-- by_id[key]; `none` is the KeyError
unfoldable pub find_task : ℕ → List ResearchTask → Option ResearchTask
find_task k [] = none
find_task k (t ∷ ts) = elim (t.task_id == k) [ true ↦ some t | false ↦ find_task k ts ]

abbrev pub task_ids : List ResearchTask → List ℕ
task_ids tasks = map (λ t. t.task_id) tasks

-- The loop of `validate_task_graph` that builds `by_id` and rejects a key that is there already.
unfoldable pub check_duplicates : List ℕ → List ResearchTask → Result (Unit {0})
check_duplicates seen [] = ok tt
check_duplicates seen (t ∷ ts) = do
  raise_if (contains t.task_id seen) duplicate_task_id
  check_duplicates (t.task_id ∷ seen) ts

-- The loop over the dependencies of one task.
unfoldable pub check_dependencies : List ℕ → ℕ → List ℕ → Result (Unit {0})
check_dependencies ids key [] = ok tt
check_dependencies ids key (dep ∷ deps) = do
  raise_if (not (contains dep ids)) missing_dependency
  raise_if (dep == key) self_dependency
  check_dependencies ids key deps

unfoldable pub check_all_dependencies : List ℕ → List ResearchTask → Result (Unit {0})
unfolding check_dependencies
check_all_dependencies ids [] = ok tt
check_all_dependencies ids (t ∷ ts) = do
  check_dependencies ids t.task_id t.dependencies
  check_all_dependencies ids ts

-- A task with its entry in `indegree`: the dependencies that have not been visited.
pub record Degree : Type 0 where
  pub task : ResearchTask
  pub count : ℕ

-- The entry of a task counts each of its dependencies once for each time it is listed.
unfoldable pub indegree : List ResearchTask → List Degree
indegree [] = []
indegree (t ∷ ts) = record { task = t; count = length t.dependencies } ∷ indegree ts

abbrev pub ids_at_zero : List Degree → List ℕ
ids_at_zero [] = []
ids_at_zero (d ∷ ds) =
    let rest = ids_at_zero ds in
    (elim (d.count == 0) [ true ↦ d.task.task_id ∷ rest | false ↦ rest ])

-- `queue.append(child); queue.sort()`, over sorted keys
abbrev pub push_sorted : ℕ → List ℕ → List ℕ
push_sorted x queue = sort_by leb (queue ++ x ∷ [])

-- One `indegree[child] -= 1` with its test. Once a counter is at 0 it is not queued again: the
-- source goes on below 0 there, which its test for 0 does not see either.
abbrev pub lower : ℕ → ℕ × Bool
lower zero = (0, false)
lower (suc zero) = (0, true)
lower (suc (suc n)) = (suc n, false)

-- `for task in tasks: if any(d == node …)`: the counters of the node's children go down by one.
unfoldable pub visit_children : ℕ → List Degree → List ℕ → List Degree × List ℕ
visit_children node [] queue = ([], queue)
visit_children node (d ∷ ds) queue =
    let (n, reached) = lower d.count in
    let child = contains node d.task.dependencies in
    let queue' = if child && reached then push_sorted d.task.task_id queue else queue in
    let (rest, final) = visit_children node ds queue' in
    (record { task = d.task; count = if child then n else d.count } ∷ rest, final)

-- `while queue`: how many nodes are visited. `none` says that the fuel ran out.
unfoldable pub kahn : ℕ → List Degree → List ℕ → ℕ → Option ℕ
unfolding visit_children
kahn fuel degrees [] visited = some visited
kahn zero degrees (node ∷ queue) visited = none
kahn (suc fuel) degrees (node ∷ queue) visited =
    let (degrees', queue') = visit_children node degrees queue in
    kahn fuel degrees' queue' (visited + 1)

abbrev pub check_visited : Option ℕ → ℕ → Result (Unit {0})
check_visited none n = err out_of_fuel
check_visited (some visited) n = raise_if (not (visited == n)) graph_cycle

unfoldable pub check_cycles : List ResearchTask → Result (Unit {0})
unfolding indegree kahn
check_cycles tasks =
    let degrees = indegree tasks in
    check_visited (kahn (length tasks) degrees (sort_by leb (ids_at_zero degrees)) 0) (length tasks)

unfoldable pub validate_task_graph : List ResearchTask → Result (Unit {0})
unfolding check_duplicates check_all_dependencies check_cycles
validate_task_graph tasks = do
  check_duplicates [] tasks
  check_all_dependencies (task_ids tasks) tasks
  check_cycles tasks

-- key=lambda t: (t.priority, t.task_id.as_text())
abbrev pub precedes : ResearchTask → ResearchTask → Bool
precedes t u = ltb t.priority u.priority || (t.priority == u.priority && leb t.task_id u.task_id)

abbrev pub is_open : TaskStatus → Bool
is_open TaskStatus.pending = true
is_open TaskStatus.ready = true
is_open _ = false

-- The inner loop of `ready_tasks`: it stops at the first parent that has not succeeded.
unfoldable pub deps_succeeded : List ResearchTask → List ℕ → Result Bool
deps_succeeded m [] = ok true
deps_succeeded m (dep ∷ deps) = elim (find_task dep m) [
  | none ↦ err missing_key
  | some parent ↦ elim (is_succeeded parent.status) [
    | true ↦ deps_succeeded m deps
    | false ↦ ok false
  ]
]

abbrev pub cons_if : Bool → ResearchTask → List ResearchTask → List ResearchTask
cons_if true t ts = t ∷ ts
cons_if false t ts = ts

-- The loop of `ready_tasks` over `tasks`.
unfoldable pub collect_ready : List ResearchTask → List ResearchTask → Result (List ResearchTask)
unfolding deps_succeeded
collect_ready m [] = ok []
collect_ready m (t ∷ ts) = do
  found ← (if is_open t.status then deps_succeeded m t.dependencies else ok false)
  rest ← collect_ready m ts
  ok (cons_if found t rest)

unfoldable pub ready_tasks : List ResearchTask → Result (List ResearchTask)
unfolding by_id collect_ready
ready_tasks tasks = do ready ← collect_ready (by_id tasks) tasks; ok (sort_by precedes ready)

abbrev pub head? : List ResearchTask → Option ResearchTask
head? [] = none
head? (t ∷ ts) = some t

unfoldable pub select_next_ready_task : List ResearchTask → Result (Option ResearchTask)
unfolding ready_tasks
select_next_ready_task tasks = do ready ← ready_tasks tasks; ok (head? ready)

-- status in {FAILED, BLOCKED, SKIPPED}
abbrev pub is_terminal_fail : TaskStatus → Bool
is_terminal_fail TaskStatus.failed = true
is_terminal_fail TaskStatus.blocked = true
is_terminal_fail TaskStatus.skipped = true
is_terminal_fail _ = false

-- The loop over the dependencies of `apply_failure_propagation`, up to its `break`.
unfoldable pub has_failed_parent : List ResearchTask → List ℕ → Result Bool
has_failed_parent m [] = ok false
has_failed_parent m (dep ∷ deps) = elim (find_task dep m) [
  | none ↦ err missing_key
  | some parent ↦ elim (is_terminal_fail parent.status) [
    | true ↦ ok true
    | false ↦ has_failed_parent m deps
  ]
]

-- The inner loop of `blocked_tasks`: each parent is tested together with `task.required`.
unfoldable pub is_blocked_by : List ResearchTask → Bool → List ℕ → Result Bool
is_blocked_by m required [] = ok false
is_blocked_by m required (dep ∷ deps) = elim (find_task dep m) [
  | none ↦ err missing_key
  | some parent ↦ elim (is_terminal_fail parent.status && required) [
    | true ↦ ok true
    | false ↦ is_blocked_by m required deps
  ]
]

unfoldable pub collect_blocked : List ResearchTask → List ResearchTask → Result (List ResearchTask)
unfolding is_blocked_by
collect_blocked m [] = ok []
collect_blocked m (t ∷ ts) = do
  found ← (if is_completing t.status then ok false else is_blocked_by m t.required t.dependencies)
  rest ← collect_blocked m ts
  ok (cons_if found t rest)

unfoldable pub blocked_tasks : List ResearchTask → Result (List ResearchTask)
unfolding by_id collect_blocked
blocked_tasks tasks = do
  blocked ← collect_blocked (by_id tasks) tasks
  ok (sort_by precedes blocked)

-- What a task with a failed parent turns into.
abbrev pub fallen : ResearchTask → TaskStatus
fallen t = if t.required then TaskStatus.blocked else TaskStatus.skipped

-- The body of the `for` loop for one task of the snapshot: the dict, and `changed`.
unfoldable pub visit_task :
    ResearchTask → List ResearchTask → Bool → Result (List ResearchTask × Bool)
unfolding has_failed_parent
visit_task t m changed = if not (is_open t.status) then ok (m, changed) else do
  failed ← has_failed_parent m t.dependencies
  if failed
      then (do t' ← with_status t (fallen t) none false; ok (put_task t' m, true))
      else ok (m, changed)

-- `for task in list(by_id.values())`
unfoldable pub propagate_pass :
    List ResearchTask → List ResearchTask → Bool → Result (List ResearchTask × Bool)
unfolding visit_task
propagate_pass [] m changed = ok (m, changed)
propagate_pass (t ∷ ts) m changed = do
  (m', changed') ← visit_task t m changed
  propagate_pass ts m' changed'

-- `while changed`
unfoldable pub propagate_loop : ℕ → List ResearchTask → Result (List ResearchTask)
unfolding propagate_pass
propagate_loop zero m = err out_of_fuel
propagate_loop (suc fuel) m = do
  (m', changed) ← propagate_pass m m false
  elim changed [ true ↦ propagate_loop fuel m' | false ↦ ok m' ]

-- Each round that changes something settles a task, so one round more than there are tasks is enough.
unfoldable pub apply_failure_propagation : List ResearchTask → Result (List ResearchTask)
unfolding by_id propagate_loop
apply_failure_propagation tasks = do
  m ← propagate_loop (length tasks + 1) (by_id tasks)
  ok (sort_by precedes m)
