-- ===== src/Budget/Depth.antt =====
-- The loop over the ancestors of a task ends.
use agentic_equity_research.Prelude.{
  ℕ, zero, suc, ◌+◌, ◌≤◌, ◌≡◌, refl, ◌∙◌, true, false, inl, inr, some, List, [], ◌∷◌, ◌==◌, ==_iff,
  length, length-append, arith, Bool-cases, Option-cases, if◌then◌else◌, err, ◌≢◌, out_of_fuel, ap,
  sym,
}
use mathlib.Core.List.{reverse, reverse-cons}
use agentic_equity_research.Task.{ResearchTask, contains}
use agentic_equity_research.Graph.{by_id, find_task}
use agentic_equity_research.Budget.{
  ResearchExecutionBudget, depth_loop, depth_of, push_parents, total_dependencies, check_tasks,
  validate_tasks,
}

-- The dependencies of the tasks that have not been met.
abbrev pending : List ℕ → List ResearchTask → ℕ
pending seen [] = 0
pending seen (t ∷ ts) =
    (if contains t.task_id seen then 0 else length t.dependencies) + pending seen ts

pending_less :
    (dep : ℕ) (seen : List ℕ) (m : List ResearchTask) → pending (dep ∷ seen) m ≤ pending seen m
pending_less dep seen [] = omega arith
pending_less dep seen (t ∷ ts) = ground (arith, pending_less dep seen ts)

pending_pushed :
    (dep : ℕ) (seen : List ℕ) (m : List ResearchTask) {p : ResearchTask}
    → find_task dep m ≡ some p
    → contains dep seen ≡ false
    → pending (dep ∷ seen) m + length p.dependencies ≤ pending seen m
unfolding find_task
pending_pushed dep seen [] h e = cc
pending_pushed dep seen (t ∷ ts) {p} h e = elim (Bool-cases (t.task_id == dep)) [
  | inl q ↦
      let same : t ≡ p = ground arith in
      let new : contains t.task_id seen ≡ false =
        ap (λ k. contains k seen) ((==_iff t.task_id dep).0 q) ∙ e in
      let met : (dep == t.task_id) ≡ true =
        (==_iff dep t.task_id).1 (sym ((==_iff t.task_id dep).0 q)) in
      let size : length t.dependencies ≡ length p.dependencies =
        ap (λ u. length u.dependencies) same in
      rw (new, met) (omega (arith, pending_less dep seen ts, size))
  | inr q ↦ ground (arith, pending_pushed dep seen ts {p = p} (ground arith) e)
]

length-reverse : (xs : List ℕ) → length (reverse xs) ≡ length xs
length-reverse [] = refl
length-reverse (x ∷ xs) =
    ap length (reverse-cons x xs)
    ∙ length-append (reverse xs) (x ∷ [])
    ∙ omega (arith, length-reverse xs)

pushed_work :
    (dep : ℕ) (seen stack : List ℕ) (m : List ResearchTask)
    → contains dep seen ≡ false
    → length (push_parents (find_task dep m) stack) + pending (dep ∷ seen) m
      ≤ length stack + pending seen m
pushed_work dep seen stack m e = elim (Option-cases (find_task dep m)) [
  | inl f ↦ rw f (omega (arith, pending_less dep seen m))
  | inr (p, f) ↦ rw f (
      omega (
        arith,
        length-append (reverse p.dependencies) stack,
        length-reverse p.dependencies,
        pending_pushed dep seen m f e,
      ))
]

depth_loop_total :
    (fuel : ℕ) (m : List ResearchTask) (stack seen : List ℕ) (depth : ℕ)
    → length stack + pending seen m ≤ fuel
    → (n : ℕ) × (depth_loop fuel m stack seen depth ≡ some n)
unfolding depth_loop
depth_loop_total fuel m [] seen depth h = (depth, refl)
depth_loop_total zero m (dep ∷ stack) seen depth h = absurd (omega arith)
depth_loop_total (suc fuel) m (dep ∷ stack) seen depth h = elim (Bool-cases (contains dep seen)) [
  | inl e ↦
      let (n, f) = depth_loop_total fuel m stack seen depth (omega arith) in
      (n, rw (e, depth_loop) f)
  | inr e ↦
      let work = pushed_work dep seen stack m e in
      let (n, f) =
        depth_loop_total fuel m (push_parents (find_task dep m) stack) (dep ∷ seen) (depth + 1)
          (omega (arith, work)) in
      (n, rw (e, depth_loop) f)
]

pending_nothing : (m : List ResearchTask) → pending [] m ≡ total_dependencies m
pending_nothing [] = refl
pending_nothing (t ∷ ts) = omega (arith, pending_nothing ts)

depth_of_total : (m : List ResearchTask) (t : ResearchTask) → (n : ℕ) × (depth_of m t ≡ some n)
unfolding depth_of
depth_of_total m t =
    depth_loop_total _ m (reverse t.dependencies) [] 1
      (omega (arith, length-reverse t.dependencies, pending_nothing m))

check_tasks_ends :
    (b : ResearchExecutionBudget) (m ts : List ResearchTask) (total : ℕ)
    → check_tasks b m ts total ≢ err out_of_fuel
unfolding check_tasks
check_tasks_ends b m [] total h = cc
check_tasks_ends b m (t ∷ ts) total h =
    let (n, e) = depth_of_total m t in
    ground (arith, e, check_tasks_ends b m ts (total + t.max_attempts))

-- `validate_tasks` never runs out of fuel: it follows the dependencies of every task to their end,
-- also if they form a cycle or name no task.
pub validate_tasks_ends :
    (b : ResearchExecutionBudget) (tasks : List ResearchTask)
    → validate_tasks b tasks ≢ err out_of_fuel
unfolding validate_tasks
validate_tasks_ends b tasks h = ground (arith, check_tasks_ends b (by_id tasks) tasks 0)
