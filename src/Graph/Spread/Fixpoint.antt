-- ===== src/Graph/Spread/Fixpoint.antt =====
-- `apply_failure_propagation` as a whole.
use agentic_equity_research.Prelude.{
  some, ℕ, zero, suc, ◌+◌, ◌<◌, ◌≡◌, refl, sym, ◌∙◌, false, inl, inr, List, [], ◌∷◌, ◌==◌, length,
  count-le-length, All, All-map, ok, Bool-cases, arith, sort_by, ==_refl,
}
use mathlib.Core.Path.{subst}
use agentic_equity_research.Task.{ResearchTask}
use agentic_equity_research.Task.Checks.{IsWellFormed}
use agentic_equity_research.Graph.{
  find_task, task_ids, is_open, propagate_loop, apply_failure_propagation, precedes,
}
use agentic_equity_research.Graph.Lookup.{Fresh, IsDistinct, IsClosed, by_id-IsDistinct}
use agentic_equity_research.Graph.Spread.{
  open_count, IsSound, Falls, Falls-trans, Fresh-ids, has_failed_parent_none,
}
use agentic_equity_research.Graph.Spread.Fallen.{
  IsWaiting, FallenParent, Fell, IsWaiting-IsOpen, FallenParent-FailedParent, MayFall-Fell,
}
use agentic_equity_research.Graph.Spread.Settling.{
  IsSettled, Held, Fresh-apart, propagate_pass_total,
}

Held-under :
    (u : ResearchTask) (m ts : List ResearchTask)
    → All (λ t. (u.task_id == t.task_id) ≡ false) ts
    → Held m ts
    → Held (u ∷ m) ts
unfolding find_task
Held-under u m [] a h = tt
Held-under u m (t ∷ ts) a h = (rw (a.0, find_task) h.0, Held-under u m ts a.1 h.1)

-- In a dict with distinct keys every task is found under its own.
Held-self : (seen : List ℕ) (m : List ResearchTask) → Fresh seen m → Held m m
unfolding find_task
Held-self seen [] h = tt
Held-self seen (t ∷ ts) h = (
  rw (==_refl t.task_id, find_task) refl,
  Held-under t ts ts (Fresh-apart t.task_id (t.task_id ∷ seen) ts (ground arith) h.1)
      (Held-self (t.task_id ∷ seen) ts h.1),
)

propagate_loop_total :
    (fuel : ℕ) (ids : List ℕ) (m : List ResearchTask)
    → open_count m < fuel
    → IsDistinct m
    → IsSound ids m
    → (n : List ResearchTask) × (propagate_loop fuel m ≡ ok n)
      × IsSound ids n
      × Falls m n
      × All (IsSettled n) n
unfolding propagate_loop
propagate_loop_total zero ids m h distinct s = ground arith
propagate_loop_total (suc fuel) ids m h distinct s =
    let (n, d, e, v) = propagate_pass_total ids [] m m false s distinct (Held-self [] m distinct) in
    elim (Bool-cases d) [
      | inl q ↦
          let less : open_count n < open_count m = (elim (v.fewer q) [
            | inl unset ↦ cc
            | inr lt ↦ lt
          ]) in
          let (l, e', s', f, all) =
            propagate_loop_total fuel ids n (omega arith)
              (Fresh-ids [] n m (v.sound.keys ∙ sym s.keys) distinct) v.sound in
          (l, rw (e, q, propagate_loop) e', s', Falls-trans m n l v.falls f, all)
      | inr q ↦
          let (_, same, all) = v.quiet q in
          (
            n,
            rw (e, q, propagate_loop) refl,
            v.sound,
            v.falls,
            subst (λ x. All (IsSettled x) x) (sym same) all,
          )
    ]

-- On well-formed tasks with distinct identifiers and known dependencies, failure propagation ends
-- and raises nothing. It returns the same tasks in the order of priority and identifier. Each task is
-- as it was; or it was PENDING or READY, has a FAILED, BLOCKED or SKIPPED dependency in the result, and
-- is now BLOCKED, if it is required, or SKIPPED, with no other change but of its end. No task that is
-- still PENDING or READY has such a dependency.
pub apply_failure_propagation_settles :
    (tasks : List ResearchTask)
    → IsDistinct tasks
    → IsClosed (task_ids tasks) tasks
    → All IsWellFormed tasks
    → (n : List ResearchTask) × (apply_failure_propagation tasks ≡ ok (sort_by precedes n))
      × (task_ids n ≡ task_ids tasks)
      × ((k : ℕ) (t : ResearchTask)
          → find_task k tasks ≡ some t
          → (u : ResearchTask) × (find_task k n ≡ some u) × Fell n t u)
      × All (λ t. IsWaiting t → ¬ FallenParent n t.dependencies) n
unfolding apply_failure_propagation
apply_failure_propagation_settles tasks distinct closed formed =
    let few = count-le-length (λ t. is_open t.status) tasks in
    let (n, e, s, f, all) =
      propagate_loop_total (length tasks + 1) (task_ids tasks) tasks (omega arith) distinct
        (record { keys = refl; closed = closed; well_formed = formed }) in
    (
      n,
      rw (by_id-IsDistinct tasks distinct, e) refl,
      s.keys,
      λ k t found. (let (u, g, may) = f k t found in (u, g, MayFall-Fell n t u may)),
      All-map (IsSettled n) (λ t. IsWaiting t → ¬ FallenParent n t.dependencies) n
          (λ t settled w parent.
            has_failed_parent_none n t.dependencies (settled (IsWaiting-IsOpen t w))
              (FallenParent-FailedParent n t.dependencies parent))
          all,
    )
