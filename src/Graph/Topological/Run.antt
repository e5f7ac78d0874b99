-- ===== src/Graph/Topological/Run.antt =====
-- The invariant of the loop of `topological_order`, and what the loop returns.
use agentic_equity_research.Prelude.{
  ℕ, zero, suc, ◌+◌, ◌≤◌, ◌≡◌, refl, sym, ◌∙◌, true, false, List, [], ◌∷◌, ◌++◌, ◌==◌, ==_refl,
  count, count-sort_by, sort_by, arith, All, All-map, All-Elem, Elem, Elem-All, sort_by-All, ok,
}
use mathlib.Core.Path.{subst}
use mathlib.Core.List.{append_assoc, append-nil}
use agentic_equity_research.Task.{ResearchTask, contains}
use agentic_equity_research.Graph.{Degree, task_ids, precedes}
use agentic_equity_research.Graph.Visits.{occurs, tasks_of, zeros, IsSettled}
use agentic_equity_research.Graph.Acyclic.{
  IsAfter, all_visited, zeros_le, zeros-All, settled-IsAfter, no_occurs,
}
use agentic_equity_research.Graph.Topological.{release, children, emit}
use agentic_equity_research.Graph.Topological.Release.{named, Due, release-Released}
use agentic_equity_research.Graph.Topological.Children.{
  listed_own, named-children, children-All, All-Due,
}

-- Each dependency of a task is among `before` or comes before the task.
abbrev pub IsSorted : List ℕ → List ResearchTask → Type 0
IsSorted before [] = Unit
IsSorted before (t ∷ ts) =
    ((dep : ℕ) → contains dep t.dependencies ≡ true → contains dep before ≡ true)
    × IsSorted (t.task_id ∷ before) ts

module _ (tasks : List ResearchTask) (one : (k : ℕ) → occurs k (task_ids tasks) ≤ 1) where
  -- The state of the loop of `topological_order`; the last visited comes first.
  pub record Run (ds : List Degree) (ready : List ResearchTask) (visited : List ℕ) : Type 0 where
    pub same : tasks_of ds ≡ tasks
    pub due : All (Due visited []) ds
    pub queued : (k : ℕ) → occurs k visited + named k ready ≡ zeros k ds
    pub members : All (λ t. Elem t tasks) ready

  named-head :
      (t : ResearchTask) (ready : List ResearchTask)
      → named t.task_id (t ∷ ready) ≡ suc (named t.task_id ready)
  named-head t ready = rw (==_refl t.task_id, count) refl

  Run-apart :
      (ds : List Degree) (t : ResearchTask) (ready : List ResearchTask) (visited : List ℕ)
      → Run ds (t ∷ ready) visited
      → (contains t.task_id visited ≡ false)
        × (occurs t.task_id (task_ids (tasks_of ds)) ≤ zeros t.task_id ds)
  Run-apart ds t ready visited run =
      let bound : occurs t.task_id (task_ids (tasks_of ds)) ≤ 1 = rw run.same (one t.task_id) in
      let head = named-head t ready in
      let few = zeros_le tasks one t.task_id ds in
      (
        no_occurs tasks one t.task_id visited
            (omega (arith, run.queued t.task_id, few, bound, head)),
        omega (arith, run.queued t.task_id, few, bound, head),
      )

  -- A task that is ready has all of its dependencies behind it.
  Run-ready :
      (ds : List Degree) (t : ResearchTask) (ready : List ResearchTask) (visited : List ℕ)
      → Run ds (t ∷ ready) visited
      → (dep : ℕ) → contains dep t.dependencies ≡ true
      → contains dep visited ≡ true
  Run-ready ds t ready visited run dep c =
      let settled =
        All-map (Due visited []) (IsSettled visited) ds (λ d h. omega (arith, h)) run.due in
      let after : All (IsAfter visited t.task_id) tasks =
        subst (All (IsAfter visited t.task_id)) run.same (
          settled-IsAfter tasks one visited t.task_id ds settled
            (zeros-All tasks one t.task_id ds (Run-apart ds t ready visited run).1)) in
      all_visited visited t.dependencies dep
        (Elem-All (IsAfter visited t.task_id) run.members.0 after (==_refl t.task_id)) c

  released :
      (ds : List Degree) (t : ResearchTask) (ready : List ResearchTask) (visited : List ℕ)
      → Run ds (t ∷ ready) visited
      → Run
          (release (sort_by precedes (children t.task_id tasks)) ds ready).0
          (release (sort_by precedes (children t.task_id tasks)) ds ready).1
          (t.task_id ∷ visited)
  released ds t ready visited run =
      let cs = sort_by precedes (children t.task_id tasks) in
      let own : All (λ u. named u.task_id cs ≡ occurs t.task_id u.dependencies) tasks =
        All-Elem _ tasks (λ u m.
          count-sort_by precedes (λ x. x.task_id == u.task_id) (children t.task_id tasks)
          ∙ named-children t.task_id u.task_id tasks
          ∙ listed_own t.task_id u tasks m (one u.task_id)) in
      let due =
        All-Due t.task_id visited cs ds (Run-apart ds t ready visited run).0
          (subst (All (λ u. named u.task_id cs ≡ occurs t.task_id u.dependencies)) (sym run.same)
            own)
          run.due in
      let members =
        sort_by-All precedes (λ u. Elem u tasks) (children t.task_id tasks)
          (children-All t.task_id (λ u. Elem u tasks) tasks (All-Elem _ tasks (λ u m. m))) in
      let r =
        release-Released (t.task_id ∷ visited) (λ u. Elem u tasks) cs ds ready
          (λ k. rw run.same (one k)) due members run.members.1 in
      record {
        same = r.same ∙ run.same;
        due = r.due;
        queued = λ k. ground (arith, r.queued k, run.queued k);
        members = r.members;
      }

  -- What the loop adds to `ordered`.
  pub record Emitted (visited : List ℕ) (ordered result : List ResearchTask) : Type 0 where
    pub out : List ResearchTask
    pub added : result ≡ ordered ++ out
    pub sorted : IsSorted visited out
    pub members : All (λ t. Elem t tasks) out
    pub degrees : List Degree
    pub final : List ℕ
    pub run : Run degrees [] final
    pub counted : (k : ℕ) → occurs k final ≡ occurs k visited + named k out

  pub emit-Emitted :
      (fuel : ℕ) (ds : List Degree) (ready : List ResearchTask) (visited : List ℕ)
      (ordered : List ResearchTask) {result : List ResearchTask}
      → Run ds ready visited
      → emit fuel tasks ds ready ordered ≡ ok result
      → Emitted visited ordered result
  unfolding emit
  emit-Emitted fuel ds [] visited ordered {result} run h = record {
    out = [];
    added = cc (append-nil ordered, h);
    sorted = tt;
    members = tt;
    degrees = ds;
    final = visited;
    run = run;
    counted = λ k. omega arith;
  }
  emit-Emitted zero ds (t ∷ ready) visited ordered run h = cc
  emit-Emitted (suc fuel) ds (t ∷ ready) visited ordered run h =
      let next = released ds t ready visited run in
      let rest = emit-Emitted fuel _ _ (t.task_id ∷ visited) (ordered ++ t ∷ []) next h in
      record {
        out = t ∷ rest.out;
        added = rest.added ∙ append_assoc ordered (t ∷ []) rest.out;
        sorted = (Run-ready ds t ready visited run, rest.sorted);
        members = (run.members.0, rest.members);
        degrees = rest.degrees;
        final = rest.final;
        run = rest.run;
        counted = λ k. ground (arith, rest.counted k);
      }
