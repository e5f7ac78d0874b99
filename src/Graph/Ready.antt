-- ===== src/Graph/Ready.antt =====
-- Which task runs next: `ready_tasks` and `select_next_ready_task`.
use agentic_equity_research.Prelude.{
  ℕ, ◌≡◌, refl, sym, ap, ◌∙◌, Bool, true, false, inl, inr, Option, none, some, List, [], ◌∷◌, All,
  ok, Bool-cases, arith, Elem, if◌then◌else◌, ◌⊎◌, >>=-eq-ok, ok-inj, sort_by, sort_by-Elem,
  sort_by-Elem_of, Elem-All, IsOrdered, sort_by-IsOrdered,
}
use mathlib.Core.Path.{subst}
use agentic_equity_research.Task.{ResearchTask, is_succeeded}
use agentic_equity_research.Graph.{
  find_task, task_ids, deps_succeeded, collect_ready, ready_tasks, select_next_ready_task, is_open,
  precedes, cons_if, head?,
}
use agentic_equity_research.Graph.Lookup.{
  IsDistinct, IsClosed, IsDependency, by_id-IsDistinct, find_task_there,
}

-- The dict has the dependency, and it has succeeded.
abbrev pub HasSucceeded : List ResearchTask → ℕ → Type 0
HasSucceeded m dep =
    (p : ResearchTask) × (find_task dep m ≡ some p) × (is_succeeded p.status ≡ true)

-- The task is pending or ready, and each of its dependencies has succeeded.
pub record IsRunnable (m : List ResearchTask) (t : ResearchTask) : Type 0 where
  pub not_started : is_open t.status ≡ true
  pub parents_done : All (HasSucceeded m) t.dependencies

precedes_total : (t u : ResearchTask) → precedes t u ≡ false → precedes u t ≡ true
precedes_total t u h = ground arith

precedes_trans :
    (t u v : ResearchTask) → precedes t u ≡ true → precedes u v ≡ true → precedes t v ≡ true
precedes_trans t u v h k = ground arith

precedes_refl : (t : ResearchTask) → precedes t t ≡ true
precedes_refl t = ground arith

deps_succeeded_total :
    (m : List ResearchTask) (key : ℕ) (deps : List ℕ)
    → All (IsDependency (task_ids m) key) deps
    → (b : Bool) × (deps_succeeded m deps ≡ ok b)
unfolding deps_succeeded
deps_succeeded_total m key [] h = (true, refl)
deps_succeeded_total m key (d ∷ ds) h =
    let (p, f) = find_task_there d m h.0.0 in
    let (b, rest) = deps_succeeded_total m key ds h.1 in
    elim (Bool-cases (is_succeeded p.status)) [
      | inl e ↦ (b, rw (f, e, deps_succeeded) rest)
      | inr e ↦ (false, rw (f, e, deps_succeeded) refl)
    ]

deps_succeeded_sound :
    (m : List ResearchTask) (deps : List ℕ)
    → deps_succeeded m deps ≡ ok true
    → All (HasSucceeded m) deps
unfolding deps_succeeded
deps_succeeded_sound m [] h = tt
deps_succeeded_sound m (d ∷ ds) h = ground (arith, deps_succeeded_sound m ds)

deps_succeeded_complete :
    (m : List ResearchTask) (deps : List ℕ)
    → All (HasSucceeded m) deps
    → deps_succeeded m deps ≡ ok true
unfolding deps_succeeded
deps_succeeded_complete m [] h = refl
deps_succeeded_complete m (d ∷ ds) h =
    let (p, f, e) = h.0 in rw (f, e, deps_succeeded) (deps_succeeded_complete m ds h.1)

collect_ready_total :
    (m ts : List ResearchTask)
    → IsClosed (task_ids m) ts
    → (r : List ResearchTask) × (collect_ready m ts ≡ ok r)
unfolding collect_ready
collect_ready_total m [] h = ([], refl)
collect_ready_total m (t ∷ ts) h =
    let (rest, q) = collect_ready_total m ts h.1 in
    let (b, e) = deps_succeeded_total m t.task_id t.dependencies h.0 in
    elim (Bool-cases (is_open t.status)) [
      | inl o ↦ (cons_if b t rest, rw (o, e, q) refl)
      | inr o ↦ (rest, rw (o, q) refl)
    ]

Elem-cons_if :
    (b : Bool) (t : ResearchTask) {a : ResearchTask} (r : List ResearchTask)
    → Elem a (cons_if b t r)
    → ((b ≡ true) × (a ≡ t)) ⊎ Elem a r
Elem-cons_if true t r Elem.here = inl (refl, refl)
Elem-cons_if true t r (Elem.there k) = inr k
Elem-cons_if false t r k = inr k

IsRunnable-of :
    (m : List ResearchTask) (t : ResearchTask)
    → (if is_open t.status then deps_succeeded m t.dependencies else ok false) ≡ ok true
    → IsRunnable m t
IsRunnable-of m t h = elim (Bool-cases (is_open t.status)) [
  | inl o ↦ record {
    not_started = o;
    parents_done = deps_succeeded_sound m t.dependencies (ground arith);
  }
  | inr o ↦ ground arith
]

collect_ready_sound :
    (m ts : List ResearchTask) {r : List ResearchTask} {a : ResearchTask}
    → collect_ready m ts ≡ ok r
    → Elem a r
    → IsRunnable m a × Elem a ts
unfolding collect_ready
collect_ready_sound m [] {r} {a} h k = elim (subst (λ l. Elem a l) (sym (ok-inj h)) k) [ ]
collect_ready_sound m (t ∷ ts) {r} {a} h k =
    let (b, e, h') =
      >>=-eq-ok (if is_open t.status then deps_succeeded m t.dependencies else ok false) _ h in
    let (rest, q, h'') = >>=-eq-ok (collect_ready m ts) _ h' in
    elim (Elem-cons_if b t rest (subst (λ l. Elem a l) (sym (ok-inj h'')) k)) [
      | inl (chosen, same) ↦
          subst (λ x. IsRunnable m x × Elem x (t ∷ ts)) (sym same)
            (IsRunnable-of m t (e ∙ ap ok chosen), Elem.here)
      | inr k' ↦ let (run, inside) = collect_ready_sound m ts q k' in (run, Elem.there inside)
    ]

collect_ready_complete :
    (m ts : List ResearchTask) {r : List ResearchTask} {a : ResearchTask}
    → collect_ready m ts ≡ ok r
    → Elem a ts
    → IsRunnable m a
    → Elem a r
unfolding collect_ready
collect_ready_complete m [] h k run = elim k [ ]
collect_ready_complete m (t ∷ ts) {r} {a} h k run =
    let (b, e, h') =
      >>=-eq-ok (if is_open t.status then deps_succeeded m t.dependencies else ok false) _ h in
    let (rest, q, h'') = >>=-eq-ok (collect_ready m ts) _ h' in
    subst (λ l. Elem a l) (ok-inj h'')
      (place k run b rest e (λ k'. collect_ready_complete m ts q k' run))
  where
    place :
        {a t : ResearchTask} {ts : List ResearchTask}
        → Elem a (t ∷ ts)
        → IsRunnable m a
        → (b : Bool) (rest : List ResearchTask)
        → (if is_open t.status then deps_succeeded m t.dependencies else ok false) ≡ ok b
        → (Elem a ts → Elem a rest)
        → Elem a (cons_if b t rest)
    place Elem.here run true rest e later = Elem.here
    place {a = a} Elem.here run false rest e later =
        let yes = deps_succeeded_complete m a.dependencies run.parents_done in
        let o = run.not_started in ground arith
    place (Elem.there k) run true rest e later = Elem.there (later k)
    place (Elem.there k) run false rest e later = later k

-- On a graph with distinct identifiers and known dependencies, `ready_tasks` returns a list that
-- holds exactly the tasks that are pending or ready and whose dependencies have all succeeded, in
-- the order of priority and then of the identifier.
pub ready_tasks_exact :
    (tasks : List ResearchTask)
    → IsDistinct tasks
    → IsClosed (task_ids tasks) tasks
    → (r : List ResearchTask) × (ready_tasks tasks ≡ ok r)
      × ((a : ResearchTask) → Elem a r → IsRunnable tasks a × Elem a tasks)
      × ((a : ResearchTask) → Elem a tasks → IsRunnable tasks a → Elem a r)
      × IsOrdered precedes r
unfolding ready_tasks
ready_tasks_exact tasks distinct closed =
    let (c, q) = collect_ready_total tasks tasks closed in
    (
      sort_by precedes c,
      rw (by_id-IsDistinct tasks distinct, q) refl,
      λ a k. collect_ready_sound tasks tasks q (sort_by-Elem precedes c k),
      λ a k run. sort_by-Elem_of precedes a c (collect_ready_complete tasks tasks q k run),
      sort_by-IsOrdered precedes precedes_total precedes_trans c,
    )

-- The choice of the next task, Told by what it means.
abbrev pub IsChoice : List ResearchTask → Option ResearchTask → Type 0
IsChoice tasks none = (a : ResearchTask) → Elem a tasks → IsRunnable tasks a → ⊥
IsChoice tasks (some t) =
    Elem t tasks
    × IsRunnable tasks t
    × ((a : ResearchTask) → Elem a tasks → IsRunnable tasks a → precedes t a ≡ true)

first-IsChoice :
    (tasks r : List ResearchTask)
    → ((a : ResearchTask) → Elem a r → IsRunnable tasks a × Elem a tasks)
    → ((a : ResearchTask) → Elem a tasks → IsRunnable tasks a → Elem a r)
    → IsOrdered precedes r
    → IsChoice tasks (head? r)
first-IsChoice tasks [] sound complete order = λ a k run. elim (complete a k run) [ ]
first-IsChoice tasks (t ∷ ts) sound complete order =
    let (run, inside) = sound t Elem.here in
    (
      inside,
      run,
      λ a k run'.
          Elem-All (λ x. precedes t x ≡ true) (complete a k run') (precedes_refl t, order.0),
    )

-- On such a graph, `select_next_ready_task` returns nothing only when no task can run, and
-- otherwise a task that can run and that comes first among all that can.
pub select_next_ready_task_first :
    (tasks : List ResearchTask)
    → IsDistinct tasks
    → IsClosed (task_ids tasks) tasks
    → (o : Option ResearchTask) × (select_next_ready_task tasks ≡ ok o) × IsChoice tasks o
unfolding select_next_ready_task
select_next_ready_task_first tasks distinct closed =
    let (r, e, sound, complete, order) = ready_tasks_exact tasks distinct closed in
    (head? r, rw e refl, first-IsChoice tasks r sound complete order)
