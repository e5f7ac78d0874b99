-- ===== src/Graph/Spread/Settling.antt =====
-- One pass of `apply_failure_propagation` over the tasks.
use agentic_equity_research.Prelude.{
  ℕ, ◌≤◌, ◌<◌, ◌≡◌, refl, ◌∙◌, Bool, true, false, inl, inr, ◌⊎◌, none, some, List, [], ◌∷◌, ◌==◌,
  ==_iff, All, ok, Bool-cases, arith,
}
use mathlib.Core.Path.{subst}
use agentic_equity_research.Task.{ResearchTask, contains, moved}
use agentic_equity_research.Task.Checks.{IsWellFormed}
use agentic_equity_research.Task.Lifecycle.{with_status-MayMove}
use agentic_equity_research.Graph.{
  put_task, find_task, task_ids, is_open, has_failed_parent, fallen, visit_task, propagate_pass,
}
use agentic_equity_research.Graph.Lookup.{Fresh, IsDependency}
use agentic_equity_research.Graph.Spread.{
  fall, IsOpen, open_count, IsSound, Falls, Falls-refl, Falls-trans, IsSound-fall, Falls-fall,
  fewer_open, has_failed_parent_total, find_task-put_task, fall_MayMove, find_task-All,
}

-- No open task has a failed parent.
abbrev pub IsSettled : List ResearchTask → ResearchTask → Type 0
IsSettled m t = IsOpen t → has_failed_parent m t.dependencies ≡ ok false

-- The tasks of the snapshot that are still to be visited are in the dict as they are.
abbrev pub Held : List ResearchTask → List ResearchTask → Type 0
Held m ts = All (λ t. find_task t.task_id m ≡ some t) ts

-- What a pass, or a part of one, does to the dict: if nothing has changed, the tasks are settled.
pub record Visits (ids : List ℕ) (m : List ResearchTask) (c : Bool) (ts n : List ResearchTask)
    (d : Bool) : Type 0 where
  pub sound : IsSound ids n
  pub falls : Falls m n
  pub no_more_open : open_count n ≤ open_count m
  pub fewer : d ≡ true → (c ≡ true) ⊎ (open_count n < open_count m)
  pub others : (k : ℕ) → contains k (task_ids ts) ≡ false → find_task k n ≡ find_task k m
  pub quiet : d ≡ false → (c ≡ false) × (n ≡ m) × All (IsSettled m) ts

visited_settled :
    {ids : List ℕ} (m : List ResearchTask) (c : Bool) (t : ResearchTask)
    → IsSound ids m
    → IsSettled m t
    → Visits ids m c (t ∷ []) m c
visited_settled m c t s h = record {
  sound = s;
  falls = Falls-refl m;
  no_more_open = omega arith;
  fewer = λ e. inl e;
  others = λ k e. refl;
  quiet = λ e. (e, refl, (h, tt));
}

module _ (ids : List ℕ) (t : ResearchTask) (m : List ResearchTask) (c : Bool) (s : IsSound ids m)
    (held : find_task t.task_id m ≡ some t) where
  apart : (k : ℕ) → (t.task_id == k) ≡ false → find_task k (put_task (fall t) m) ≡ find_task k m
  unfolding moved
  apart k e = find_task-put_task k (fall t) m ∙ rw e refl

  visited_fallen :
      IsOpen t
      → has_failed_parent m t.dependencies ≡ ok true
      → Visits ids m c (t ∷ []) (put_task (fall t) m) true
  visited_fallen o failed =
      let f = fewer_open ids m s t held o in
      record {
        sound = IsSound-fall ids m s t held o;
        falls = Falls-fall ids m s t held o failed;
        no_more_open = omega (arith, f);
        fewer = λ e. inr (omega (arith, f));
        others = λ k e. apart k (ground arith);
        quiet = λ e. cc;
      }

  visit_task_open :
      IsOpen t
      → (b : Bool) → has_failed_parent m t.dependencies ≡ ok b
      → (n : List ResearchTask) × (d : Bool) × (visit_task t m c ≡ ok (n, d))
        × Visits ids m c (t ∷ []) n d
  unfolding visit_task
  visit_task_open o true e = (
    put_task (fall t) m,
    true,
    rw
        (
          o,
          e,
          with_status-MayMove t (fallen t) none false
              (find_task-All IsWellFormed t.task_id m held s.well_formed) (fall_MayMove t o),
        )
        refl,
    visited_fallen o e,
  )
  visit_task_open o false e = (m, c, rw (o, e) refl, visited_settled m c t s (λ o'. e))

  visit_task_total :
      (n : List ResearchTask) × (d : Bool) × (visit_task t m c ≡ ok (n, d))
      × Visits ids m c (t ∷ []) n d
  unfolding visit_task
  visit_task_total = elim (Bool-cases (is_open t.status)) [
    | inl o ↦
        let closed =
          find_task-All (λ u. All (IsDependency ids u.task_id) u.dependencies) t.task_id m held
            s.closed in
        let (b, e) = has_failed_parent_total m ids t.task_id t.dependencies s.keys closed in
        visit_task_open o b e
    | inr o ↦ (m, c, rw o refl, visited_settled m c t s (λ o'. cc))
  ]

pub Fresh-apart :
    (a : ℕ) (seen : List ℕ) (ts : List ResearchTask)
    → contains a seen ≡ true
    → Fresh seen ts
    → All (λ u. (a == u.task_id) ≡ false) ts
Fresh-apart a seen [] h fresh = tt
Fresh-apart a seen (u ∷ us) h fresh = (
  (elim (Bool-cases (a == u.task_id)) [
    | inl e ↦
        let q : contains u.task_id seen ≡ true =
          subst (λ k. contains k seen ≡ true) ((==_iff a u.task_id).0 e) h in
        let no = fresh.0 in cc
    | inr e ↦ e
  ]),
  Fresh-apart a (u.task_id ∷ seen) us (ground arith) fresh.1,
)

Held-after :
    (t : ResearchTask) (m n ts : List ResearchTask)
    → ((k : ℕ) → contains k (t.task_id ∷ []) ≡ false → find_task k n ≡ find_task k m)
    → All (λ u. (t.task_id == u.task_id) ≡ false) ts
    → Held m ts
    → Held n ts
Held-after t m n [] same a h = tt
Held-after t m n (u ∷ us) same a h =
    (same u.task_id (ground arith) ∙ h.0, Held-after t m n us same a.1 h.1)

Visits-next :
    {ids : List ℕ} (m : List ResearchTask) (c : Bool) (t : ResearchTask) (n : List ResearchTask)
    (d : Bool) (ts l : List ResearchTask) (b : Bool)
    → Visits ids m c (t ∷ []) n d
    → Visits ids n d ts l b
    → Visits ids m c (t ∷ ts) l b
Visits-next m c t n d ts l b v w = record {
  sound = w.sound;
  falls = Falls-trans m n l v.falls w.falls;
  no_more_open = let p = v.no_more_open in let q = w.no_more_open in omega arith;
  fewer = λ e. elim (w.fewer e) [
    | inl e' ↦ (elim (v.fewer e') [
      | inl e'' ↦ inl e''
      | inr lt ↦ let q = w.no_more_open in inr (omega arith)
    ])
    | inr lt ↦ let p = v.no_more_open in inr (omega arith)
  ];
  others = λ k e. w.others k (ground arith) ∙ v.others k (ground arith);
  quiet = λ e.
      let (e', l', all) = w.quiet e in
      let (e'', n', one) = v.quiet e' in
      (e'', l' ∙ n', (one.0, subst (λ x. All (IsSettled x) ts) n' all));
}

pub propagate_pass_total :
    (ids seen : List ℕ) (ts m : List ResearchTask) (c : Bool)
    → IsSound ids m
    → Fresh seen ts
    → Held m ts
    → (n : List ResearchTask) × (d : Bool) × (propagate_pass ts m c ≡ ok (n, d))
      × Visits ids m c ts n d
unfolding propagate_pass
propagate_pass_total ids seen [] m c s fresh held = (
  m,
  c,
  refl,
  record {
    sound = s;
    falls = Falls-refl m;
    no_more_open = omega arith;
    fewer = λ e. inl e;
    others = λ k e. refl;
    quiet = λ e. (e, refl, tt);
  },
)
propagate_pass_total ids seen (t ∷ ts) m c s fresh held =
    let (n, d, e, v) = visit_task_total ids t m c s held.0 in
    let later =
      Held-after t m n ts v.others
        (Fresh-apart t.task_id (t.task_id ∷ seen) ts (ground arith) fresh.1) held.1 in
    let (l, b, e', w) = propagate_pass_total ids (t.task_id ∷ seen) ts n d v.sound fresh.1 later in
    (l, b, rw e e', Visits-next m c t n d ts l b v w)
