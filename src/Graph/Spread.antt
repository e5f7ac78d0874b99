-- ===== src/Graph/Spread.antt =====
-- One step of `apply_failure_propagation`: the dict before and after an open task falls.
pub mod Settling
pub mod Fallen
pub mod Fixpoint
use agentic_equity_research.Prelude.{
  ℕ, zero, suc, ◌+◌, ◌≤◌, ◌<◌, ◌≡◌, refl, sym, ap, ◌∙◌, Bool, true, false, not, inl, inr, ◌⊎◌,
  Option, none, some, List, [], ◌∷◌, Elem, Option-cases, ◌==◌, ==_iff, ==_refl, length, count, All,
  All-map, Result, ok, err, Bool-cases, arith, if◌then◌else◌,
}
use mathlib.Core.Path.{subst}
use agentic_equity_research.Task.{
  ResearchTask, TaskStatus, Datetime, contains, moved, with_status, is_running, is_completing,
  is_failed, is_ready,
}
use agentic_equity_research.Task.Checks.{IsWellFormed}
use agentic_equity_research.Task.Lifecycle.{MayMove, moved-IsWellFormed, with_status-MayMove}
use agentic_equity_research.Graph.{
  put_task, find_task, task_ids, is_open, is_terminal_fail, has_failed_parent, fallen, visit_task,
  propagate_pass, propagate_loop, apply_failure_propagation, by_id, precedes,
}
use agentic_equity_research.Graph.Lookup.{
  Fresh, IsDistinct, IsDependency, find_task_there, find_task-id,
}

-- What an open task with a failed parent is replaced by.
abbrev pub fall : ResearchTask → ResearchTask
fall t = moved t (fallen t) none

abbrev pub IsOpen : ResearchTask → Type 0
IsOpen t = is_open t.status ≡ true

pub fall_MayMove : (t : ResearchTask) → IsOpen t → MayMove t (fallen t) none false
fall_MayMove t h = ground arith

fall_open : (t : ResearchTask) → is_open (fall t).status ≡ false
unfolding moved
fall_open t = ground arith

pub fall_same :
    (t : ResearchTask) → ((fall t).task_id ≡ t.task_id) × ((fall t).dependencies ≡ t.dependencies)
unfolding moved
fall_same t = (refl, refl)

pub find_task-put_task :
    (k : ℕ) (t : ResearchTask) (m : List ResearchTask)
    → find_task k (put_task t m) ≡ (if t.task_id == k then some t else find_task k m)
unfolding find_task put_task
find_task-put_task k t [] = ground arith
find_task-put_task k t (u ∷ us) = ground (arith, find_task-put_task k t us)

task_ids-put_task :
    (t : ResearchTask) (m : List ResearchTask) {u : ResearchTask}
    → find_task t.task_id m ≡ some u
    → task_ids (put_task t m) ≡ task_ids m
unfolding find_task put_task
task_ids-put_task t [] h = cc
task_ids-put_task t (v ∷ vs) {u} h = elim (Bool-cases (v.task_id == t.task_id)) [
  | inl e ↦ rw (e, put_task) (ap (λ k. k ∷ task_ids vs) (sym ((==_iff v.task_id t.task_id).0 e)))
  | inr e ↦
      rw (e, put_task) (ap (λ ks. v.task_id ∷ ks) (task_ids-put_task t vs {u = u} (ground arith)))
]

put_task-All {ℓ} :
    (P : ResearchTask → Type ℓ) (t : ResearchTask) (m : List ResearchTask)
    → P t
    → All P m
    → All P (put_task t m)
unfolding put_task
put_task-All P t [] h hs = (h, tt)
put_task-All P t (u ∷ us) h hs = elim (Bool-cases (u.task_id == t.task_id)) [
  | inl e ↦ rw (e, put_task) (h, hs.1)
  | inr e ↦ rw (e, put_task) (hs.0, put_task-All P t us h hs.1)
]

find_task-All {ℓ} :
    (P : ResearchTask → Type ℓ) (k : ℕ) (m : List ResearchTask) {t : ResearchTask}
    → find_task k m ≡ some t
    → All P m
    → P t
unfolding find_task
find_task-All P k [] h hs = cc
find_task-All P k (u ∷ us) {t} h hs = elim (Bool-cases (u.task_id == k)) [
  | inl e ↦ let q : u ≡ t = ground arith in subst P q hs.0
  | inr e ↦ find_task-All P k us (ground arith) hs.1
]

abbrev pub open_count : List ResearchTask → ℕ
open_count m = count (λ t. is_open t.status) m

-- Replacing an open task by one that is not open.
open_count-put_task :
    (t u : ResearchTask) (m : List ResearchTask)
    → find_task t.task_id m ≡ some u
    → IsOpen u
    → is_open t.status ≡ false
    → suc (open_count (put_task t m)) ≡ open_count m
unfolding find_task put_task
open_count-put_task t u [] h o c = cc
open_count-put_task t u (v ∷ vs) h o c = ground (arith, open_count-put_task t u vs)

pub has_failed_parent_total :
    (m : List ResearchTask) (ids : List ℕ) (key : ℕ) (deps : List ℕ)
    → task_ids m ≡ ids
    → All (IsDependency ids key) deps
    → (b : Bool) × (has_failed_parent m deps ≡ ok b)
unfolding has_failed_parent
has_failed_parent_total m ids key [] q h = (false, refl)
has_failed_parent_total m ids key (d ∷ ds) q h =
    let (p, f) = find_task_there d m (rw q h.0.0) in
    let (b, rest) = has_failed_parent_total m ids key ds q h.1 in
    elim (Bool-cases (is_terminal_fail p.status)) [
      | inl e ↦ (true, rw (f, e, has_failed_parent) refl)
      | inr e ↦ (b, rw (f, e, has_failed_parent) rest)
    ]

pub Fresh-ids :
    (seen : List ℕ) (a b : List ResearchTask)
    → task_ids a ≡ task_ids b
    → Fresh seen b
    → Fresh seen a
Fresh-ids seen [] [] q h = tt
Fresh-ids seen [] (y ∷ ys) q h = cc
Fresh-ids seen (x ∷ xs) [] q h = cc
Fresh-ids seen (x ∷ xs) (y ∷ ys) q h =
    let same : x.task_id ≡ y.task_id = cc in
    let rest : task_ids xs ≡ task_ids ys = cc in
    (rw same h.0, rw same (Fresh-ids (y.task_id ∷ seen) xs ys rest h.1))

-- What every pass keeps of the dict, where `ids` are its keys.
pub record IsSound (ids : List ℕ) (m : List ResearchTask) : Type 0 where
  pub keys : task_ids m ≡ ids
  pub closed : All (λ t. All (IsDependency ids t.task_id) t.dependencies) m
  pub well_formed : All IsWellFormed m

-- A dependency has failed, is blocked or was skipped.
abbrev pub FailedParent : List ResearchTask → List ℕ → Type 0
FailedParent m deps =
    (dep : ℕ) × (p : ResearchTask) × Elem dep deps
    × (find_task dep m ≡ some p)
    × (is_terminal_fail p.status ≡ true)

-- What a task is afterwards: itself, or fallen if it was open and has a failed parent now.
abbrev pub MayFall : List ResearchTask → ResearchTask → ResearchTask → Type 0
MayFall n t u = (u ≡ t) ⊎ (IsOpen t × (u ≡ fall t) × FailedParent n t.dependencies)

abbrev pub Falls : List ResearchTask → List ResearchTask → Type 0
Falls m n =
    (k : ℕ) (t : ResearchTask)
    → find_task k m ≡ some t
    → (u : ResearchTask) × (find_task k n ≡ some u) × MayFall n t u

has_failed_parent_sound :
    (m : List ResearchTask) (deps : List ℕ)
    → has_failed_parent m deps ≡ ok true
    → FailedParent m deps
unfolding has_failed_parent
has_failed_parent_sound m [] h = cc
has_failed_parent_sound m (d ∷ ds) h = elim (Option-cases (find_task d m)) [
  | inl e ↦ ground arith
  | inr (p, e) ↦ elim (Bool-cases (is_terminal_fail p.status)) [
    | inl q ↦ (d, p, Elem.here, e, q)
    | inr q ↦
        let rest : has_failed_parent m ds ≡ ok true = ground arith in
        let (dep, p', k, e', q') = has_failed_parent_sound m ds rest in
        (dep, p', Elem.there k, e', q')
  ]
]

-- A test that finds no failed parent has seen them all.
pub has_failed_parent_none :
    (m : List ResearchTask) (deps : List ℕ)
    → has_failed_parent m deps ≡ ok false
    → ¬ FailedParent m deps
unfolding has_failed_parent
has_failed_parent_none m [] h (dep, p, k, e, q) = elim k [ ]
has_failed_parent_none m (d ∷ ds) h (dep, p, Elem.here, e, q) = ground (arith, e, q)
has_failed_parent_none m (d ∷ ds) h (dep, p, Elem.there k, e, q) =
    elim (Option-cases (find_task d m)) [
      | inl none_there ↦ ground arith
      | inr (u, f) ↦ has_failed_parent_none m ds (ground arith) (dep, p, k, e, q)
    ]

pub Falls-refl : (m : List ResearchTask) → Falls m m
Falls-refl m k t h = (t, h, inl refl)

fail_not_open : (t : ResearchTask) → IsOpen t → is_terminal_fail t.status ≡ true → ⊥
fail_not_open t o h = ground arith

FailedParent-later :
    (m n : List ResearchTask) (deps : List ℕ)
    → Falls m n
    → FailedParent m deps
    → FailedParent n deps
FailedParent-later m n deps f (dep, p, k, e, q) =
    let (u, g, may) = f dep p e in
    (elim may [
      | inl same ↦ (dep, u, k, g, subst (λ x. is_terminal_fail x.status ≡ true) (sym same) q)
      | inr (o, _, _) ↦ absurd (fail_not_open p o q)
    ])

MayFall-trans :
    (m n : List ResearchTask) {t u v : ResearchTask}
    → Falls m n
    → MayFall m t u
    → MayFall n u v
    → MayFall n t v
MayFall-trans m n p (inl e) (inl f) = inl (f ∙ e)
MayFall-trans m n p (inl e) (inr (o, f, parent)) =
    inr (subst IsOpen e o, f ∙ ap fall e, subst (λ x. FailedParent n x.dependencies) e parent)
MayFall-trans m n {t} p (inr (o, e, parent)) (inl f) =
    inr (o, f ∙ e, FailedParent-later m n t.dependencies p parent)
MayFall-trans m n {t} p (inr (o, e, _)) (inr (o', f, _)) =
    let c = fall_open t in let o'' = subst IsOpen e o' in cc

pub Falls-trans : (l m n : List ResearchTask) → Falls l m → Falls m n → Falls l n
Falls-trans l m n p q k t h =
    let (u, f, a) = p k t h in let (v, g, b) = q k u f in (v, g, MayFall-trans m n q a b)

-- One open task with a failed parent is replaced.
module _ (ids : List ℕ) (m : List ResearchTask) (s : IsSound ids m) (t : ResearchTask)
    (held : find_task t.task_id m ≡ some t) (o : IsOpen t) where
  pub IsSound-fall : IsSound ids (put_task (fall t) m)
  unfolding find_task moved
  IsSound-fall = record {
    keys = task_ids-put_task (fall t) m held ∙ s.keys;
    closed =
        put_task-All (λ u. All (IsDependency ids u.task_id) u.dependencies) (fall t) m
          (find_task-All (λ u. All (IsDependency ids u.task_id) u.dependencies) t.task_id m held
            s.closed)
          s.closed;
    well_formed =
        put_task-All IsWellFormed (fall t) m
          (moved-IsWellFormed t (fallen t) none false
            (find_task-All IsWellFormed t.task_id m held s.well_formed) (fall_MayMove t o))
          s.well_formed;
  }

  fall_failed : is_terminal_fail (fall t).status ≡ true
  unfolding moved
  fall_failed = ground arith

  parent_later : FailedParent m t.dependencies → FailedParent (put_task (fall t) m) t.dependencies
  unfolding moved
  parent_later (dep, p, k, e, q) = elim (Bool-cases (t.task_id == dep)) [
    | inl i ↦ (dep, fall t, k, find_task-put_task dep (fall t) m ∙ rw i refl, fall_failed)
    | inr i ↦ (dep, p, k, find_task-put_task dep (fall t) m ∙ rw i e, q)
  ]

  same :
      (k : ℕ) (u : ResearchTask)
      → t.task_id ≡ k
      → find_task k m ≡ some u
      → FailedParent (put_task (fall t) m) t.dependencies
      → MayFall (put_task (fall t) m) u (fall t)
  same k u e h parent =
      let q : some t ≡ some u = sym held ∙ subst (λ j. find_task j m ≡ some u) (sym e) h in
      let q' : t ≡ u = cc in
      inr (
        subst IsOpen q' o,
        ap fall q',
        subst (λ x. FailedParent (put_task (fall t) m) x.dependencies) q' parent,
      )

  pub Falls-fall : has_failed_parent m t.dependencies ≡ ok true → Falls m (put_task (fall t) m)
  unfolding moved
  Falls-fall failed k u h = elim (Bool-cases (t.task_id == k)) [
    | inl e ↦ (
      fall t,
      find_task-put_task k (fall t) m ∙ rw e refl,
      same k u ((==_iff t.task_id k).0 e) h
          (parent_later (has_failed_parent_sound m t.dependencies failed)),
    )
    | inr e ↦ (u, find_task-put_task k (fall t) m ∙ rw e h, inl refl)
  ]

  pub fewer_open : suc (open_count (put_task (fall t) m)) ≡ open_count m
  unfolding moved
  fewer_open = open_count-put_task (fall t) t m held o (fall_open t)
