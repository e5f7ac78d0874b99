-- ===== src/Graph/Spread/Fallen.antt =====
-- What failure propagation does to a task, in terms of the statuses.
use agentic_equity_research.Prelude.{
  ℕ, ◌≡◌, refl, ap, ◌∙◌, true, false, ◌⊎◌, inl, inr, some, List, Elem, arith,
}
use agentic_equity_research.Task.{TaskStatus, ResearchTask, moved}
use agentic_equity_research.Graph.{find_task, is_open, is_terminal_fail}
use agentic_equity_research.Graph.Spread.{IsOpen, FailedParent, MayFall, fall}

abbrev pub IsWaiting : ResearchTask → Type 0
IsWaiting t = (t.status ≡ TaskStatus.pending) ⊎ (t.status ≡ TaskStatus.ready)

abbrev pub HasFallen : TaskStatus → Type 0
HasFallen s = (s ≡ TaskStatus.failed) ⊎ (s ≡ TaskStatus.blocked) ⊎ (s ≡ TaskStatus.skipped)

-- One of the dependencies is FAILED, BLOCKED or SKIPPED.
abbrev pub FallenParent : List ResearchTask → List ℕ → Type 0
FallenParent m deps =
    (dep : ℕ) × (p : ResearchTask) × Elem dep deps × (find_task dep m ≡ some p) × HasFallen p.status

-- The task is as it was; or it was waiting, has a fallen parent, and has fallen.
abbrev pub Fell : List ResearchTask → ResearchTask → ResearchTask → Type 0
Fell n t u =
    (u ≡ t)
    ⊎ (IsWaiting t
        × FallenParent n t.dependencies
        × (t.required ≡ true → u.status ≡ TaskStatus.blocked)
        × (t.required ≡ false → u.status ≡ TaskStatus.skipped)
        × (u ≡ record t { status = u.status; completed_at = u.completed_at }))

waiting : (s : TaskStatus) → is_open s ≡ true → (s ≡ TaskStatus.pending) ⊎ (s ≡ TaskStatus.ready)
waiting TaskStatus.pending h = inl refl
waiting TaskStatus.ready h = inr refl
waiting _ h = cc

is_terminal_fail-HasFallen : (s : TaskStatus) → is_terminal_fail s ≡ true → HasFallen s
is_terminal_fail-HasFallen TaskStatus.failed h = inl refl
is_terminal_fail-HasFallen TaskStatus.blocked h = inr (inl refl)
is_terminal_fail-HasFallen TaskStatus.skipped h = inr (inr refl)
is_terminal_fail-HasFallen _ h = cc

HasFallen-is_terminal_fail : (s : TaskStatus) → HasFallen s → is_terminal_fail s ≡ true
HasFallen-is_terminal_fail s h = ground arith

pub IsWaiting-IsOpen : (t : ResearchTask) → IsWaiting t → IsOpen t
IsWaiting-IsOpen t h = ground arith

FailedParent-FallenParent :
    (m : List ResearchTask) (deps : List ℕ) → FailedParent m deps → FallenParent m deps
FailedParent-FallenParent m deps (dep, p, k, e, q) =
    (dep, p, k, e, is_terminal_fail-HasFallen p.status q)

pub FallenParent-FailedParent :
    (m : List ResearchTask) (deps : List ℕ) → FallenParent m deps → FailedParent m deps
FallenParent-FailedParent m deps (dep, p, k, e, q) =
    (dep, p, k, e, HasFallen-is_terminal_fail p.status q)

fall-parts :
    (t : ResearchTask)
    → (t.required ≡ true → (fall t).status ≡ TaskStatus.blocked)
      × (t.required ≡ false → (fall t).status ≡ TaskStatus.skipped)
      × (fall t ≡ record t { status = (fall t).status; completed_at = (fall t).completed_at })
unfolding moved
fall-parts t = ((λ h. ground arith), (λ h. ground arith), ground arith)

pub MayFall-Fell : (n : List ResearchTask) (t u : ResearchTask) → MayFall n t u → Fell n t u
MayFall-Fell n t u (inl e) = inl e
MayFall-Fell n t u (inr (o, e, failed)) =
    let (must, may, rest) = fall-parts t in
    inr (
      waiting t.status o,
      FailedParent-FallenParent n t.dependencies failed,
      (λ h. ap (λ x. x.status) e ∙ must h),
      (λ h. ap (λ x. x.status) e ∙ may h),
      rw e rest,
    )
