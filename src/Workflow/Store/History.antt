-- ===== src/Workflow/Store/History.antt =====
-- Interleavings: any clients save any workflows and checkpoints, one at a time, in any order.
use agentic_equity_research.Prelude.{
  ℕ, ◌≤◌, ◌≡◌, refl, inl, inr, Option, none, some, ok, arith, List, [], ◌∷◌, sym, ◌∙◌, ◌==◌, ==_iff,
  if◌then◌else◌, Bool-cases,
}
use mathlib.Core.Path.{subst}
use agentic_equity_research.Workflow.{WorkflowCheckpoint, ResearchWorkflow}
use agentic_equity_research.Workflow.Store.{
  Store, find_workflow, find_checkpoint, check_save, save_workflow, check_owner, check_newer,
  save_checkpoint, put_workflow, put_checkpoint,
}
use agentic_equity_research.Workflow.Store.Guard.{
  Continues, Continues-refl, Continues-trans, check_save_sound, find_workflow-put_workflow,
  find_checkpoint-put_checkpoint,
}

pub data Save (s : Store) (t : Store) : Type 0 where
  workflow : (w : ResearchWorkflow) → save_workflow w s ≡ ok t → Save s t
  checkpoint : (c : WorkflowCheckpoint) → save_checkpoint c s ≡ ok t → Save s t

pub data History (s : Store) : Store → Type 0 where
  here : History s s
  next : {t u : Store} → History s t → Save t u → History s u

pub History-trans : {s t u : Store} → History s t → History t u → History s u
History-trans p here = p
History-trans p (next q st) = next (History-trans p q) st

-- What the store holds under a key, later.
abbrev pub Later :
    (ResearchWorkflow → ResearchWorkflow → Type 0)
    → Option ResearchWorkflow
    → Option ResearchWorkflow
    → Type 0
Later R none o = Unit
Later R (some a) none = ⊥
Later R (some a) (some b) = R a b

Later-refl : (o : Option ResearchWorkflow) → Later Continues o o
Later-refl none = tt
Later-refl (some a) = Continues-refl a

Later-trans :
    (o p q : Option ResearchWorkflow)
    → Later Continues o p
    → Later Continues p q
    → Later Continues o q
Later-trans none p q h k = tt
Later-trans (some a) (some b) (some c) h k = Continues-trans h k
Later-trans (some a) (some b) none h k = k
Later-trans (some a) none q h k = absurd h

find_workflow-id :
    (k : ℕ) (ws : List ResearchWorkflow) {a : ResearchWorkflow}
    → find_workflow k ws ≡ some a
    → a.workflow_id ≡ k
unfolding find_workflow
find_workflow-id k [] h = cc
find_workflow-id k (w ∷ ws) {a} h = ground (arith, find_workflow-id k ws {a = a})

save_workflow_parts :
    (w : ResearchWorkflow) (s : Store) {t : Store}
    → save_workflow w s ≡ ok t
    → (check_save (find_workflow w.workflow_id s.workflows) w ≡ ok tt)
      × (t ≡ record s { workflows = put_workflow w s.workflows })
unfolding save_workflow
save_workflow_parts w s h = ground arith

save_checkpoint_parts :
    (c : WorkflowCheckpoint) (s : Store) {t : Store}
    → save_checkpoint c s ≡ ok t
    → (check_newer (find_checkpoint c.workflow_id s.checkpoints) c ≡ ok tt)
      × (t ≡ record s { checkpoints = put_checkpoint c s.checkpoints })
unfolding save_checkpoint check_owner
save_checkpoint_parts c s h = ground arith

saved_over :
    (o : Option ResearchWorkflow) (w : ResearchWorkflow)
    → ((a : ResearchWorkflow) → o ≡ some a → a.workflow_id ≡ w.workflow_id)
    → check_save o w ≡ ok tt
    → Later Continues o (some w)
saved_over none w same h = tt
saved_over (some a) w same h = (check_save_sound a w (same a refl) h).0

-- What `save_workflow` leaves under each key: the workflow under its own, and the rest as it was.
pub find_workflow-save_workflow :
    (w : ResearchWorkflow) (s : Store) {t : Store} (k : ℕ)
    → save_workflow w s ≡ ok t
    → find_workflow k t.workflows
      ≡ (if w.workflow_id == k then some w else find_workflow k s.workflows)
find_workflow-save_workflow w s k h =
    let (_, e) = save_workflow_parts w s h in rw e (find_workflow-put_workflow k w s.workflows)

Save-Continues :
    {s t : Store} (k : ℕ)
    → Save s t
    → Later Continues (find_workflow k s.workflows) (find_workflow k t.workflows)
Save-Continues {s} {t} k (Save.workflow w h) = elim (Bool-cases (w.workflow_id == k)) [
  | inl e ↦
      let q : w.workflow_id ≡ k = (==_iff w.workflow_id k).0 e in
      let found : find_workflow k t.workflows ≡ some w =
        (find_workflow-save_workflow w s k h ∙ rw e) in
      rw found (
        saved_over (find_workflow k s.workflows) w
          (λ a fa. find_workflow-id k s.workflows fa ∙ sym q)
          (subst (λ j. check_save (find_workflow j s.workflows) w ≡ ok tt) q
            (save_workflow_parts w s h).0))
  | inr e ↦
      let found : find_workflow k t.workflows ≡ find_workflow k s.workflows =
        (find_workflow-save_workflow w s k h ∙ rw e) in
      rw found (Later-refl (find_workflow k s.workflows))
]
Save-Continues {s} k (Save.checkpoint c h) =
    let (_, e) = save_checkpoint_parts c s h in rw e (Later-refl (find_workflow k s.workflows))

-- Whatever clients save, in any order: a workflow stays in the store, keeps its identities, never
-- goes back to an older checkpoint version, and keeps a terminal status for good.
pub History-Continues :
    {s t : Store} (k : ℕ)
    → History s t
    → Later Continues (find_workflow k s.workflows) (find_workflow k t.workflows)
History-Continues {s} k here = Later-refl (find_workflow k s.workflows)
History-Continues {s} {t} k (next {t = m} p st) =
    Later-trans (find_workflow k s.workflows) (find_workflow k m.workflows)
      (find_workflow k t.workflows) (History-Continues k p) (Save-Continues k st)

-- The version of the checkpoint that is stored for a workflow, and 0 where there is none.
abbrev version_of : Option WorkflowCheckpoint → ℕ
version_of none = 0
version_of (some c) = c.version

abbrev pub stored_version : ℕ → Store → ℕ
stored_version k s = version_of (find_checkpoint k s.checkpoints)

grown_over :
    (o : Option WorkflowCheckpoint) (c : WorkflowCheckpoint)
    → check_newer o c ≡ ok tt
    → version_of o ≤ c.version
unfolding check_newer
grown_over none c h = omega arith
grown_over (some d) c h = ground arith

Save-version : {s t : Store} (k : ℕ) → Save s t → stored_version k s ≤ stored_version k t
Save-version {s} {t} k (Save.workflow w h) =
    let (_, e) = save_workflow_parts w s h in rw e (omega arith)
Save-version {s} {t} k (Save.checkpoint c h) =
    let (newer, e) = save_checkpoint_parts c s h in
    let found : find_checkpoint k t.checkpoints
        ≡ (if c.workflow_id == k then some c else find_checkpoint k s.checkpoints) =
      rw e (find_checkpoint-put_checkpoint k c s.checkpoints) in
    elim (Bool-cases (c.workflow_id == k)) [
      | inl q ↦
          rw (found, q)
            (subst (λ j. version_of (find_checkpoint j s.checkpoints) ≤ c.version)
              ((==_iff c.workflow_id k).0 q)
              (grown_over (find_checkpoint c.workflow_id s.checkpoints) c newer))
      | inr q ↦ rw (found, q) (omega arith)
    ]

-- Whatever clients save, in any order, the version of the stored checkpoint of a workflow never
-- falls.
pub History-version : {s t : Store} (k : ℕ) → History s t → stored_version k s ≤ stored_version k t
History-version k here = omega arith
History-version k (next p st) =
    let a = History-version k p in let b = Save-version k st in omega arith
