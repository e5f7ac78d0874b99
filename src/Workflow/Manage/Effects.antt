-- ===== src/Workflow/Manage/Effects.antt =====
-- How the parts of `ManageResearchWorkflow` change the store, as rules for `search`.
use agentic_equity_research.Prelude.{
  ℕ, ◌≡◌, Bool, true, false, Option, none, some, Error, Result, ok, err, if◌then◌else◌, List,
  Result-cases, inl, inr, arith,
}
use agentic_equity_research.Text.{Text}
use agentic_equity_research.Task.{Datetime, ResearchTask}
use agentic_equity_research.Execution.Status.{ResearchExecutionResult}
use agentic_equity_research.Workflow.{WorkflowCheckpoint, ResearchWorkflow}
use agentic_equity_research.Workflow.Store.{Store, save_workflow, save_checkpoint}
use agentic_equity_research.Workflow.Store.History.{Save, History, History-trans}
use agentic_equity_research.Workflow.World.{
  NotificationType, World, Action, pure, lift, ◌>>=◌, case_option, case_result, store_call,
}
use agentic_equity_research.Workflow.Manage.{
  Services, WorkflowOperationStatus, answer, get_workflow, conflict_or_raise, commit_or_conflict,
  notify, persist_memory,
}
use agentic_equity_research.Workflow.Manage.Finish.{
  Ending, announce, commit_result, apply_execution_result,
}

-- The action leads from store to store by saves, whether it returns or raises.
pub record BySaves {A : Type 0} (m : Action A) : Type 0 where
  pub at : (w : World) → History w.store (m w).1.store

module _ {A : Type 0} where
  pub BySaves-pure : (a : A) → BySaves (pure a)
  unfolding pure
  BySaves-pure a = record { at = λ w. History.here }

  pub BySaves-lift : (r : Result A) → BySaves (lift r)
  unfolding lift
  BySaves-lift r = record { at = λ w. History.here }

  pub BySaves-if :
      (b : Bool) (m n : Action A) → BySaves m → BySaves n → BySaves (if b then m else n)
  BySaves-if true m n hm hn = hm
  BySaves-if false m n hm hn = hn

module _ {A B : Type 0} where
  BySaves-lift_bind :
      (r : Result A) (f : A → Action B) → ((a : A) → BySaves (f a)) → BySaves (lift r >>= f)
  unfolding ◌>>=◌
  BySaves-lift_bind (ok a) f h = h a
  BySaves-lift_bind (err e) f h = BySaves-lift (err e)

  pub BySaves-bind :
      (m : Action A) (f : A → Action B) → BySaves m → ((a : A) → BySaves (f a)) → BySaves (m >>= f)
  unfolding ◌>>=◌
  BySaves-bind m f hm hf = record {
    at = λ w. let (r, w') = m w in History-trans (hm.at w) ((BySaves-lift_bind r f hf).at w');
  }

  pub BySaves-case_option :
      (o : Option A) (absent : Action B) (present : A → Action B)
      → BySaves absent
      → ((a : A) → BySaves (present a))
      → BySaves (case_option o absent present)
  unfolding case_option
  BySaves-case_option none absent present h k = h
  BySaves-case_option (some a) absent present h k = k a

  pub BySaves-case_result :
      (r : Result A) (handler : Error → Action B) (rest : A → Action B)
      → ((e : Error) → BySaves (handler e))
      → ((a : A) → BySaves (rest a))
      → BySaves (case_result r handler rest)
  unfolding case_result
  BySaves-case_result (ok a) handler rest h k = k a
  BySaves-case_result (err e) handler rest h k = h e

pub BySaves-get_workflow : (key : ℕ) → BySaves (get_workflow key)
unfolding get_workflow
BySaves-get_workflow key = record { at = λ w. History.here }

pub ruleset flow_rules = (
  BySaves-pure, BySaves-lift, BySaves-if, BySaves-bind, BySaves-case_option, BySaves-case_result,
  BySaves-get_workflow,
)

pub BySaves-answer :
    (status : WorkflowOperationStatus) (message : Text) (workflow : Option ResearchWorkflow)
    (now : Datetime)
    → BySaves (answer status message workflow now)
unfolding answer
BySaves-answer status message workflow now = search flow_rules

BySaves-store_call :
    (f : Store → Result Store) → ((s t : Store) → f s ≡ ok t → Save s t) → BySaves (store_call f)
unfolding store_call
BySaves-store_call f h = record {
  at = λ w. elim (Result-cases (f w.store)) [
    | inl (t, e) ↦ rw (e, store_call) (History.next History.here (h w.store t e))
    | inr (x, e) ↦ rw (e, store_call) History.here
  ];
}

pub BySaves-save_workflow : (v : ResearchWorkflow) → BySaves (store_call (save_workflow v))
BySaves-save_workflow v = BySaves-store_call (save_workflow v) (λ s t e. Save.workflow v e)

pub BySaves-save_checkpoint : (c : WorkflowCheckpoint) → BySaves (store_call (save_checkpoint c))
BySaves-save_checkpoint c = BySaves-store_call (save_checkpoint c) (λ s t e. Save.checkpoint c e)

module _ (svc : Services) where
  BySaves-conflict_or_raise :
      (key : ℕ) (e : Error) (now : Datetime) → BySaves (conflict_or_raise svc key e now)
  unfolding conflict_or_raise
  BySaves-conflict_or_raise key e now = search flow_rules

  pub BySaves-commit_or_conflict :
      (key : ℕ) (v : ResearchWorkflow) (now : Datetime) → BySaves (commit_or_conflict svc key v now)
  unfolding commit_or_conflict
  BySaves-commit_or_conflict key v now = record {
    at = λ w. elim (Result-cases (save_workflow v w.store)) [
      | inl (t, e) ↦ rw (e, commit_or_conflict) (History.next History.here (Save.workflow v e))
      | inr (x, e) ↦ rw (e, commit_or_conflict) ((BySaves-conflict_or_raise key x now).at w)
    ];
  }

  store-notify :
      (kind : NotificationType) (v : ResearchWorkflow) (message : Text) (now : Datetime) (w : World)
      → (notify svc kind v message now w).1.store ≡ w.store
  unfolding notify
  store-notify kind v message now w = ground arith

  pub BySaves-notify :
      (kind : NotificationType) (v : ResearchWorkflow) (message : Text) (now : Datetime)
      → BySaves (notify svc kind v message now)
  BySaves-notify kind v message now = record {
    at = λ w. rw (store-notify kind v message now w) History.here;
  }

  store-persist_memory :
      (v : ResearchWorkflow) (tasks : List ResearchTask) (now : Datetime) (w : World)
      → (persist_memory svc v tasks now w).1.store ≡ w.store
  unfolding persist_memory
  store-persist_memory v tasks now w = ground arith

  pub BySaves-persist_memory :
      (v : ResearchWorkflow) (tasks : List ResearchTask) (now : Datetime)
      → BySaves (persist_memory svc v tasks now)
  BySaves-persist_memory v tasks now = record {
    at = λ w. rw (store-persist_memory v tasks now w) History.here;
  }

pub ruleset write_rules = (
  flow_rules, BySaves-answer, BySaves-save_workflow, BySaves-save_checkpoint,
  BySaves-commit_or_conflict, BySaves-notify, BySaves-persist_memory,
)

module _ (svc : Services) where
  BySaves-announce :
      (kind : Option NotificationType) (v : ResearchWorkflow) (message : Text) (at : Datetime)
      → BySaves (announce svc kind v message at)
  unfolding announce
  BySaves-announce none v message at = search write_rules
  BySaves-announce (some kind) v message at = search write_rules depth 8

  BySaves-commit_result :
      (v : ResearchWorkflow) (c : WorkflowCheckpoint) (end : Ending) (u : ResearchWorkflow)
      (now at : Datetime)
      → BySaves (commit_result svc v c end u now at)
  unfolding commit_result
  BySaves-commit_result v c end u now at = search (write_rules, BySaves-announce) depth 9

  pub BySaves-apply_execution_result :
      (v : ResearchWorkflow) (r : ResearchExecutionResult) (pause : Bool) (now at : Datetime)
      → BySaves (apply_execution_result svc v r pause now at)
  unfolding apply_execution_result
  BySaves-apply_execution_result v r pause now at =
      search (write_rules, BySaves-commit_result) depth 9
