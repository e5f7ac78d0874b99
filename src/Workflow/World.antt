-- ===== src/Workflow/World.antt =====
-- What the methods of `ManageResearchWorkflow` read and write: the workflow store, the research
-- memory (domain/memory/model.py, infrastructure/memory) and the notifications
-- (domain/notification/model.py, infrastructure/notification).
-- A method is an `Action`: what it wrote before it raised stays written.
use agentic_equity_research.Prelude.{
  ℕ, not, ◌&&◌, ◌||◌, Option, none, some, List, [], ◌∷◌, ◌++◌, any, ◌==◌, Error, Result, ok, err,
  raise_if, naive_timestamp, memory_capability_out_of_bounds, memory_summary_out_of_bounds,
  memory_company_mismatch, if◌then◌else◌,
}
use agentic_equity_research.Prelude.{◌>>=◌ as then_ok}
use agentic_equity_research.Text.{Text, normalize, is_empty, exceeds}
use agentic_equity_research.Task.{Datetime}
use agentic_equity_research.Outcome.{TaskEvidenceRef, DataOrigin}
use agentic_equity_research.Workflow.{WorkflowStatus, ApprovalStatus}
use agentic_equity_research.Workflow.Store.{Store}

pub data MemoryRecordStatus : Type 0 where
  succeeded partial failed skipped : MemoryRecordStatus

pub record ResearchMemoryRecord : Type 0 where
  pub record_id : ℕ
  pub workflow_id : ℕ
  pub research_run_id : ℕ
  pub company_id : ℕ
  pub capability : Text
  pub task_id : ℕ
  pub status : MemoryRecordStatus
  pub summary : Text
  pub created_at : Datetime
  pub evidence_refs : List TaskEvidenceRef
  pub data_origin : Option DataOrigin

-- ResearchMemoryRecord.__post_init__, where `as_of` is not given
unfoldable pub check_memory_record : ResearchMemoryRecord → Result ResearchMemoryRecord
check_memory_record r = then_ok (raise_if (not r.created_at.tz_aware) naive_timestamp) λ _.
    let cap = normalize r.capability in
    then_ok (raise_if (is_empty cap || exceeds cap 128) memory_capability_out_of_bounds) λ _.
      let summary = normalize r.summary in
      then_ok (raise_if (is_empty summary || exceeds summary 1000) memory_summary_out_of_bounds)
        λ _.
          then_ok
            (raise_if (any (λ ref. not (ref.company_id == r.company_id)) r.evidence_refs)
              memory_company_mismatch)
            λ _. ok (record r { capability = cap; summary = summary })

-- InMemoryResearchMemoryStore.append: `none` is the ResearchMemoryStoreError for a key that is there.
unfoldable pub append_memory :
    ResearchMemoryRecord → List ResearchMemoryRecord → Option (List ResearchMemoryRecord)
append_memory r memory =
    if any (λ m. m.record_id == r.record_id) memory
    then none
    else if any (λ m. m.workflow_id == r.workflow_id && m.task_id == r.task_id) memory
    then none
    else some (memory ++ r ∷ [])

pub data NotificationType : Type 0 where
  workflow_completed workflow_partial workflow_failed workflow_cancelled : NotificationType
  approval_required monitoring_check_created : NotificationType

pub record NotificationEvent : Type 0 where
  pub notification_type : NotificationType
  pub created_at : Datetime
  pub workflow_id : ℕ
  pub company_id : ℕ
  pub message : Text
  pub status : WorkflowStatus
  pub approval_status : ApprovalStatus

pub record World : Type 0 where
  pub store : Store
  pub memory : List ResearchMemoryRecord
  pub events : List NotificationEvent

abbrev pub Action : Type 0 → Type 0
Action A = World → Result A × World

module _ {A : Type 0} where
  unfoldable pub pure : A → Action A
  pure a w = (ok a, w)

  unfoldable pub lift : Result A → Action A
  lift r w = (r, w)

module _ {A B : Type 0} where
  abbrev pub go_on : Result A → (A → Action B) → Action B
  go_on (ok a) f w = f a w
  go_on (err e) f w = (err e, w)

  infixl 5 ◌>>=◌ ◌>>◌
  unfoldable pub ◌>>=◌ : Action A → (A → Action B) → Action B
  unfolding pure lift
  ◌>>=◌ m f w = let (r, w') = m w in go_on r f w'

  abbrev pub ◌>>◌ : Action A → Action B → Action B
  ◌>>◌ m k = m >>= λ _. k

  -- `if x is None: … else: …`
  unfoldable pub case_option : Option A → Action B → (A → Action B) → Action B
  case_option none absent present = absent
  case_option (some a) absent present = present a

  -- `try: … except …` around a call without effects
  unfoldable pub case_result : Result A → (Error → Action B) → (A → Action B) → Action B
  case_result (ok a) handler rest = rest a
  case_result (err e) handler rest = handler e

-- What a store method does: it writes only if it does not raise.
unfoldable pub store_call : (Store → Result Store) → Action (Unit {0})
store_call f w = elim (f w.store) [
  | ok store ↦ (ok tt, record w { store = store })
  | err e ↦ (err e, w)
]
