-- ===== src/Workflow/Manage/Answers.antt =====
-- What `ManageResearchWorkflow` answers and writes: cancellation, the approval gate, and a result
-- that comes too late.
use agentic_equity_research.Prelude.{
  ◌⊎◌, inl, inr, Option, [], ◌∷◌, Bool-cases, Option-cases, ℕ, ◌∙◌, ◌≡◌, refl, true, false, none,
  some, ◌++◌, Error, workflow_transition, ok, err, arith,
}
use agentic_equity_research.Text.{Text, text}
use agentic_equity_research.Task.{Datetime}
use agentic_equity_research.Workflow.{
  WorkflowStatus, WorkflowCheckpoint, ResearchWorkflow, is_terminal, assert_transition,
}
use agentic_equity_research.Workflow.Lifecycle.{
  IsConsistent, terminal_iff, check_workflow-IsConsistent, with_workflow_status_ok,
}
use agentic_equity_research.Workflow.Store.{
  Store, find_workflow, put_workflow, save_workflow, check_save, same_status,
}
use agentic_equity_research.Workflow.World.{
  NotificationType, NotificationEvent, World, lift, ◌>>=◌, case_option, case_result,
}
use agentic_equity_research.Workflow.Manage.{
  Services, WorkflowOperationStatus, WorkflowOperationResult, answer, status_value, get_workflow,
  conflict_or_raise, commit_or_conflict, check_operation_result, notify,
}
use agentic_equity_research.Workflow.Manage.Finish.{Ending, commit_result}
use agentic_equity_research.Workflow.Manage.Operations.{cancel, cancel_open}

-- What an operation returns about a workflow.
abbrev pub about :
    WorkflowOperationStatus → Text → ResearchWorkflow → Datetime → WorkflowOperationResult
about status message v now = record {
  status = status;
  message = message;
  workflow = some v;
  evaluated_at = now;
}

pub answer-about :
    (status : WorkflowOperationStatus) (message : Text) (v : ResearchWorkflow) (now : Datetime)
    (w : World)
    → now.tz_aware ≡ true
    → answer status message (some v) now w ≡ (ok (about status message v now), w)
unfolding answer check_operation_result lift
answer-about status message v now w h = ground arith

-- What a save writes.
abbrev pub saved : ResearchWorkflow → Store → Store
saved v s = record s { workflows = put_workflow v s.workflows }

cancel_terminal :
    (svc : Services) (key : ℕ) (w : World) {v : ResearchWorkflow}
    → find_workflow key w.store.workflows ≡ some v
    → is_terminal v.status ≡ true
    → (svc.clock 0).tz_aware ≡ true
    → cancel svc key w ≡ (
      ok (
          about WorkflowOperationStatus.conflict
            (text "cannot cancel terminal workflow status=" ++ status_value v.status)
            v
            (svc.clock 0)),
      w,
    )
unfolding cancel get_workflow ◌>>=◌ case_option
cancel_terminal svc key w {v} found done aware =
    rw (found, done)
      (answer-about WorkflowOperationStatus.conflict
        (text "cannot cancel terminal workflow status=" ++ status_value v.status) v (svc.clock 0) w
        aware)

-- The workflow that `cancel` stores.
abbrev pub cancelled : ResearchWorkflow → Datetime → ResearchWorkflow
cancelled v now = record v {
  status = WorkflowStatus.cancelled;
  updated_at = now;
  execution_message = some (text "workflow cancelled by trusted API");
}

check_save-cancelled :
    (v : ResearchWorkflow) (now : Datetime)
    → is_terminal v.status ≡ false
    → check_save (some v) (cancelled v now) ≡ ok tt
unfolding check_save assert_transition
check_save-cancelled v now live = ground (arith, (terminal_iff v.status).1 live)

save_cancelled :
    (v : ResearchWorkflow) (now : Datetime) (s : Store)
    → find_workflow v.workflow_id s.workflows ≡ some v
    → is_terminal v.status ≡ false
    → save_workflow (cancelled v now) s ≡ ok (saved (cancelled v now) s)
unfolding save_workflow
save_cancelled v now s found live = rw (found, check_save-cancelled v now live)

pub commit_saved :
    (svc : Services) (key : ℕ) (v : ResearchWorkflow) (now : Datetime) (w : World) {s : Store}
    → save_workflow v w.store ≡ ok s
    → commit_or_conflict svc key v now w ≡ (ok none, record w { store = s })
unfolding commit_or_conflict
commit_saved svc key v now w h = rw (h, commit_or_conflict) refl

-- What `cancel` tells, once the workflow is stored in `w`.
abbrev pub Told : Services → ResearchWorkflow → World → World → Type 0
Told svc v w w' =
    (w'.store ≡ w.store)
    × (w'.memory ≡ w.memory)
    × ((w'.events ≡ w.events)
        ⊎ ((svc.has_notifications ≡ true)
            × (w'.events
                ≡ w.events
                  ++ record {
                    notification_type = NotificationType.workflow_cancelled;
                    created_at = svc.clock 1;
                    workflow_id = v.workflow_id;
                    company_id = v.company_id;
                    message = text "workflow cancelled";
                    status = WorkflowStatus.cancelled;
                    approval_status = v.approval_status;
                  }
                    ∷ [])))

notify-Told :
    (svc : Services) (v : ResearchWorkflow) (now : Datetime) (w : World)
    → (svc.clock 1).tz_aware ≡ true
    → (o : Option Text) × (w' : World) × (notify svc NotificationType.workflow_cancelled
          (cancelled v now)
          (text "workflow cancelled")
          (svc.clock 1)
          w
        ≡ (ok o, w'))
      × Told svc v w w'
unfolding notify
notify-Told svc v now w aware = elim (Bool-cases svc.has_notifications) [
  | inl on ↦ (elim (Option-cases (svc.publish_error event)) [
    | inl sent ↦ (
      none,
      record w { events = w.events ++ event ∷ [] },
      ground (arith, on, aware, sent),
      (refl, refl, inr (on, refl)),
    )
    | inr (name, failed) ↦ (
      some (text "notification_failed:" ++ name),
      w,
      ground (arith, on, aware, failed),
      (refl, refl, inl refl),
    )
  ])
  | inr off ↦ (none, w, rw off refl, (refl, refl, inl refl))
]
  where
    event : NotificationEvent
    event = record {
      notification_type = NotificationType.workflow_cancelled;
      created_at = svc.clock 1;
      workflow_id = v.workflow_id;
      company_id = v.company_id;
      message = text "workflow cancelled";
      status = WorkflowStatus.cancelled;
      approval_status = v.approval_status;
    }

cancel_live :
    (svc : Services) (w : World) {v : ResearchWorkflow}
    → find_workflow v.workflow_id w.store.workflows ≡ some v
    → IsConsistent v
    → is_terminal v.status ≡ false
    → (svc.clock 0).tz_aware ≡ true
    → (svc.clock 1).tz_aware ≡ true
    → (w' : World) × (cancel svc v.workflow_id w ≡ (
      ok (
          about WorkflowOperationStatus.ok
            (text "workflow cancelled")
            (cancelled v (svc.clock 0))
            (svc.clock 0)),
      w',
    ))
      × Told svc v (record w { store = saved (cancelled v (svc.clock 0)) w.store }) w'
unfolding cancel cancel_open get_workflow ◌>>=◌ case_option case_result
cancel_live svc w {v} found c live aware later =
    let c' : IsConsistent (cancelled v (svc.clock 0)) = record {
      created_aware = c.created_aware;
      updated_aware = aware;
      same_run = c.same_run;
      same_company = c.same_company;
      own_checkpoint = c.own_checkpoint;
    } in
    let stored : World = record w { store = saved (cancelled v (svc.clock 0)) w.store } in
    let (o, w', notified, tells) = notify-Told svc v (svc.clock 0) stored later in
    (
      w',
      rw
          (
            found,
            live,
            with_workflow_status_ok v WorkflowStatus.cancelled (svc.clock 0) c
                ((terminal_iff v.status).1 live) aware,
            check_workflow-IsConsistent (cancelled v (svc.clock 0)) c',
            commit_saved svc v.workflow_id (cancelled v (svc.clock 0)) (svc.clock 0) w
                (save_cancelled v (svc.clock 0) w.store found live),
            notified,
          )
          (answer-about WorkflowOperationStatus.ok (text "workflow cancelled")
            (cancelled v (svc.clock 0)) (svc.clock 0) w' aware),
      tells,
    )

-- COMPLETED, PARTIAL, FAILED or CANCELLED
abbrev pub HasEnded : WorkflowStatus → Type 0
HasEnded s =
    (s ≡ WorkflowStatus.completed)
    ⊎ (s ≡ WorkflowStatus.partial)
    ⊎ (s ≡ WorkflowStatus.failed)
    ⊎ (s ≡ WorkflowStatus.cancelled)

is_terminal-HasEnded :
    (s : WorkflowStatus)
    → (is_terminal s ≡ true → HasEnded s) × (is_terminal s ≡ false → ¬ HasEnded s)
is_terminal-HasEnded s = ((λ h. ended s h), λ h e. ground arith)
  where
    ended : (s : WorkflowStatus) → is_terminal s ≡ true → HasEnded s
    ended WorkflowStatus.completed h = inl refl
    ended WorkflowStatus.partial h = inr (inl refl)
    ended WorkflowStatus.failed h = inr (inr (inl refl))
    ended WorkflowStatus.cancelled h = inr (inr (inr refl))
    ended _ h = cc

-- `cancel` of a stored workflow that has ended answers CONFLICT with the workflow and writes nothing.
-- Of any other it answers OK with the cancelled workflow and stores it: the status, the time and the
-- message change and nothing else, in the store and in the memory, and at most one event is
-- published, that of the cancellation, if notifications are configured. The stored workflow is
-- consistent, and the clock gives aware times.
pub cancel_stored :
    (svc : Services) (w : World) {v : ResearchWorkflow}
    → find_workflow v.workflow_id w.store.workflows ≡ some v
    → IsConsistent v
    → (svc.clock 0).tz_aware ≡ true
    → (svc.clock 1).tz_aware ≡ true
    → (HasEnded v.status
        × (cancel svc v.workflow_id w ≡ (
          ok (
              about WorkflowOperationStatus.conflict
                (text "cannot cancel terminal workflow status=" ++ status_value v.status)
                v
                (svc.clock 0)),
          w,
        )))
      ⊎ ((¬ HasEnded v.status)
          × ((w' : World) × (cancel svc v.workflow_id w ≡ (
            ok (
                about WorkflowOperationStatus.ok
                  (text "workflow cancelled")
                  (cancelled v (svc.clock 0))
                  (svc.clock 0)),
            w',
          ))
              × Told svc v (record w { store = saved (cancelled v (svc.clock 0)) w.store }) w'))
cancel_stored svc w {v} found c aware later = elim (Bool-cases (is_terminal v.status)) [
  | inl done ↦
      inl (
        (is_terminal-HasEnded v.status).0 done,
        cancel_terminal svc v.workflow_id w found done aware,
      )
  | inr live ↦
      inr ((is_terminal-HasEnded v.status).1 live, cancel_live svc w found c live aware later)
]

-- What `_commit_or_conflict` answers when the store refuses the change of status.
abbrev pub stale : Services → ResearchWorkflow → Datetime → WorkflowOperationResult
stale svc held now =
    about WorkflowOperationStatus.conflict
      (text "workflow lifecycle changed concurrently; stale execution result discarded: "
        ++ svc.env.error_text workflow_transition)
      held now

commit_refused :
    (svc : Services) (key : ℕ) (v : ResearchWorkflow) (now : Datetime) (w : World) {e : Error}
    → save_workflow v w.store ≡ err e
    → commit_or_conflict svc key v now w ≡ conflict_or_raise svc key e now w
unfolding commit_or_conflict
commit_refused svc key v now w h = rw (h, commit_or_conflict) refl

check_save_stale :
    (a v : ResearchWorkflow)
    → is_terminal a.status ≡ true
    → same_status v.status a.status ≡ false
    → v.research_run_id ≡ a.research_run_id
    → v.request_id ≡ a.request_id
    → v.company_id ≡ a.company_id
    → v.plan.plan_id ≡ a.plan.plan_id
    → check_save (some a) v ≡ err workflow_transition
unfolding check_save assert_transition
check_save_stale a v done moved run request company plan =
    ground (arith, (terminal_iff a.status).0 done v.status)

conflict_stale :
    (svc : Services) (a : ResearchWorkflow) (now : Datetime) (w : World)
    → find_workflow a.workflow_id w.store.workflows ≡ some a
    → now.tz_aware ≡ true
    → conflict_or_raise svc a.workflow_id workflow_transition now w
      ≡ (ok (some (stale svc a now)), w)
unfolding conflict_or_raise get_workflow ◌>>=◌ answer check_operation_result
conflict_stale svc a now w found aware = rw (found, aware) refl

save_stale :
    (a v : ResearchWorkflow) (s : Store)
    → find_workflow v.workflow_id s.workflows ≡ some a
    → check_save (some a) v ≡ err workflow_transition
    → save_workflow v s ≡ err workflow_transition
unfolding save_workflow
save_stale a v s found h = rw (found, h) refl

-- An execution result that comes when the workflow has a terminal status already is discarded: the
-- answer is CONFLICT with the stored workflow, and neither the workflow nor the checkpoint is
-- stored and nothing is announced. The result is for the same run, request, company and plan, and
-- for another status.
pub commit_result-stale :
    (svc : Services) (workflow a updated : ResearchWorkflow) (checkpoint : WorkflowCheckpoint)
    (end : Ending) (now at : Datetime) (w : World)
    → find_workflow a.workflow_id w.store.workflows ≡ some a
    → is_terminal a.status ≡ true
    → workflow.workflow_id ≡ a.workflow_id
    → updated.workflow_id ≡ a.workflow_id
    → updated.research_run_id ≡ a.research_run_id
    → updated.request_id ≡ a.request_id
    → updated.company_id ≡ a.company_id
    → updated.plan.plan_id ≡ a.plan.plan_id
    → same_status updated.status a.status ≡ false
    → now.tz_aware ≡ true
    → commit_result svc workflow checkpoint end updated now at w ≡ (ok (stale svc a now), w)
unfolding commit_result ◌>>=◌ case_option
commit_result-stale svc workflow a updated checkpoint end now at w found done k j run request
      company plan moved aware =
    let refused : save_workflow updated w.store ≡ err workflow_transition =
      save_stale a updated w.store (rw j found)
        (check_save_stale a updated done moved run request company plan) in
    let answered : commit_or_conflict svc workflow.workflow_id updated now w
        ≡ (ok (some (stale svc a now)), w) =
      (commit_refused svc workflow.workflow_id updated now w refused
        ∙ (rw k (conflict_stale svc a now w found aware))) in
    rw answered refl
