-- ===== src/Examples/Workflows.antt =====
-- Workflows, their store and the operations on them.
use agentic_equity_research.Prelude.{
  ◌⊎◌, ℕ, ◌≤◌, ◌≡◌, refl, true, false, none, some, [], ◌∷◌, ◌++◌, workflow_transition, ok, err,
  if◌then◌else◌, ◌==◌,
}
use agentic_equity_research.Workflow.{ApprovalDecision, check_decision, check_note}
use agentic_equity_research.Workflow.Manage.Operations.{approve}
use agentic_equity_research.Workflow.Manage.Decisions.{approved, approve_accepted}
use agentic_equity_research.Text.{
  Text, normalize, strip, lstrip, rstrip, split_from, is_space, text,
}
use agentic_equity_research.Task.{TaskStatus}
use agentic_equity_research.Budget.{default_budget}
use agentic_equity_research.Retry.{new_control}
use agentic_equity_research.Plan.{ResearchObjective}
use agentic_equity_research.Workflow.{
  WorkflowStatus, ApprovalStatus, WorkflowCheckpoint, ResearchWorkflow, allowed_change,
  with_workflow_status, assert_transition, check_workflow,
}
use agentic_equity_research.Workflow.Lifecycle.{IsConsistent, with_workflow_status_sound}
use agentic_equity_research.Workflow.Store.{
  Store, find_workflow, put_workflow, find_checkpoint, put_checkpoint, save_workflow,
  save_checkpoint, check_save, check_owner, check_newer, same_status,
}
use agentic_equity_research.Workflow.Store.Guard.{Continues}
use agentic_equity_research.Workflow.Store.History.{
  Save, History, Later, History-Continues, stored_version, History-version,
  find_workflow-save_workflow,
}
use agentic_equity_research.Workflow.World.{World}
use agentic_equity_research.Workflow.Manage.{
  Services, ControlTrace, WorkflowOperationStatus, status_value,
}
use agentic_equity_research.Workflow.Manage.Finish.{ending, commit_result}
use agentic_equity_research.Execution.Status.{ResearchExecutionStatus}
use agentic_equity_research.Workflow.Manage.Operations.{execute, cancel}
use agentic_equity_research.Workflow.Manage.Safety.{ByOthers, Operation, perform, perform-Continues}
use agentic_equity_research.Workflow.Manage.Answers.{
  about, saved, cancelled, stale, HasEnded, Told, cancel_stored, commit_result-stale,
}
use agentic_equity_research.Workflow.Manage.Refusals.{execute_refuses}
use agentic_equity_research.Examples.Samples.{noon, word, task, plan_of, company, env}

abbrev workflow : WorkflowStatus → ApprovalStatus → ResearchWorkflow
workflow status approval = record {
  workflow_id = 9;
  research_run_id = 30;
  request_id = 40;
  company_id = 7;
  objective = ResearchObjective.company_overview;
  plan = plan_of (task 4 [] TaskStatus.pending true ∷ []);
  company_query = record { raw_query = word; country = none; exchange = none; ticker = none };
  status = status;
  approval_status = approval;
  approval_requirement = record { required = false; reason = word };
  created_at = noon;
  updated_at = noon;
  checkpoint_version = 0;
  latest_checkpoint = none;
  approval_decision = none;
  execution_message = none;
  completed_count = 0;
  failed_count = 0;
  blocked_count = 0;
  partial_count = 0;
  evidence_count = 0;
  warnings = [];
}

abbrev running : ResearchWorkflow
running = workflow WorkflowStatus.running ApprovalStatus.not_required

abbrev waiting : ResearchWorkflow
waiting = workflow WorkflowStatus.awaiting_approval ApprovalStatus.pending

abbrev dead : ResearchWorkflow
dead = workflow WorkflowStatus.cancelled ApprovalStatus.not_required

abbrev completed : ResearchWorkflow
completed = workflow WorkflowStatus.completed ApprovalStatus.not_required

abbrev storing : ResearchWorkflow → Store
storing w = record { workflows = w ∷ []; checkpoints = [] }

abbrev world : ResearchWorkflow → World
world w = record { store = storing w; memory = []; events = [] }

abbrev pub services : Services
services = record {
  clock = λ n. noon;
  resolve = λ q. some company;
  has_memory = false;
  has_notifications = false;
  memory_error = λ r. none;
  publish_error = λ e. none;
  fresh_id = λ n. n;
  env = env;
  budget = default_budget;
  meanwhile = λ w. w;
}

abbrev trace : ControlTrace
trace = record { during = λ k. new_control; at_end = new_control }

alone : ByOthers services
alone = record { saves = λ w. History.here }

checkpoint : ℕ → WorkflowCheckpoint
checkpoint version = record {
  workflow_id = 9;
  research_run_id = 30;
  version = version;
  plan = plan_of (task 4 [] TaskStatus.pending true ∷ []);
  created_at = noon;
  total_attempts = 0;
  external_calls = 0;
  warnings = [];
  task_results = [];
  evidence_refs = [];
  message = word;
}

program : Unit {0}
unfolding save_workflow save_checkpoint check_save check_owner check_newer find_workflow
    put_workflow find_checkpoint put_checkpoint same_status allowed_change assert_transition
    with_workflow_status check_workflow checkpoint
program = tt

running_found : find_workflow 9 (storing running).workflows ≡ some running
unfolding program
running_found = refl

waiting_found : find_workflow 9 (storing waiting).workflows ≡ some waiting
unfolding program
waiting_found = refl

dead_found : find_workflow 9 (storing dead).workflows ≡ some dead
unfolding program
dead_found = refl

abbrev started : ResearchWorkflow
started = workflow WorkflowStatus.running ApprovalStatus.approved

started_found : find_workflow 9 (storing started).workflows ≡ some started
unfolding program
started_found = refl

running-IsConsistent : IsConsistent running
running-IsConsistent = record {
  created_aware = refl;
  updated_aware = refl;
  same_run = refl;
  same_company = refl;
  own_checkpoint = refl;
}

running_saved : save_workflow dead (storing running) ≡ ok (storing dead)
unfolding program
running_saved = refl

revived : save_workflow running (storing dead) ≡ err workflow_transition
unfolding program
revived = refl

abbrev checkpointed : Store
unfolding checkpoint
checkpointed = record { workflows = dead ∷ []; checkpoints = checkpoint 1 ∷ [] }

checkpoint_saved : save_checkpoint (checkpoint 1) (storing dead) ≡ ok checkpointed
unfolding program checkpointed
checkpoint_saved = refl

two_saves : History (storing running) checkpointed
two_saves =
    History.next (History.next History.here (Save.workflow dead running_saved))
      (Save.checkpoint (checkpoint 1) checkpoint_saved)

History-Continues_example :
    Later Continues
      (find_workflow 9 (storing running).workflows)
      (find_workflow 9 checkpointed.workflows)
History-Continues_example = History-Continues 9 two_saves

History-version_example : stored_version 9 (storing running) ≤ stored_version 9 checkpointed
History-version_example = History-version 9 two_saves

find_workflow-save_workflow_example :
    find_workflow 9 (storing dead).workflows
    ≡ (if dead.workflow_id == 9 then some dead else find_workflow 9 (storing running).workflows)
find_workflow-save_workflow_example =
    find_workflow-save_workflow dead (storing running) 9 running_saved

perform-Continues_example :
    Later Continues
      (find_workflow 9 (storing running).workflows)
      (find_workflow 9 (perform services (Operation.cancel_op 9) (world running)).1.store.workflows)
perform-Continues_example =
    perform-Continues services alone (Operation.cancel_op 9) (world running) 9

cancel_stored_example :
    (HasEnded running.status
      × (cancel services 9 (world running) ≡ (
        ok (
            about WorkflowOperationStatus.conflict
              (text "cannot cancel terminal workflow status=" ++ status_value running.status)
              running
              noon),
        world running,
      )))
    ⊎ ((¬ HasEnded running.status)
        × ((w' : World) × (cancel services 9 (world running) ≡ (
          ok (
              about WorkflowOperationStatus.ok
                (text "workflow cancelled")
                (cancelled running noon)
                noon),
          w',
        ))
            × Told services running
                (record (world running) {
                  store = saved (cancelled running noon) (storing running);
                })
                w'))
cancel_stored_example =
    cancel_stored services (world running) running_found running-IsConsistent refl refl

-- A RUNNING workflow that was approved is not started again.
execute_refuses_example :
    (message : Text) × (execute services 9 trace (world started)
      ≡ (ok (about WorkflowOperationStatus.conflict message started noon), world started))
execute_refuses_example = execute_refuses services 9 trace (world started) started_found refl refl

late : same_status WorkflowStatus.completed WorkflowStatus.cancelled ≡ false
unfolding same_status
late = refl

commit_result-stale_example :
    commit_result services running
      (checkpoint 1)
      (ending false ResearchExecutionStatus.completed)
      completed
      noon
      noon
      (world dead)
    ≡ (ok (stale services dead noon), world dead)
commit_result-stale_example =
    commit_result-stale services running dead completed (checkpoint 1)
      (ending false ResearchExecutionStatus.completed) noon noon (world dead) dead_found refl refl
      refl refl refl refl refl late refl

running-cancelled :
    with_workflow_status running WorkflowStatus.cancelled noon
    ≡ ok (record running { status = WorkflowStatus.cancelled })
unfolding program
running-cancelled = refl

with_workflow_status_sound_example :
    (allowed_change WorkflowStatus.running WorkflowStatus.cancelled ≡ true)
    × (true ≡ true)
    × IsConsistent dead
    × (dead ≡ record running { status = WorkflowStatus.cancelled; updated_at = noon })
with_workflow_status_sound_example =
    with_workflow_status_sound running WorkflowStatus.cancelled noon running-cancelled

waiting-IsConsistent : IsConsistent waiting
waiting-IsConsistent = record {
  created_aware = refl;
  updated_aware = refl;
  same_run = refl;
  same_company = refl;
  own_checkpoint = refl;
}

abbrev decision : ApprovalDecision
decision = record {
  status = ApprovalStatus.approved;
  decided_at = noon;
  note = none;
  decision_source = word;
}

decision_checked : check_decision decision ≡ ok decision
unfolding check_decision normalize strip lstrip rstrip split_from is_space check_note
decision_checked = refl

approve_accepted_example : approve services 9 ApprovalStatus.approved none word (world waiting) ≡ (
  ok (
      about WorkflowOperationStatus.ok
        (text "workflow approved")
        (approved waiting decision noon)
        noon),
  record (world waiting) { store = saved (approved waiting decision noon) (storing waiting) },
)
approve_accepted_example =
    approve_accepted services none word (world waiting) waiting_found waiting-IsConsistent refl refl
      refl decision_checked
