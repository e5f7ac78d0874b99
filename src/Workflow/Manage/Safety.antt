-- ===== src/Workflow/Manage/Safety.antt =====
-- What holds of the store after any operation on workflows, whatever other threads do meanwhile.
use agentic_equity_research.Prelude.{ℕ, ◌+◌, Option}
use agentic_equity_research.Text.{Text}
use agentic_equity_research.Task.{Datetime}
use agentic_equity_research.Execution.{CompanyIdentity}
use agentic_equity_research.Workflow.{ResearchWorkflow, ApprovalDecision, ApprovalStatus}
use agentic_equity_research.Workflow.Store.History.{History, Later, History-Continues}
use agentic_equity_research.Workflow.Store.{find_workflow}
use agentic_equity_research.Workflow.Store.Guard.{Continues}
use agentic_equity_research.Workflow.World.{World, Action}
use agentic_equity_research.Workflow.Manage.{Services, ControlTrace, WorkflowOperationResult}
use agentic_equity_research.Workflow.Manage.Operations.{
  elsewhere, fail_identity, run_plan, execute_committed, start_execution, execute_found, get,
  execute, pause_running, pause_found, pause, cancel_open, cancel, decide, approve_found, approve,
  resume_paused, resume_found, resume,
}
use agentic_equity_research.Workflow.Manage.Effects.{
  BySaves, write_rules, BySaves-apply_execution_result,
}

-- Other threads change the store by saves.
pub record ByOthers (svc : Services) : Type 0 where
  pub saves : (w : World) → History w.store (svc.meanwhile w).store

module _ (svc : Services) (others : ByOthers svc) where
  BySaves-elsewhere : BySaves (elsewhere svc)
  unfolding elsewhere
  BySaves-elsewhere = record { at = λ w. others.saves w }

  BySaves-fail_identity : (v : ResearchWorkflow) → BySaves (fail_identity svc v)
  unfolding fail_identity
  BySaves-fail_identity v = search write_rules depth 12

  BySaves-run_plan :
      (v : ResearchWorkflow) (company : CompanyIdentity) (trace : ControlTrace) (now : Datetime)
      → BySaves (run_plan svc v company trace now)
  unfolding run_plan
  BySaves-run_plan v company trace now =
      search (write_rules, BySaves-elsewhere, BySaves-apply_execution_result) depth 8

  BySaves-start_execution :
      (v : ResearchWorkflow) (trace : ControlTrace) (now : Datetime)
      → BySaves (start_execution svc v trace now)
  unfolding start_execution execute_committed
  BySaves-start_execution v trace now =
      search (write_rules, BySaves-run_plan, BySaves-fail_identity) depth 12

  BySaves-execute : (key : ℕ) (trace : ControlTrace) → BySaves (execute svc key trace)
  unfolding execute execute_found
  BySaves-execute key trace = search (write_rules, BySaves-start_execution) depth 12

  BySaves-get : (key : ℕ) → BySaves (get svc key)
  unfolding get
  BySaves-get key = search write_rules depth 8

  BySaves-pause_running :
      (v : ResearchWorkflow) (now : Datetime) → BySaves (pause_running svc v now)
  unfolding pause_running
  BySaves-pause_running v now = search write_rules depth 12

  BySaves-pause : (key : ℕ) → BySaves (pause svc key)
  unfolding pause pause_found
  BySaves-pause key = search (write_rules, BySaves-pause_running) depth 8

  BySaves-cancel_open : (v : ResearchWorkflow) (now : Datetime) → BySaves (cancel_open svc v now)
  unfolding cancel_open
  BySaves-cancel_open v now = search write_rules depth 12

  BySaves-cancel : (key : ℕ) → BySaves (cancel svc key)
  unfolding cancel
  BySaves-cancel key = search (write_rules, BySaves-cancel_open) depth 8

  BySaves-decide :
      (v : ResearchWorkflow) (d : ApprovalDecision) (now : Datetime) → BySaves (decide svc v d now)
  unfolding decide
  BySaves-decide v d now = search write_rules depth 12

  BySaves-approve :
      (key : ℕ) (decision : ApprovalStatus) (remark : Option Text) (source : Text)
      → BySaves (approve svc key decision remark source)
  unfolding approve approve_found
  BySaves-approve key decision remark source = search (write_rules, BySaves-decide) depth 10

later_clock :
    (svc : Services) → ByOthers svc → ByOthers (record svc { clock = λ n. svc.clock (n + 1) })
later_clock svc others = record { saves = λ w. others.saves w }

module _ (svc : Services) (others : ByOthers svc) where
  BySaves-resume_paused :
      (v : ResearchWorkflow) (now : Datetime) → BySaves (resume_paused svc v now)
  unfolding resume_paused
  BySaves-resume_paused v now =
      let executed : (key : ℕ) (trace : ControlTrace)
          → BySaves (execute (record svc { clock = λ n. svc.clock (n + 1) }) key trace) =
        BySaves-execute (record svc { clock = λ n. svc.clock (n + 1) }) (later_clock svc others) in
      search (write_rules, executed) depth 12

  BySaves-resume : (key : ℕ) → BySaves (resume svc key)
  unfolding resume resume_found
  BySaves-resume key = search (write_rules, BySaves-resume_paused) depth 10

-- The operations that the class offers.
pub data Operation : Type 0 where
  get_op pause_op resume_op cancel_op : (key : ℕ) → Operation
  execute_op : (key : ℕ) (trace : ControlTrace) → Operation
  approve_op :
      (key : ℕ) (decision : ApprovalStatus) (remark : Option Text) (source : Text) → Operation

unfoldable pub perform : Services → Operation → Action WorkflowOperationResult
unfolding get pause resume cancel execute approve
perform svc (Operation.get_op key) = get svc key
perform svc (Operation.pause_op key) = pause svc key
perform svc (Operation.resume_op key) = resume svc key
perform svc (Operation.cancel_op key) = cancel svc key
perform svc (Operation.execute_op key trace) = execute svc key trace
perform svc (Operation.approve_op key decision remark source) =
    approve svc key decision remark source

-- Whatever an operation answers or raises, the store has changed by accepted saves only.
pub perform-History :
    (svc : Services) (others : ByOthers svc) (op : Operation) (w : World)
    → History w.store (perform svc op w).1.store
unfolding perform
perform-History svc others (Operation.get_op key) w = (BySaves-get svc others key).at w
perform-History svc others (Operation.pause_op key) w = (BySaves-pause svc others key).at w
perform-History svc others (Operation.resume_op key) w = (BySaves-resume svc others key).at w
perform-History svc others (Operation.cancel_op key) w = (BySaves-cancel svc others key).at w
perform-History svc others (Operation.execute_op key trace) w =
    (BySaves-execute svc others key trace).at w
perform-History svc others (Operation.approve_op key decision remark source) w =
    (BySaves-approve svc others key decision remark source).at w

-- An operation, with any saves of other threads while it executes a plan, leaves every workflow of
-- the store in the store: with its identities, with no older checkpoint version, and with its
-- status where that was terminal.
pub perform-Continues :
    (svc : Services) (others : ByOthers svc) (op : Operation) (w : World) (k : ℕ)
    → Later Continues
        (find_workflow k w.store.workflows)
        (find_workflow k (perform svc op w).1.store.workflows)
perform-Continues svc others op w k = History-Continues k (perform-History svc others op w)
