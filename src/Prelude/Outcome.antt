-- ===== src/Prelude/Outcome.antt =====
-- A Python call returns a value or raises. Each `raise` of the source is one constructor of `Error`.
use Prim.Native.Nat.{ℕ}
use mathlib.Core.List.{List}
use mathlib.Core.Path.{◌≡◌, refl}
use mathlib.Core.Logic.{◌⊎◌, inl, inr}
use mathlib.Core.Bool.{Bool, true, false}

-- The kinds of a PlannerOutputError.
pub data PlannerOutputErrorKind : Type 0 where
  malformed_json invalid_structure oversized : PlannerOutputErrorKind

pub data Error : Type 0 where
  -- ResearchTask
  capability_id_required description_out_of_bounds description_control_characters : Error
  priority_out_of_bounds max_attempts_out_of_bounds attempt_count_out_of_bounds : Error
  depends_on_itself naive_timestamp : Error
  invalid_task_transition retry_not_authorized max_attempts_exceeded : Error
  -- the task graph; `missing_key` is a KeyError, and `out_of_fuel` is no outcome of the program
  duplicate_task_id missing_dependency self_dependency graph_cycle missing_key out_of_fuel : Error
  -- ResearchPlan, ResearchExecutionBudget, ExecutionControl, OrchestrationState
  planner_version_required plan_without_tasks : Error
  budget_out_of_bounds too_many_tasks task_attempts_over_budget plan_too_deep : Error
  total_attempts_over_budget external_calls_over_budget : Error
  reason_out_of_bounds state_run_mismatch : Error
  -- TaskEvidenceRef, TaskExecutionResult, ResearchExecutionResult
  result_message_out_of_bounds output_summary_out_of_bounds error_code_out_of_bounds : Error
  retryable_success plan_attached_to_refusal executor_failure : Error
  -- the workflow aggregate; `workflow_transition` is the WorkflowTransitionError
  workflow_transition approval_already_decided terminal_approval : Error
  workflow_run_mismatch workflow_company_mismatch checkpoint_workflow_mismatch : Error
  checkpoint_version_mismatch checkpoint_version_out_of_bounds checkpoint_run_mismatch : Error
  checkpoint_message_out_of_bounds decision_not_decided decision_source_out_of_bounds : Error
  decision_source_control_characters approval_note_out_of_bounds : Error
  approval_note_control_characters approval_reason_out_of_bounds : Error
  approval_reason_control_characters raw_query_out_of_bounds : Error
  -- the WorkflowStoreErrors of the store, and WorkflowOperationResult
  store_run_mismatch store_request_mismatch store_company_mismatch store_plan_mismatch : Error
  checkpoint_version_regression checkpoint_version_not_newer : Error
  list_limit_out_of_bounds ok_without_workflow : Error
  -- ResearchMemoryRecord
  memory_capability_out_of_bounds memory_summary_out_of_bounds memory_company_mismatch : Error
  -- the PlannerOutputError with its message, and the failures of the planner that reads it
  planner_output : PlannerOutputErrorKind → List ℕ → Error
  planner_failure : List ℕ → Error
  -- a ValueError with its message, where the components do not tell errors apart by their kind
  value_error : List ℕ → Error

pub data Result {ℓ} (A : Type ℓ) : Type ℓ where
  err : Error → Result A
  ok : A → Result A

-- `x = m(); …`: what is raised is passed on.
module _ {ℓ κ} {A : Type ℓ} {B : Type κ} where
  infixl 5 ◌>>=◌
  abbrev pub ◌>>=◌ : Result A → (A → Result B) → Result B
  err raised >>= rest = err raised
  ok value >>= rest = rest value

-- `if test: raise e`
abbrev pub raise_if : Bool → Error → Result (Unit {0})
raise_if true e = err e
raise_if false e = ok tt

-- A statement whose value is not used, as `raise_if` is.
module _ {ℓ} {B : Type ℓ} where
  infixl 5 ◌>>◌
  abbrev pub ◌>>◌ : Result (Unit {0}) → Result B → Result B
  check >> rest = check >>= λ done. rest

pub >>=-eq-ok {ℓ κ} :
    {A : Type ℓ} {B : Type κ} (call : Result A) (rest : A → Result B) {final : B}
    → (call >>= rest) ≡ ok final
    → (value : A) × (call ≡ ok value) × (rest value ≡ ok final)
>>=-eq-ok (err raised) rest h = cc
>>=-eq-ok (ok value) rest h = (value, refl, h)

-- A call has returned or raised.
pub Result-cases {ℓ} :
    {A : Type ℓ} (call : Result A)
    → ((value : A) × (call ≡ ok value)) ⊎ ((raised : Error) × (call ≡ err raised))
Result-cases (err raised) = inr (raised, refl)
Result-cases (ok value) = inl (value, refl)

pub ok-inj {ℓ} : {A : Type ℓ} {a b : A} → Result.ok a ≡ Result.ok b → a ≡ b
ok-inj h = cc
