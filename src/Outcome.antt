-- ===== src/Outcome.antt =====
-- src/financial_intelligence/domain/orchestration/results.py: what a capability returns for a task, and
-- the evidence that it points to.
use agentic_equity_research.Prelude.{
  ℕ, Bool, true, false, ◌&&◌, ◌||◌, Option, none, some, List, Result, ok, raise_if, ◌>>=◌, ◌>>◌,
  result_message_out_of_bounds, output_summary_out_of_bounds, error_code_out_of_bounds,
  retryable_success, naive_timestamp, [], ◌∷◌, map, if◌then◌else◌, ◌==◌, leb, ◌+◌,
}
use agentic_equity_research.Text.{Text, strip, is_empty, exceeds}
use agentic_equity_research.Task.{Datetime, is_naive}

pub data TaskResultStatus : Type 0 where
  success partial unavailable failed blocked : TaskResultStatus

pub data DataOrigin : Type 0 where
  live cached_live fixture unavailable : DataOrigin

pub record TaskEvidenceRef : Type 0 where
  pub company_id : ℕ
  pub source_id : Option Text
  pub authority_tier : Option ℕ
  pub data_origin : Option DataOrigin
  pub security_id : Option ℕ
  pub listing_id : Option ℕ
  pub as_of : Option Datetime
  pub retrieved_at : Option Datetime
  pub locator : Option Text

-- TaskEvidenceRef.__post_init__
unfoldable pub check_evidence : TaskEvidenceRef → Result TaskEvidenceRef
check_evidence ref = do
  raise_if (is_naive ref.as_of || is_naive ref.retrieved_at) naive_timestamp
  ok ref

pub record TaskExecutionResult : Type 0 where
  pub task_id : ℕ
  pub status : TaskResultStatus
  pub message : Text
  pub evidence_refs : List TaskEvidenceRef
  pub output_summary : Option Text
  pub retryable : Bool
  pub error_code : Option Text

-- `s.lower().replace(" ", "_")`, for the letters of ASCII.
abbrev code_letter : ℕ → ℕ
code_letter c = if c == 32 then 95 else if leb 65 c && leb c 90 then c + 32 else c

abbrev summary_or_none : Text → Option Text
summary_or_none [] = none
summary_or_none (c ∷ cs) = some (c ∷ cs)

unfoldable pub check_summary : Option Text → Result (Option Text)
check_summary none = ok none
check_summary (some raw) = do
  let summary = strip raw
  raise_if (exceeds summary 2000) output_summary_out_of_bounds
  ok (summary_or_none summary)

unfoldable pub check_error_code : Option Text → Result (Option Text)
check_error_code none = ok none
check_error_code (some raw) = do
  let code = map code_letter (strip raw)
  raise_if (is_empty code || exceeds code 64) error_code_out_of_bounds
  ok (some code)

abbrev pub is_success : TaskResultStatus → Bool
is_success TaskResultStatus.success = true
is_success TaskResultStatus.partial = true
is_success _ = false

-- TaskExecutionResult.__post_init__
unfoldable pub check_result : TaskExecutionResult → Result TaskExecutionResult
unfolding check_summary check_error_code
check_result r = do
  let message = strip r.message
  raise_if (is_empty message || exceeds message 1000) result_message_out_of_bounds
  output_summary ← check_summary r.output_summary
  error_code ← check_error_code r.error_code
  raise_if (is_success r.status && r.retryable) retryable_success
  ok (record r { message = message; output_summary = output_summary; error_code = error_code })
