-- ===== src/Lib.antt =====
-- Agentic equity research: the bounded, multi-step execution of research plans and the workflows
-- around it, from src/financial_intelligence.
--
-- A plan is a graph of tasks. `ExecuteResearchPlan` runs it in rounds: it propagates failures,
-- selects the next ready task, calls the executor for it, and records the result, all within a
-- budget. `ManageResearchWorkflow` wraps a plan into a workflow with a status, an approval and
-- checkpoints, keeps it in a store that other threads write to as well, and offers six operations
-- on it. `VerificationEngine` compares a claim with the evidence that was collected, gives a
-- verdict with a score, and says what to research next. `ManageWatchlist` keeps lists of
-- companies, and a check of one creates a workflow for each company on it.
--
-- The files and the code that they model, by its path under src/financial_intelligence:
--   Prelude.antt: lists, tests, `Result` with one error for each `raise`, and Python's `sorted`.
--   Text.antt: `strip`, `split` and `join`, as the constructors use them. A text is the list of
--     its code points.
--   Task.antt: domain/orchestration/tasks.py: `ResearchTask`, its checks, and `with_status`.
--   Graph.antt: domain/orchestration/graph.py: validation with cycle detection, topological
--     order, ready tasks and failure propagation. A dict of tasks is a list with one entry for
--     each key.
--   Budget.antt: domain/orchestration/budget.py.
--   Outcome, Evidence: results.py and evidence.py of domain/orchestration.
--   Retry.antt: retry.py and execution_control.py of domain/orchestration.
--   Plan.antt: plan.py and state.py of domain/orchestration.
--   Execution.antt: application/execute_research_plan.py: the steps of `execute_prepared`
--     (Execution), one round of its loop (Execution/Round), the whole of it (Execution/Run) and
--     `_to_result` (Execution/Status).
--   Workflow.antt: domain/workflow: status table, approval, checkpoint and aggregate; the
--     in-memory store (Workflow/Store); the research memory and the notifications
--     (Workflow/World).
--   Workflow/Manage.antt: application/manage_research_workflow.py: an operation is a function
--     from the stored world to a result or an error and the world after it, so what was written
--     before an error stays.
--   Planning.antt: domain/orchestration/planner_output.py (Planning), and
--     application/capability_registry.py with the building of the plan in
--     infrastructure/orchestration/llm_planner_adapter.py (Planning/Adapter).
--   Planning/Create.antt: domain/orchestration/request.py and planning.py with
--     application/create_research_plan.py.
--   Workflow/Create.antt: application/create_research_workflow.py and
--     application/approval_policy.py.
--   Watchlist.antt: domain/watchlist/model.py, infrastructure/watchlist/in_memory_store.py and
--     application/manage_watchlist.py (Watchlist/Manage).
--   Verification.antt: domain/verification: claims, evidence and results (Verification),
--     `EvidenceBundle.classify` (Verification/Match), the score (Verification/Score), and
--     `verify` and `assess_critic` (Verification/Engine).
--   Examples.antt: the inputs of the examples, what the program does on them, and the theorems
--     applied to them.
--
-- From outside come the clock, the capability executor, the company resolution, the control token
-- as each round reads it, the identifiers that are made, and what other threads do to the store
-- during an execution (`Environment`, `Services`, `PlanService`, `WatchService`). For the
-- verification, decimals, lower case and URLs are Python's (`Library`), and for the planner
-- `json.loads` is. They are parameters, and the hypotheses on them are two: `ByOthers`, that
-- other threads change the store by its own methods, and, for the bound of the score, `Ordered`,
-- that 0 is at most 0 and 1, and 1 at most 1.
--
-- Identifiers are the numbers of their UUIDs, whose texts have a fixed width, so that their order
-- and equality are those of the numbers. Times are an instant and whether a time zone is set.
--
-- Loops run on fuel. `kahn` and `emit` get one unit for each task, as a task is queued once at
-- most; `propagate_loop` gets one round more than there are tasks, as each round but the last
-- settles an open task; `depth_loop` gets one unit for each dependency that can be pushed.
-- `run_rounds` has no fuel of its own: `max_rounds` is the bound of the source.
--
-- Simplified: the resolution of a company answers and does not raise; `lower` of error codes is
-- that of ASCII; creation times are compared as instants, as their texts are in UTC; and an
-- identifier in a warning is one character that stands for its text.
--
-- Not modelled: the providers and their HTTP clients, the API, configuration, the language
-- models, reports and the renderings `to_dict`, which are input and output; the financial
-- calculations, the synthesis and the deterministic planner, which are parts of their own.
pub mod Prelude
pub mod Text
pub mod Task
pub mod Graph
pub mod Budget
pub mod Outcome
pub mod Retry
pub mod Plan
pub mod Evidence
pub mod Execution
pub mod Workflow
pub mod Planning
pub mod Watchlist
pub mod Verification
pub mod Examples
