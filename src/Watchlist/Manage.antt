-- ===== src/Watchlist/Manage.antt =====
-- src/financial_intelligence/application/manage_watchlist.py: the operations on watchlists.
use agentic_equity_research.Prelude.{
  ℕ, ◌+◌, Bool, true, false, not, ◌&&◌, Option, none, some, List, [], ◌∷◌, ◌++◌, length, Error,
  Result, err, ◌>>=◌, if◌then◌else◌, value_error,
}
use agentic_equity_research.Text.{Text, text, is_empty}
use agentic_equity_research.Task.{Datetime}
use agentic_equity_research.Plan.{ResearchObjective}
use agentic_equity_research.Execution.{CompanyIdentity}
use agentic_equity_research.Planning.Create.{CompanyQuery, ResolutionResult, PlanService}
use agentic_equity_research.Workflow.World.{World}
use agentic_equity_research.Workflow.Manage.{Services, WorkflowOperationResult}
use agentic_equity_research.Workflow.Create.{CreateResearchWorkflowQuery, create_workflow}
use agentic_equity_research.Watchlist.{
  MonitoringPolicy, WatchlistEntry, Watchlist, read_capabilities, check_policy, exchange_code,
  check_entry, check_watchlist, save_watchlist, find_watchlist,
}

pub data WatchlistOperationStatus : Type 0 where
  ok invalid not_found conflict : WatchlistOperationStatus

pub record WatchlistEntryInput : Type 0 where
  pub q : Text
  pub exchange : Option Text

pub record CreateWatchlistQuery : Type 0 where
  pub name : Text
  pub entries : List WatchlistEntryInput
  pub capabilities : List Text
  pub interval_hours : ℕ

pub record WatchlistOperationResult : Type 0 where
  pub status : WatchlistOperationStatus
  pub message : Text
  pub watchlist : Option Watchlist
  pub workflows : List WorkflowOperationResult
  pub evaluated_at : Datetime

-- The event of an explicit check. Its metadata, an identifier and a number, are always within bounds.
pub record MonitoringCheck : Type 0 where
  pub created_at : Datetime
  pub watchlist_id : ℕ
  pub workflow_count : ℕ

-- The watchlists, what the creation of workflows reads and writes, and the events of the checks.
pub record Desk : Type 0 where
  pub lists : List Watchlist
  pub world : World
  pub checks : List MonitoringCheck

-- `resolve n` is the answer to the n-th entry of a call; `upper` and `repr` are Python's.
pub record WatchService : Type 0 where
  pub clock : Datetime
  pub fresh_id : ℕ
  pub upper : Text → Text
  pub repr : Text → Text
  pub resolve : ℕ → CompanyQuery → ResolutionResult
  pub has_notifications : Bool
  pub publish_fails : Bool

-- str(exc), for a ValueError
abbrev pub error_message : Error → Text
error_message (value_error s) = s
error_message _ = []

abbrev reply :
    WatchlistOperationStatus
    → Text
    → Option Watchlist
    → List WorkflowOperationResult
    → Datetime
    → WatchlistOperationResult
reply status message watchlist workflows now = record {
  status = status;
  message = message;
  watchlist = watchlist;
  workflows = workflows;
  evaluated_at = now;
}

-- `ExchangeCode(x) if x else None`
unfoldable pub optional_code : (Text → Text) → Option Text → Result (Option Text)
unfolding exchange_code
optional_code upper none = Result.ok none
optional_code upper (some raw) =
    if is_empty raw
    then Result.ok none
    else (do code ← exchange_code upper raw; Result.ok (some code))

module _ (svc : WatchService) where
  abbrev pub resolved_id : Text → Option CompanyIdentity → Result ℕ
  resolved_id q none = err (value_error (text "cannot resolve watchlist entry q=" ++ svc.repr q))
  resolved_id q (some company) = Result.ok company.company_id

  -- The body of the loop of `create` over `query.entries`.
  unfoldable pub make_entry : ℕ → WatchlistEntryInput → Result WatchlistEntry
  unfolding optional_code check_entry text
  make_entry n item = do
    exchange ← optional_code svc.upper item.exchange
    let resolution =
        svc.resolve n
          (record { raw_query = item.q; country = none; exchange = exchange; ticker = none })
    company_id ← resolved_id item.q resolution.company
    check_entry
        (record { company_id = company_id; raw_query = item.q; exchange = exchange; note = none })

  unfoldable pub make_entries : ℕ → List WatchlistEntryInput → Result (List WatchlistEntry)
  unfolding make_entry
  make_entries n [] = Result.ok []
  make_entries n (item ∷ items) = do
    entry ← make_entry n item
    entries ← make_entries (n + 1) items
    Result.ok (entry ∷ entries)

  -- The `try` of `create`.
  unfoldable pub make_watchlist : CreateWatchlistQuery → Result Watchlist
  unfolding read_capabilities check_policy make_entries check_watchlist
  make_watchlist query = do
    caps ← read_capabilities svc.repr query.capabilities
    policy ←
        check_policy
          (record { capabilities = caps; interval_hours = query.interval_hours; enabled = true })
    entries ← make_entries 0 query.entries
    check_watchlist (record {
      watchlist_id = svc.fresh_id;
      name = query.name;
      created_at = svc.clock;
      updated_at = svc.clock;
      entries = entries;
      policy = some policy;
    })

  abbrev pub save_made : Desk → Result Watchlist → WatchlistOperationResult × Desk
  save_made d (err e) =
      (reply WatchlistOperationStatus.invalid (error_message e) none [] svc.clock, d)
  save_made d (Result.ok l) = (
    reply WatchlistOperationStatus.ok (text "watchlist created") (some l) [] svc.clock,
    record d { lists = save_watchlist l d.lists },
  )

  -- ManageWatchlist.create
  unfoldable pub create_watchlist : CreateWatchlistQuery → Desk → WatchlistOperationResult × Desk
  unfolding make_watchlist save_watchlist text
  create_watchlist query d = save_made d (make_watchlist query)

  abbrev pub load_found : Option Watchlist → WatchlistOperationResult
  load_found none =
      reply WatchlistOperationStatus.not_found (text "watchlist not found") none [] svc.clock
  load_found (some l) =
      reply WatchlistOperationStatus.ok (text "watchlist loaded") (some l) [] svc.clock

  -- ManageWatchlist.get
  unfoldable pub get_watchlist : ℕ → Desk → WatchlistOperationResult
  unfolding find_watchlist text
  get_watchlist key d = load_found (find_watchlist key d.lists)

  -- `with suppress(Exception): self._notifications.publish(…)`
  unfoldable pub announce_check : Watchlist → ℕ → List MonitoringCheck → List MonitoringCheck
  announce_check l n checks =
      if svc.has_notifications && svc.clock.tz_aware && not svc.publish_fails
      then checks
        ++ record { created_at = svc.clock; watchlist_id = l.watchlist_id; workflow_count = n } ∷ []
      else checks

-- The query that `evaluate` makes for an entry.
abbrev pub entry_query : WatchlistEntry → CreateResearchWorkflowQuery
entry_query e = record {
  plan_query = record {
    company_query = record {
      raw_query = e.raw_query;
      country = none;
      exchange = e.exchange;
      ticker = none;
    };
    objective = ResearchObjective.market_analysis;
    objective_text = none;
    jurisdiction = none;
    time_horizon_days = none;
  };
  require_approval = false;
}

abbrev pub is_disabled : Option MonitoringPolicy → Bool
is_disabled none = true
is_disabled (some p) = not p.enabled

abbrev pub put_first :
    WorkflowOperationResult
    → Result (List WorkflowOperationResult) × World
    → Result (List WorkflowOperationResult) × World
put_first r (err e, w) = (err e, w)
put_first r (Result.ok rs, w) = (Result.ok (r ∷ rs), w)

abbrev pub put_result :
    Result WorkflowOperationResult
    → World
    → Result (List WorkflowOperationResult) × World
    → Result (List WorkflowOperationResult) × World
put_result (err e) w rest = (err e, w)
put_result (Result.ok r) w rest = put_first r rest

-- `calls n` and `plans n` are what the n-th creation of a workflow reads.
module _ (calls : ℕ → Services) (plans : ℕ → PlanService) where
  -- The loop of `evaluate` over the entries: an error ends it, and what was written stays.
  unfoldable pub create_each :
      ℕ → List WatchlistEntry → World → Result (List WorkflowOperationResult) × World
  unfolding create_workflow
  create_each n [] w = (Result.ok [], w)
  create_each n (e ∷ es) w =
      let (first, w') = create_workflow (calls n) (plans n) (entry_query e) none w in
      let rest = create_each (n + 1) es w' in put_result first w' rest

module _ (svc : WatchService) (calls : ℕ → Services) (plans : ℕ → PlanService) where
  abbrev pub finish_check :
      Watchlist
      → Desk
      → Result (List WorkflowOperationResult) × World
      → Result WatchlistOperationResult × Desk
  finish_check l d (err e, w) = (err e, record d { world = w })
  finish_check l d (Result.ok created, w) = (
    Result.ok (
        reply WatchlistOperationStatus.ok (text "monitoring check created workflows") (some l)
          created svc.clock),
    record d { world = w; checks = announce_check svc l (length created) d.checks },
  )

  abbrev pub evaluate_found : Option Watchlist → Desk → Result WatchlistOperationResult × Desk
  evaluate_found none d = (
    Result.ok
        (reply WatchlistOperationStatus.not_found (text "watchlist not found") none [] svc.clock),
    d,
  )
  evaluate_found (some l) d =
      if is_disabled l.policy
      then (
        Result.ok (
            reply WatchlistOperationStatus.conflict (text "monitoring policy disabled") (some l) []
              svc.clock),
        d,
      )
      else finish_check l d (create_each calls plans 0 l.entries d.world)

  -- ManageWatchlist.evaluate
  unfoldable pub evaluate : ℕ → Desk → Result WatchlistOperationResult × Desk
  unfolding find_watchlist create_each announce_check text
  evaluate key d = evaluate_found (find_watchlist key d.lists) d
