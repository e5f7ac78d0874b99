-- ===== src/Examples/Watchlists.antt =====
-- A watchlist with one entry: its creation and its check.
use agentic_equity_research.Prelude.{
  ◌≡◌, refl, true, false, some, none, [], ◌∷◌, length, Result, ok, err,
}
use agentic_equity_research.Text.{text, is_space, lstrip, rstrip, strip, split_from, normalize}
use agentic_equity_research.Planning.Create.{ResolutionStatus, create_plan}
use agentic_equity_research.Workflow.{allowed_change}
use agentic_equity_research.Workflow.Store.{save_workflow}
use agentic_equity_research.Workflow.Create.{create_workflow}
use agentic_equity_research.Watchlist.{Watchlist}
use agentic_equity_research.Watchlist.Manage.{
  CreateWatchlistQuery, WatchlistOperationResult, Desk, WatchService, create_watchlist, evaluate,
}
use agentic_equity_research.Examples.Samples.{noon, word, company}
use agentic_equity_research.Examples.Workflows.{services}
use agentic_equity_research.Examples.Creations.{plans, empty}

abbrev watching : WatchService
watching = record {
  clock = noon;
  fresh_id = 70;
  upper = λ s. s;
  repr = λ s. s;
  resolve =
      λ n q. record { status = ResolutionStatus.resolved; company = some company; message = [] };
  has_notifications = true;
  publish_fails = false;
}

abbrev asked : CreateWatchlistQuery
asked = record {
  name = word;
  entries = record { q = word; exchange = none } ∷ [];
  capabilities = text "market" ∷ [];
  interval_hours = 24;
}

abbrev desk : Desk
desk = record { lists = []; world = empty; checks = [] }

abbrev made : WatchlistOperationResult × Desk
made = create_watchlist watching asked desk

abbrev checked : Result WatchlistOperationResult × Desk
checked = evaluate watching (λ n. services) (λ n. plans) 70 made.1

abbrev result_or :
    WatchlistOperationResult → Result WatchlistOperationResult → WatchlistOperationResult
result_or d (ok r) = r
result_or d (err e) = d

program : Unit {0}
unfolding create_watchlist evaluate create_plan create_workflow save_workflow allowed_change text
    is_space strip lstrip rstrip split_from normalize
program = tt

-- The check stored one workflow, and published one event.
checked_sizes : (length checked.1.world.store.workflows ≡ 1) × (length checked.1.checks ≡ 1)
unfolding program
checked_sizes = (refl, refl)
