-- ===== src/Watchlist/Runs.antt =====
-- What `ManageWatchlist.create` stores, and what `evaluate` then does with it.
use agentic_equity_research.Prelude.{
  ℕ, ◌++◌, ◌+◌, ◌≡◌, refl, ap, sym, true, false, ◌⊎◌, none, some, List, [], ◌∷◌, length, Result,
  err, ok, ok-inj,
}
use mathlib.Core.Path.{subst}
use agentic_equity_research.Text.{normalize}
use agentic_equity_research.Planning.Create.{PlanService}
use agentic_equity_research.Workflow.World.{World}
use agentic_equity_research.Workflow.Manage.{
  Services, WorkflowOperationStatus, WorkflowOperationResult,
}
use agentic_equity_research.Workflow.Create.{create_workflow}
use agentic_equity_research.Workflow.Creation.{Created, create_workflow-Created}
use agentic_equity_research.Watchlist.{WatchlistEntry, Watchlist, company_ids, same_id, has_repeats}
use agentic_equity_research.Watchlist.Manage.{
  WatchlistOperationStatus, WatchlistEntryInput, CreateWatchlistQuery, WatchlistOperationResult,
  Desk, WatchService, entry_query, create_each, put_first, put_result, is_disabled,
}

-- The entries are those of the query, in order, with their queries normalised.
abbrev pub Taken : List WatchlistEntryInput → List WatchlistEntry → Type 0
Taken [] [] = Unit
Taken (i ∷ is) (e ∷ es) = (e.raw_query ≡ normalize i.q) × Taken is es
Taken _ _ = ⊥

module _ (calls : ℕ → Services) (plans : ℕ → PlanService) where
  -- One creation, from the world `w` to `w'`: it fails and changes nothing, or stores a workflow.
  abbrev pub Ran : ℕ → WatchlistEntry → World → WorkflowOperationResult → World → Type 0
  Ran n e w r w' =
      ((r.workflow ≡ none) × (w' ≡ w))
      ⊎ ((r.status ≡ WorkflowOperationStatus.ok)
          × Created (entry_query e) ((calls n).fresh_id 0) w w' r)

  -- The creations, one for each entry, each in the world that the one before left.
  pub data Runs
      : ℕ → List WatchlistEntry → World → List WorkflowOperationResult → World → Type 0 where
    done : {n : ℕ} {w : World} → Runs n [] w [] w
    next :
        {n : ℕ} {e : WatchlistEntry} {es : List WatchlistEntry} {w w1 w2 : World}
        {r : WorkflowOperationResult} {rs : List WorkflowOperationResult}
        → Ran n e w r w1
        → Runs (n + 1) es w1 rs w2
        → Runs n (e ∷ es) w (r ∷ rs) w2

  put_first_parts :
      (r : WorkflowOperationResult) (rest : Result (List WorkflowOperationResult) × World)
      {rs : List WorkflowOperationResult} {w : World}
      → put_first r rest ≡ (Result.ok rs, w)
      → (rs1 : List WorkflowOperationResult) × (rest ≡ (Result.ok rs1, w)) × (rs ≡ r ∷ rs1)
  put_first_parts r (err e, w1) h = cc
  put_first_parts r (Result.ok rs1, w1) h = (rs1, cc, cc)

  first_parts :
      (first : Result WorkflowOperationResult) (w1 : World)
      (rest : Result (List WorkflowOperationResult) × World) {rs : List WorkflowOperationResult}
      {w : World}
      → put_result first w1 rest ≡ (Result.ok rs, w)
      → (r : WorkflowOperationResult) × (first ≡ ok r) × (put_first r rest ≡ (Result.ok rs, w))
  first_parts (err x) w1 rest h = cc
  first_parts (ok r) w1 rest h = (r, refl, h)

  pub create_each-Runs :
      (n : ℕ) (es : List WatchlistEntry) (w : World) {rs : List WorkflowOperationResult}
      {w' : World}
      → create_each calls plans n es w ≡ (Result.ok rs, w')
      → Runs n es w rs w'
  unfolding create_each
  create_each-Runs n [] w {rs} {w'} h =
      subst (λ x. Runs n [] w x w') (ok-inj (ap (λ p. p.0) h))
        (subst (λ x. Runs n [] w [] x) (ap (λ p. p.1) h) Runs.done)
  create_each-Runs n (e ∷ es) w {rs} {w'} h =
      let call = create_workflow (calls n) (plans n) (entry_query e) none w in
      let (r, ran, put) = first_parts call.0 call.1 (create_each calls plans (n + 1) es call.1) h in
      let (rs1, rest, all) = put_first_parts r (create_each calls plans (n + 1) es call.1) put in
      subst (λ x. Runs n (e ∷ es) w x w') (sym all)
        (Runs.next
          (create_workflow-Created (calls n) (plans n) (entry_query e) none w
            (ap (λ x. (x, call.1)) ran))
          (create_each-Runs (n + 1) es call.1 rest))

module _ (svc : WatchService) where
  record Made (query : CreateWatchlistQuery) (l : Watchlist) : Type 0 where
    own_key : l.watchlist_id ≡ svc.fresh_id
    taken : Taken query.entries l.entries
    distinct : has_repeats same_id (company_ids l.entries) ≡ false
    enabled : is_disabled l.policy ≡ false

-- What a check of the watchlist `list` did: its creations of workflows, and its event.
pub record Monitored (svc : WatchService) (calls : ℕ → Services) (plans : ℕ → PlanService)
    (list : Watchlist) (d : Desk) (r : WatchlistOperationResult) (d' : Desk) : Type 0 where
  pub answered_ok : r.status ≡ WatchlistOperationStatus.ok
  pub same_list : r.watchlist ≡ some list
  pub same_lists : d'.lists ≡ d.lists
  pub runs : Runs calls plans 0 list.entries d.world r.workflows d'.world
  pub announced :
      (d'.checks ≡ d.checks)
      ⊎ ((svc.has_notifications ≡ true)
          × (d'.checks
              ≡ d.checks
                ++ record {
                  created_at = svc.clock;
                  watchlist_id = list.watchlist_id;
                  workflow_count = length list.entries;
                }
                  ∷ []))
