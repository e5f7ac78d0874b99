-- ===== src/Watchlist.antt =====
-- Watchlists: domain/watchlist/model.py, `ExchangeCode` of domain/identity/codes.py, and
-- infrastructure/watchlist/in_memory_store.py, below src/financial_intelligence.
-- `create`, `get` and `evaluate` are in Watchlist/Manage.
pub mod Manage
pub mod Runs
use agentic_equity_research.Prelude.{
  ℕ, Bool, true, false, not, ◌&&◌, ◌||◌, Option, none, some, List, [], ◌∷◌, ◌++◌, map, ltb, leb,
  ◌==◌, length, any, all, Result, err, ok, raise_if, ◌>>=◌, ◌>>◌, if◌then◌else◌, value_error,
}
use agentic_equity_research.Text.{
  Text, text, fail_if, strip, normalize, is_empty, exceeds, has_control, same_text,
}
use agentic_equity_research.Task.{Datetime}

pub data MonitoringCapability : Type 0 where
  market financial news regulatory : MonitoringCapability

unfoldable pub same_capability : MonitoringCapability → MonitoringCapability → Bool
same_capability MonitoringCapability.market MonitoringCapability.market = true
same_capability MonitoringCapability.financial MonitoringCapability.financial = true
same_capability MonitoringCapability.news MonitoringCapability.news = true
same_capability MonitoringCapability.regulatory MonitoringCapability.regulatory = true
same_capability _ _ = false

-- MonitoringCapability(raw), where `repr` is Python's
unfoldable pub read_capability : (Text → Text) → Text → Result MonitoringCapability
unfolding same_text text
read_capability repr raw =
    if same_text raw (text "market")
    then ok MonitoringCapability.market
    else if same_text raw (text "financial")
    then ok MonitoringCapability.financial
    else if same_text raw (text "news")
    then ok MonitoringCapability.news
    else if same_text raw (text "regulatory")
    then ok MonitoringCapability.regulatory
    else err (value_error (repr raw ++ text " is not a valid MonitoringCapability"))

-- `tuple(MonitoringCapability(c) for c in raws)`
unfoldable pub read_capabilities : (Text → Text) → List Text → Result (List MonitoringCapability)
unfolding read_capability
read_capabilities repr [] = ok []
read_capabilities repr (raw ∷ raws) = do
  c ← read_capability repr raw
  cs ← read_capabilities repr raws
  ok (c ∷ cs)

-- len(xs) != len(set(xs))
module _ {A : Type 0} (same : A → A → Bool) where
  unfoldable pub has_repeats : List A → Bool
  has_repeats [] = false
  has_repeats (x ∷ xs) = any (same x) xs || has_repeats xs

-- The hours are a natural number: the source rejects a negative one, as it does 0.
pub record MonitoringPolicy : Type 0 where
  pub capabilities : List MonitoringCapability
  pub interval_hours : ℕ
  pub enabled : Bool

abbrev is_nil : List MonitoringCapability → Bool
is_nil [] = true
is_nil (c ∷ cs) = false

-- MonitoringPolicy.__post_init__
unfoldable pub check_policy : MonitoringPolicy → Result MonitoringPolicy
unfolding has_repeats same_capability
check_policy p = do
  fail_if (is_nil p.capabilities) "monitoring policy requires at least one capability"
  fail_if (has_repeats same_capability p.capabilities) "monitoring capabilities must be unique"
  fail_if (ltb p.interval_hours 1 || ltb 720 p.interval_hours) "interval_hours out of bounds"
  ok p

-- [A-Z0-9._-]
abbrev pub is_exchange_char : ℕ → Bool
is_exchange_char c =
    (leb 65 c && leb c 90) || (leb 48 c && leb c 57) || c == 46 || c == 95 || c == 45

-- ExchangeCode(raw).value, where `upper` is `str.upper`; the code of the market is not kept
unfoldable pub exchange_code : (Text → Text) → Text → Result Text
unfolding strip
exchange_code upper raw = do
  let normalized = upper (strip raw)
  fail_if (has_control normalized) "exchange code contains control characters"
  fail_if (is_empty normalized || exceeds normalized 32 || not (all is_exchange_char normalized))
      "exchange code is invalid or exceeds length bounds"
  ok normalized

pub record WatchlistEntry : Type 0 where
  pub company_id : ℕ
  pub raw_query : Text
  pub exchange : Option Text
  pub note : Option Text

-- note or None
abbrev none_if_empty : Text → Option Text
none_if_empty [] = none
none_if_empty (c ∷ cs) = some (c ∷ cs)

unfoldable pub check_entry_note : Option Text → Result (Option Text)
unfolding normalize
check_entry_note none = ok none
check_entry_note (some raw) = do
  let note = normalize raw
  fail_if (exceeds note 256) "watchlist entry note exceeds bounds"
  fail_if (has_control note) "watchlist entry note must not contain control characters"
  ok (none_if_empty note)

-- WatchlistEntry.__post_init__
unfoldable pub check_entry : WatchlistEntry → Result WatchlistEntry
unfolding check_entry_note normalize
check_entry e = do
  let query = normalize e.raw_query
  fail_if (is_empty query || exceeds query 200) "watchlist entry raw_query empty or exceeds bounds"
  note ← check_entry_note e.note
  ok (record e { raw_query = query; note = note })

pub record Watchlist : Type 0 where
  pub watchlist_id : ℕ
  pub name : Text
  pub created_at : Datetime
  pub updated_at : Datetime
  pub entries : List WatchlistEntry
  pub policy : Option MonitoringPolicy

abbrev pub company_ids : List WatchlistEntry → List ℕ
company_ids entries = map (λ e. e.company_id) entries

abbrev pub same_id : ℕ → ℕ → Bool
same_id a b = a == b

-- Watchlist.__post_init__
unfoldable pub check_watchlist : Watchlist → Result Watchlist
unfolding normalize has_repeats
check_watchlist l = do
  fail_if (not l.created_at.tz_aware || not l.updated_at.tz_aware)
      "watchlist timestamps must be timezone-aware"
  fail_if (has_control l.name) "watchlist name must not contain control characters"
  let name = normalize l.name
  fail_if (is_empty name || exceeds name 128) "watchlist name empty or exceeds bounds"
  fail_if (has_repeats same_id (company_ids l.entries)) "duplicate company on watchlist"
  ok (record l { name = name })

-- Watchlist.with_entries
unfoldable pub with_entries : Watchlist → List WatchlistEntry → Datetime → Result Watchlist
unfolding check_watchlist
with_entries l entries now = check_watchlist (record l { entries = entries; updated_at = now })

-- InMemoryWatchlistStore.save: self._items[key] = watchlist
unfoldable pub save_watchlist : Watchlist → List Watchlist → List Watchlist
save_watchlist l [] = l ∷ []
save_watchlist l (m ∷ ms) = elim (m.watchlist_id == l.watchlist_id) [
  | true ↦ l ∷ ms
  | false ↦ m ∷ save_watchlist l ms
]

-- InMemoryWatchlistStore.get
unfoldable pub find_watchlist : ℕ → List Watchlist → Option Watchlist
find_watchlist key [] = none
find_watchlist key (l ∷ ls) = if l.watchlist_id == key then some l else find_watchlist key ls
