-- ===== src/Dashboard/Routes.antt =====
-- src/dashboard_api/routes.py and src/dashboard_api/main.py: the endpoints over the queries. The rate limit and
-- the parsing of a request are those of slowapi and FastAPI; the queries' parameters arrive as numbers and
-- strings.
use hta.Common.{
  ℕ, String, Bool, true, false, ◌⊎◌, inl, inr, Option, none, some, is_some, List, [], ◌∷◌, ltb,
  if◌then◌else◌,
}
use hta.Decimal.{Decimal}
use hta.Dict.{get, keys, sorted_set, string_key}
use hta.Formatted.{Text, lit, plain}
use hta.Storage.Payloads.{Payload}
use hta.Storage.Journal.{Journal}
use hta.Dashboard.Tables.{ℤ, pos, negsuc, max_rows}
use hta.Dashboard.Equity.{EquityPoint, equity_granularity_seconds, equity_series}
use hta.Dashboard.Stats.{Stats, rolling_windows_seconds, stats}
use hta.Dashboard.Queries.{
  Health, health, Snapshot, snapshot, positions, trades, signals, risk_events, orderbook, funding,
}
use hta.Dashboard.Auth.{require_token, validate_token_or_raise}
use hta.Dashboard.Bus.{Bus}
use hta.Dashboard.Socket.{Incoming, Step, Connection, close, handle_ws}

-- The status and detail of an HTTPException. A query that raises gives 500.
abbrev pub HttpError : Type 0
HttpError = ℕ × Text

-- `dependencies=[Depends(require_token)]` stands before every route.
unfoldable pub authorised :
    {A : Type 0} → Option String → Option String → HttpError ⊎ A → HttpError ⊎ A
unfolding require_token
authorised env header answer = elim (require_token env header) [
  | some detail ↦ inl (401, plain detail)
  | none ↦ answer
]

-- `Query(MAX_ROWS, le=MAX_ROWS)`: a larger limit is refused before the route runs.
abbrev pub too_large : ℤ → Bool
too_large (pos n) = ltb max_rows n
too_large (negsuc n) = false

abbrev pub within_limit : {A : Type 0} → ℤ → A → HttpError ⊎ A
within_limit limit answer =
    if too_large limit then inl (422, plain "limit must be at most 1000") else inr answer

abbrev pub or_server_error : {A : Type 0} → Option A → HttpError ⊎ A
or_server_error none = inl (500, plain "Internal Server Error")
or_server_error (some a) = inr a

abbrev names : List String → Text
names [] = []
names (x ∷ xs) = lit x ∷ names xs

module _ (like : String → String → Payload → Bool) (env header : Option String)
    (journal : Journal) where
  unfoldable pub health_route : Decimal → HttpError ⊎ Health
  unfolding authorised health
  health_route now = authorised env header (inr (health now journal))

  unfoldable pub snapshot_route : Decimal → HttpError ⊎ Snapshot
  unfolding authorised snapshot
  snapshot_route now = authorised env header (or_server_error (snapshot like now journal))

  unfoldable pub equity_route : String → Option Decimal → ℤ → HttpError ⊎ List EquityPoint
  unfolding authorised equity_series get sorted_set
  equity_route granularity since limit = authorised env header (
      if too_large limit
      then inl (422, plain "limit must be at most 1000")
      else if is_some (get granularity equity_granularity_seconds)
      then inr (equity_series granularity since (some limit) journal.events)
      else inl (
        400,
        lit "granularity must be one of " ∷ names (sorted_set (keys equity_granularity_seconds)),
      ))

  unfoldable pub positions_route : HttpError ⊎ List Payload
  unfolding authorised positions
  positions_route = authorised env header (inr (positions journal))

  unfoldable pub trades_route : Option String → Option String → ℤ → ℕ → HttpError ⊎ List Payload
  unfolding authorised trades
  trades_route strategy symbol limit offset =
      authorised env header
        (within_limit limit (trades like strategy symbol (some limit) offset journal.events))

  unfoldable pub signals_route : Option String → Option String → ℤ → HttpError ⊎ List Payload
  unfolding authorised signals
  signals_route strategy symbol limit =
      authorised env header
        (within_limit limit (signals like strategy symbol (some limit) journal.events))

  unfoldable pub risk_events_route : ℤ → HttpError ⊎ List Payload
  unfolding authorised risk_events
  risk_events_route limit =
      authorised env header (within_limit limit (risk_events (some limit) journal.events))

  unfoldable pub orderbook_route : String → HttpError ⊎ Payload
  unfolding authorised orderbook
  orderbook_route symbol = authorised env header (elim (orderbook symbol journal) [
    | none ↦ inl (404, lit "no orderbook for " ∷ lit symbol ∷ [])
    | some book ↦ inr book
  ])

  unfoldable pub funding_route : HttpError ⊎ List Payload
  unfolding authorised funding
  funding_route = authorised env header (inr (funding journal))

  unfoldable pub stats_route : Decimal → String → HttpError ⊎ Stats
  unfolding authorised stats get sorted_set
  stats_route now window = authorised env header (
      if is_some (get window rolling_windows_seconds)
      then or_server_error (stats now window journal.events)
      else inl
          (400, lit "window must be one of " ∷ names (sorted_set (keys rolling_windows_seconds))))

-- `ws_endpoint`: the token is checked before the connection is accepted.
unfoldable pub ws_endpoint :
    Option String → String → ℕ → Option Snapshot → Bus → Incoming → List Step → Connection
unfolding validate_token_or_raise handle_ws
ws_endpoint env token i shown bus first steps = elim (validate_token_or_raise env (some token)) [
  | some reason ↦ record { bus = bus; sent = close 1008 ∷ []; over = true }
  | none ↦ handle_ws i shown bus first steps
]
