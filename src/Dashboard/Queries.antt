-- ===== src/Dashboard/Queries.antt =====
-- src/dashboard_api/queries.py: the list queries of `Queries`, the health of the session and the snapshot.
-- `like field value payload` is SQLite's test `payload LIKE '%"field": "value"%'` on the text of a payload.
pub mod Pages
pub mod Readback
use hta.Common.{
  ℕ, String, Bool, true, false, not, ◌&&◌, Option, none, some, map_some, ◌>>=◌, List, [], ◌∷◌, map,
  any, keep, same, if◌then◌else◌,
}
use hta.Decimal.{Decimal, nought, ◌⊖◌, ◌=?◌, greater}
use hta.Dict.{get, put, string_key}
use hta.Storage.Payloads.{Json, null, number, text, Payload}
use hta.Storage.Journal.{Event, StateRow, state_key, Journal}
use hta.Dashboard.Tables.{
  ℤ, pos, cap, max_rows, take, drop, latest_first, of_types, states_of, spread, state_row_to_dict,
}
use hta.Dashboard.Equity.{EquityPoint, equity_series}
use hta.Dashboard.Stats.{Stats, stats}

abbrev pub risk_event_types : List String
risk_event_types =
    "halt" ∷ "resume" ∷ "order_blocked" ∷ "order_rejected_by_risk" ∷ "order_abandoned"
    ∷ "reconciler_tick" ∷ "ws_disconnected" ∷ "signal_suppressed" ∷ []

-- `if strategy:` adds the clause: an empty string is as none.
unfoldable pub like_clause :
    (String → String → Payload → Bool) → String → Option String → Event → Bool
like_clause like field none e = true
like_clause like field (some value) e = if same value "" then true else like field value e.payload

abbrev ts_of : Event → String × Json
ts_of e = ("ts", number e.ts_unix)

unfoldable pub trade_row : Event → Payload
unfolding spread
trade_row e = spread e.payload (ts_of e ∷ [])

unfoldable pub signal_row : Event → Payload
unfolding spread
signal_row e = spread e.payload (ts_of e ∷ ("event_type", text e.event_type) ∷ [])

unfoldable pub risk_row : Event → Payload
unfolding spread
risk_row e = spread e.payload (ts_of e ∷ ("kind", text e.event_type) ∷ [])

module _ (like : String → String → Payload → Bool) where
  -- The rows of the given types that both clauses let through.
  unfoldable pub matching : List String → Option String → Option String → List Event → List Event
  unfolding like_clause
  matching types strategy symbol events =
      keep (λ e. like_clause like "strategy" strategy e && like_clause like "symbol" symbol e)
        (of_types types events)

  -- `Queries.trades`
  unfoldable pub trades : Option String → Option String → Option ℤ → ℕ → List Event → List Payload
  unfolding matching latest_first take drop cap trade_row
  trades strategy symbol limit offset events = map trade_row (
      take (cap limit) (drop offset (latest_first (matching ("fill" ∷ []) strategy symbol events))))

  -- `Queries.signals`
  unfoldable pub signals : Option String → Option String → Option ℤ → List Event → List Payload
  unfolding matching latest_first take cap signal_row
  signals strategy symbol limit events = map signal_row (
      take (cap limit) (
        latest_first
          (matching ("signal" ∷ "funding_capture_decision" ∷ []) strategy symbol events)))

-- `Queries.risk_events`
unfoldable pub risk_events : Option ℤ → List Event → List Payload
unfolding latest_first take cap risk_row
risk_events limit events =
    map risk_row (take (cap limit) (latest_first (of_types risk_event_types events)))

-- `Queries.positions`, `Queries.funding` and `Queries.orderbook`
unfoldable pub positions : Journal → List Payload
unfolding states_of take state_row_to_dict
positions journal = map state_row_to_dict (take max_rows (states_of "position" journal.state))

unfoldable pub funding : Journal → List Payload
unfolding states_of state_row_to_dict
funding journal = map state_row_to_dict (states_of "funding" journal.state)

unfoldable pub orderbook : String → Journal → Option Payload
unfolding get state_row_to_dict
orderbook symbol journal =
    map_some (λ (row : StateRow). state_row_to_dict (record { key = none; row = row }))
      (get ("orderbook", symbol) journal.state)

-- `SELECT MAX(ts_unix)`, where none is NULL.
unfoldable pub max_ts : List Event → Option Decimal
max_ts [] = none
max_ts (e ∷ es) = elim (max_ts es) [ none ↦ some e.ts_unix | some t ↦ some (greater t e.ts_unix) ]

abbrev nonzero : Decimal → Option Decimal
nonzero t = if t =? nought then none else some t

-- `ORDER BY id DESC LIMIT 1`: the events are in the order of their ids.
unfoldable pub last_event : List Event → Option Event
last_event [] = none
last_event (e ∷ es) = elim (last_event es) [ none ↦ some e | some d ↦ some d ]

pub record Health : Type 0 where
  pub heartbeat : Payload
  pub last_tick_ts : Option Decimal
  pub session_started_at : Option Decimal
  pub uptime_seconds : Option Decimal
  pub mode : Json

abbrev beat_of : Option StateRow → Payload
unfolding put
beat_of none = ("ts", null) ∷ []
beat_of (some row) = put "ts" (number row.ts_unix) row.value

abbrev mode_of : Option Event → Json
unfolding get
mode_of none = text "unknown"
mode_of (some e) = elim (get "network" e.payload) [ none ↦ text "unknown" | some m ↦ m ]

-- `Queries.health`
unfoldable pub health : Decimal → Journal → Health
unfolding get put max_ts last_event
health now journal =
    let start = last_event (of_types ("live_start" ∷ []) journal.events) in
    let ticks =
      of_types ("signal" ∷ "equity_tick" ∷ "tick" ∷ "reconciler_tick" ∷ []) journal.events in
    record {
      heartbeat = beat_of (get ("heartbeat", "_") journal.state);
      last_tick_ts = max_ts ticks >>= nonzero;
      session_started_at = map_some (λ (e : Event). e.ts_unix) start;
      uptime_seconds = map_some (λ (e : Event). now ⊖ e.ts_unix) start;
      mode = mode_of start;
    }

pub record Snapshot : Type 0 where
  pub health : Health
  pub positions : List Payload
  pub equity : List EquityPoint
  pub signals : List Payload
  pub risk_events : List Payload
  pub funding : List Payload
  pub stats_24h : Stats

-- `Queries.snapshot`, where none is an exception of `stats`.
unfoldable pub snapshot : (String → String → Payload → Bool) → Decimal → Journal → Option Snapshot
unfolding health positions equity_series signals risk_events funding stats
snapshot like now journal = stats now "24h" journal.events >>= λ s. some (record {
  health = health now journal;
  positions = positions journal;
  equity = equity_series "5m" none (some (pos 288)) journal.events;
  signals = signals like none none (some (pos 50)) journal.events;
  risk_events = risk_events (some (pos 50)) journal.events;
  funding = funding journal;
  stats_24h = s;
})
