-- ===== src/Live/Heartbeat.antt =====
-- src/main.py: one turn of `_heartbeat_loop`, and `SimpleTickService`. The journal and the bus do not raise here.
pub mod Positions
use hta.Common.{
  ℕ, String, Bool, true, false, Option, none, some, map_some, List, [], ◌∷◌, if◌then◌else◌,
}
use hta.Decimal.{Decimal, nought, ratio, ◌⊕◌, ◌⊖◌, ◌⊗◌}
use hta.Dict.{Dict, string_key}
use hta.Formatted.{Text, Piece, lit, int, dec}
use hta.Storage.Payloads.{Json, null, boolean, number, text, shown, Payload}
use hta.Storage.Journal.{Journal, append, upsert_state}
use hta.Execution.Tracker.{TrackedPosition, PositionTracker, positions_of}
use hta.Dashboard.Bus.{Data, Bus, publish, subscriber_count}

-- `self._tracker`, the flag of the kill switch, and what the turn writes to.
pub record Pulse : Type 0 where
  pub tracker : PositionTracker
  pub halted : Bool
  pub bus : Bus
  pub journal : Journal

-- `sum(p.size * (p.mark_price - p.entry_price) for p in positions)`
unfoldable pub add_unrealized : Decimal → List TrackedPosition → Decimal
add_unrealized acc [] = acc
add_unrealized acc (p ∷ ps) = add_unrealized (acc ⊕ p.size ⊗ (p.mark_price ⊖ p.entry_price)) ps

unfoldable pub unrealized_of : List TrackedPosition → Decimal
unfolding add_unrealized
unrealized_of = add_unrealized nought

unfoldable pub equity_payload : Decimal → Decimal → Decimal → Payload
equity_payload time equity unrealized =
    ("ts", number time)
    ∷ ("equity", shown equity)
    ∷ ("realized", shown (equity ⊖ unrealized))
    ∷ ("unrealized", shown unrealized)
    ∷ []

-- The same dictionary as the data of a message.
abbrev equity_data : Decimal → Decimal → Decimal → Data
equity_data time equity unrealized = record {
  symbol = none;
  ts = some time;
  rest = dec equity ∷ dec (equity ⊖ unrealized) ∷ dec unrealized ∷ [];
}

abbrev heartbeat_data : Bool → ℕ → Data
heartbeat_data halted subs = record {
  symbol = none;
  ts = none;
  rest = lit (if halted then "true" else "false") ∷ int subs ∷ [];
}

abbrev shown_or_null : Option Decimal → Json
shown_or_null none = null
shown_or_null (some x) = shown x

unfoldable pub position_payload : TrackedPosition → Payload
position_payload p =
    ("symbol", text p.symbol)
    ∷ ("size", shown p.size)
    ∷ ("entry_price", shown p.entry_price)
    ∷ ("mark_price", shown p.mark_price)
    ∷ ("liq_price", shown_or_null p.liq_price)
    ∷ []

abbrev liq_pieces : Option Decimal → Text
liq_pieces none = []
liq_pieces (some x) = dec x ∷ []

abbrev position_data : TrackedPosition → Data
position_data p = record {
  symbol = some p.symbol;
  ts = none;
  rest = dec p.size ∷ dec p.entry_price ∷ dec p.mark_price ∷ liq_pieces p.liq_price;
}

-- The loop over the positions: one message and one row each.
unfoldable pub write_positions :
    Decimal → Decimal → List TrackedPosition → Bus → Journal → Bus × Journal
unfolding publish upsert_state position_payload
write_positions time now [] bus journal = (bus, journal)
write_positions time now (p ∷ ps) bus journal =
    write_positions time now ps (publish time now "position" (position_data p) bus)
      (upsert_state time "position" p.symbol (position_payload p) journal)

-- The body of the loop, at the time `time`, with the clock of the bus at `now`.
unfoldable pub heartbeat : Decimal → Decimal → Pulse → Pulse
unfolding positions_of unrealized_of equity_payload publish subscriber_count append upsert_state
    write_positions
heartbeat time now s =
    let positions = positions_of s.tracker in
    let equity = s.tracker.equity in
    let unrealized = unrealized_of positions in
    let bus = publish time now "equity" (equity_data time equity unrealized) s.bus in
    let bus' = publish time now "heartbeat" (heartbeat_data s.halted (subscriber_count bus)) bus in
    let journal = append time "equity_tick" (equity_payload time equity unrealized) s.journal in
    let journal' =
      upsert_state time "heartbeat" "_" (("ts", number time) ∷ ("halted", boolean s.halted) ∷ [])
        journal in
    let (bus'', journal'') = write_positions time now positions bus' journal' in
    record s { bus = bus''; journal = journal'' }

-- `SimpleTickService`, on the close of the latest bar of a symbol, where it has one.
abbrev pub default_tick : Decimal
default_tick = ratio 1 99

unfoldable pub best_bid : Option Decimal → Option Decimal
best_bid last_close = map_some (λ x. x ⊖ default_tick) last_close

unfoldable pub best_ask : Option Decimal → Option Decimal
best_ask last_close = map_some (λ x. x ⊕ default_tick) last_close
