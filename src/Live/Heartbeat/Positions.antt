-- ===== src/Live/Heartbeat/Positions.antt =====
-- src/main.py and src/dashboard_api/queries.py: which positions the dashboard shows after a heartbeat.
use hta.Common.{String, ◌≡◌, refl, ◌∙◌, false, List, [], ◌∷◌, any, All, arith, same}
use hta.Decimal.{Decimal}
use hta.Dict.{get, get-put_ne, string_key}
use hta.Storage.Payloads.{Payload, dumps}
use hta.Storage.Journal.{state_key, Journal, append, upsert_state}
use hta.Execution.Tracker.{TrackedPosition, PositionTracker, positions_of}
use hta.Dashboard.Bus.{Bus}
use hta.Live.Heartbeat.{Pulse, position_payload, write_positions, heartbeat}

-- No position of the tracker is in the symbol.
abbrev pub IsClosed : String → PositionTracker → Type 0
IsClosed symbol tracker = any (λ p. same p.symbol symbol) (positions_of tracker) ≡ false

get-upsert_state :
    (time : Decimal) (symbol key : String) (value : Payload) (journal : Journal)
    → same key symbol ≡ false
    → get ("position", symbol) (upsert_state time "position" key value journal).state
      ≡ get ("position", symbol) journal.state
unfolding upsert_state
get-upsert_state time symbol key value journal h =
    get-put_ne ("position", key) ("position", symbol)
      (record { value = dumps value; ts_unix = time }) journal.state h

get-write_positions :
    (time now : Decimal) (symbol : String) (ps : List TrackedPosition) (bus : Bus)
    (journal : Journal)
    → any (λ p. same p.symbol symbol) ps ≡ false
    → get ("position", symbol) (write_positions time now ps bus journal).1.state
      ≡ get ("position", symbol) journal.state
unfolding write_positions
get-write_positions time now symbol [] bus journal h = refl
get-write_positions time now symbol (p ∷ ps) bus journal h =
    get-write_positions time now symbol ps _
      (upsert_state time "position" p.symbol (position_payload p) journal) (ground (arith, h))
    ∙ get-upsert_state time symbol p.symbol (position_payload p) journal (ground (arith, h))

get-heartbeat :
    (time now : Decimal) (symbol : String) (s : Pulse)
    → IsClosed symbol s.tracker
    → get ("position", symbol) (heartbeat time now s).journal.state
      ≡ get ("position", symbol) s.journal.state
unfolding heartbeat append upsert_state
get-heartbeat time now symbol s h =
    get-write_positions time now symbol (positions_of s.tracker) _ _ h
    ∙ get-put_ne ("heartbeat", "_") ("position", symbol) _ s.journal.state refl

-- Heartbeats in a row, each after the tracker has changed to the one given.
unfoldable pub heartbeats : List (Decimal × Decimal × PositionTracker) → Pulse → Pulse
unfolding heartbeat
heartbeats [] s = s
heartbeats ((time, now, tracker) ∷ beats) s =
    heartbeats beats (heartbeat time now (record s { tracker = tracker }))

-- Once a position is closed its row in the journal stays as it was, however many heartbeats follow, so the
-- dashboard goes on to show it.
pub get-heartbeats :
    (symbol : String) (beats : List (Decimal × Decimal × PositionTracker)) (s : Pulse)
    → All (λ b. IsClosed symbol b.2) beats
    → get ("position", symbol) (heartbeats beats s).journal.state
      ≡ get ("position", symbol) s.journal.state
unfolding heartbeats
get-heartbeats symbol [] s h = refl
get-heartbeats symbol ((time, now, tracker) ∷ beats) s h =
    get-heartbeats symbol beats (heartbeat time now (record s { tracker = tracker })) h.1
    ∙ get-heartbeat time now symbol (record s { tracker = tracker }) h.0
