-- ===== src/Tests/Heartbeat.antt =====
-- src/main.py and src/execution/exchange_adapter.py: a position that is opened and closed, and ill-formed answers.
use hta.Common.{String, ◌≡◌, refl, true, false, none, some, List, [], ◌∷◌, map}
use hta.Decimal.{Decimal, whole}
use hta.Dict.{get, put, string_key}
use hta.Storage.Payloads.{shown, dumps, insert_entry, dump_value}
use hta.Storage.Journal.{new_journal, upsert_state, append, state_key}
use hta.Risk.KillSwitch.{returns, raises}
use hta.Execution.Tracker.{TrackedPosition, PositionTracker, empty_tracker, positions_of, junk}
use hta.Execution.Adapter.{
  statuses, dict_status, leg, nothing, an_int, submit_alo, is_alo_rejected, extract_oid, to_int,
  list_positions, read_positions,
}
use hta.Strings.{lower, contains_text}
use hta.Dashboard.Bus.{new_bus, publish, subscriber_count}
use hta.Dashboard.Tables.{states_of, insert_state, state_row_to_dict, spread, take}
use hta.Dashboard.Queries.{positions}
use hta.Live.Heartbeat.{
  Pulse, heartbeat, write_positions, position_payload, equity_payload, unrealized_of,
  add_unrealized,
}
use hta.Live.Heartbeat.Positions.{heartbeats, get-heartbeats}

abbrev long : TrackedPosition
long = record {
  symbol = "BTC";
  size = whole 2;
  entry_price = whole 100;
  mark_price = whole 110;
  liq_price = none;
}

abbrev holding : PositionTracker
holding = record empty_tracker { positions = ("BTC", long) ∷ [] }

abbrev pulse : Pulse
pulse = record {
  tracker = holding;
  halted = false;
  bus = new_bus 2 100 (whole 10);
  journal = new_journal;
}

abbrev opened : Pulse
unfolding heartbeat
opened = heartbeat (whole 5) (whole 5) pulse

abbrev closed_beats : List (Decimal × Decimal × PositionTracker)
closed_beats = (whole 10, whole 10, empty_tracker) ∷ (whole 15, whole 15, empty_tracker) ∷ []

get-heartbeats_example :
    get ("position", "BTC") (heartbeats closed_beats opened).journal.state
    ≡ get ("position", "BTC") opened.journal.state
unfolding positions_of
get-heartbeats_example = get-heartbeats "BTC" closed_beats opened (refl, (refl, tt))

-- The dashboard still shows the position, as of the time of the first heartbeat.
still_shown :
    map (get {K = String} "size") (positions (heartbeats closed_beats opened).journal)
    ≡ some (shown (whole 2)) ∷ []
unfolding opened heartbeats heartbeat write_positions position_payload equity_payload upsert_state
    append put get dumps insert_entry dump_value positions states_of insert_state take
    state_row_to_dict spread positions_of unrealized_of add_unrealized publish subscriber_count
still_shown = refl

-- A post-only order that would match is told from other errors, in any case of letters.
post_only :
    submit_alo
      (returns (
        statuses
          (dict_status (some "Order would immediately match (Post Only)") nothing nothing ∷ [])))
      "raw"
    ≡ returns
        (record { accepted = false; oid = none; error_code = some "alo_would_take"; raw = "raw" })
unfolding submit_alo is_alo_rejected lower contains_text
post_only = refl

resting_order :
    submit_alo (returns (statuses (dict_status none (leg (an_int 7)) nothing ∷ []))) "raw"
    ≡ returns (record { accepted = true; oid = some 7; error_code = none; raw = "raw" })
unfolding submit_alo is_alo_rejected lower contains_text extract_oid to_int
resting_order = refl

-- One ill-formed size, and no position is listed.
ill_formed_size :
    list_positions (returns (some (some "BTC", junk) ∷ some (some "ETH", junk) ∷ []))
    ≡ raises "InvalidOperation"
unfolding list_positions read_positions
ill_formed_size = refl
