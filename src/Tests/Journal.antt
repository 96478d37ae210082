-- ===== src/Tests/Journal.antt =====
-- src/storage/journal.py and src/dashboard_api/queries.py: a session's journal and what is read from it.
use hta.Common.{
  ◌≤◌, ◌≡◌, refl, Bool, false, none, some, map_some, List, [], ◌∷◌, String, length, All,
}
use hta.Decimal.{Decimal, whole, ratio, opposite, ◌⊕◌, ◌<?◌}
use hta.Dict.{get, put, string_key}
use hta.Storage.Payloads.{
  Json, null, text, number, decimal, shown, Payload, dump_value, insert_entry, dumps,
}
use hta.Storage.Journal.{Journal, new_journal, append, upsert_state, new_memory, state_key}
use hta.Storage.Journal.Refinement.{
  Write, event, latest, write, write_in_memory, Refines, write_new-Refines,
}
use hta.Dashboard.Tables.{pos, cap, take, latest_first, insert_event}
use hta.Dashboard.Equity.{
  bucket_seconds, bucket_of, point, equity_rows, first_of_buckets, reverse, equity_series,
}
use hta.Dashboard.Equity.Buckets.{IsLatest}
use hta.Dashboard.Equity.Series.{IsAscending, equity_series-IsSeries}
use hta.Dashboard.Stats.{
  Close, stats, read_closes, read_close, prepend, amount, float, fills_of, in_window, summary,
}
use hta.Dashboard.Stats.Balance.{IsBalanced, stats-IsBalanced}
use hta.Dashboard.Queries.{orderbook}
use hta.Dashboard.Queries.Readback.{or_else, orderbook-upsert_state}

abbrev tick : Decimal → Write
tick t = event t "equity_tick" (("equity", decimal t) ∷ [])

abbrev fill : Decimal → Json → Payload
fill t pnl =
    ("strategy", text "mean_reversion")
    ∷ ("opens_or_closes", text "close")
    ∷ ("pnl", pnl)
    ∷ ("fee", decimal (ratio 1 9))
    ∷ []

abbrev book : Payload
book = ("mid", decimal (whole 60500)) ∷ ("symbol", text "BTC") ∷ []

abbrev session : List Write
session =
    tick (whole 10)
    ∷ event (whole 20) "fill" (fill (whole 20) (decimal (whole 3)))
    ∷ tick (whole 50)
    ∷ latest (whole 55) "orderbook" "BTC" book
    ∷ tick (whole 70)
    ∷ event (whole 80) "fill" (fill (whole 80) (decimal (opposite (whole 1))))
    ∷ []

abbrev journal : Journal
unfolding write append upsert_state dumps insert_entry dump_value put
journal = write session new_journal

-- The keys of a payload are sorted, and a Decimal becomes the string of its value.
payload_written :
    dumps (("b", decimal (whole 1)) ∷ ("a", null) ∷ []) ≡ ("a", null) ∷ ("b", shown (whole 1)) ∷ []
unfolding dumps insert_entry dump_value
payload_written = refl

write_new-Refines_example : Refines (write session new_journal) (write_in_memory session new_memory)
write_new-Refines_example = write_new-Refines session

-- In buckets of a minute the tick at 50 stands for the first, and the tick at 10 is passed over.
minutes :
    equity_series "1m" none (some (pos 10)) journal.events
    ≡ record { ts = whole 50; equity = some (shown (whole 50)); realized = none; unrealized = none }
      ∷ record {
        ts = whole 70;
        equity = some (shown (whole 70));
        realized = none;
        unrealized = none;
      }
      ∷ []
unfolding journal equity_series bucket_seconds equity_rows first_of_buckets bucket_of point take
    latest_first insert_event cap reverse get ◌<?◌
minutes = refl

equity_series-IsSeries_example :
    (length (equity_series "1m" none (some (pos 10)) journal.events) ≤ cap (some (pos 10)))
    × IsAscending (bucket_seconds "1m") (equity_series "1m" none (some (pos 10)) journal.events)
    × All
        (IsLatest
          (bucket_seconds "1m")
          (equity_rows (bucket_seconds "1m") none (cap (some (pos 10))) journal.events))
        (equity_series "1m" none (some (pos 10)) journal.events)
equity_series-IsSeries_example = equity_series-IsSeries "1m" none (some (pos 10)) journal.events

abbrev closes : List Close
closes =
    record { pnl = whole 3; fee = ratio 1 9; strategy = "mean_reversion" }
    ∷ record { pnl = opposite (whole 1); fee = ratio 1 9; strategy = "mean_reversion" }
    ∷ []

fills_read : read_closes (fills_of (whole 100) "24h" journal.events) ≡ some closes
unfolding journal fills_of in_window read_closes read_close prepend amount float get ◌<?◌ ◌⊕◌
fills_read = refl

stats-IsBalanced_example :
    (cs : List Close) × (read_closes (fills_of (whole 100) "24h" journal.events) ≡ some cs)
    × IsBalanced cs (summary "24h" closes)
unfolding stats
stats-IsBalanced_example =
    stats-IsBalanced (whole 100) "24h" journal.events (summary "24h" closes) (rw fills_read refl)

abbrev nothing_like : String → String → Payload → Bool
nothing_like field value payload = false

abbrev later : List Write
later = tick (whole 70) ∷ latest (whole 80) "orderbook" "ETH" (("mid", null) ∷ []) ∷ []

orderbook-upsert_state_example :
    map_some
      (get "mid")
      (orderbook "BTC" (write later (upsert_state (whole 55) "orderbook" "BTC" book new_journal)))
    ≡ some (
        or_else
          (map_some dump_value (get {K = String} "mid" book))
          (get {K = String} "mid" (("key", null) ∷ ("ts", number (whole 55)) ∷ [])))
orderbook-upsert_state_example =
    orderbook-upsert_state (whole 55) "BTC" book new_journal later "mid" (tt, (refl, tt))
