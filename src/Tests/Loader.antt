-- ===== src/Tests/Loader.antt =====
-- src/backtest/data_loader.py and src/backtest/funding_data_loader.py: a day of candles, and an hour of rates.
use hta.Common.{
  ℕ, ◌+◌, ◌*◌, ◌≤◌, ◌<◌, ◌≡◌, refl, true, false, some, none, List, [], ◌∷◌, All, arith,
}
use hta.Decimal.{whole}
use hta.Backtest.Frames.{insert_row, sort_rows, drop_repeats}
use hta.Backtest.Loader.{
  anchor_ms, ms_per_day, Candle, CacheFile, Loader, read_cache, Run, windows_from, chunk_windows,
  candles_to_df, load_chunk, load_chunks, trimmed, load_coin,
}
use hta.Backtest.Loader.Windows.{IsChain, IsChunk, chunk_windows-IsChain}
use hta.Backtest.Loader.Cached.{rerun, rows_of, load_coin_again}
use hta.Backtest.FundingLoader.{
  Span, RawFunding, FundingTick, Files, funding_window, minute, fetch_windows,
  fetch_funding_history, window_end, load_span, read_file, same_tick,
}
use hta.Backtest.FundingLoader.Coverage.{load_each, fetch_funding_history_returns}

-- A request from the second to the fourth day of 2020 meets two chunks of two days.
two_chunks :
    chunk_windows (anchor_ms + ms_per_day) (anchor_ms + 3 * ms_per_day) (2 * ms_per_day)
    ≡ (anchor_ms, anchor_ms + 2 * ms_per_day)
      ∷ (anchor_ms + 2 * ms_per_day, anchor_ms + 4 * ms_per_day)
      ∷ []
unfolding chunk_windows windows_from
two_chunks = refl

chunk_windows-IsChain_example :
    All
      (IsChunk (2 * ms_per_day))
      (chunk_windows (anchor_ms + ms_per_day) (anchor_ms + 3 * ms_per_day) (2 * ms_per_day))
    × (lo : ℕ) × (hi : ℕ) × IsChain lo
        (chunk_windows (anchor_ms + ms_per_day) (anchor_ms + 3 * ms_per_day) (2 * ms_per_day))
        hi
    × (lo ≤ anchor_ms + ms_per_day)
    × (anchor_ms + ms_per_day < lo + 2 * ms_per_day)
    × (anchor_ms + 3 * ms_per_day ≤ hi)
    × (hi < anchor_ms + 3 * ms_per_day + 2 * ms_per_day)
chunk_windows-IsChain_example =
    chunk_windows-IsChain (anchor_ms + ms_per_day) (anchor_ms + 3 * ms_per_day) (2 * ms_per_day)
      (omega arith) (omega arith) (omega arith)

abbrev candle : ℕ → Candle
candle t = record {
  t = t;
  open_price = whole 1;
  high = whole 1;
  low = whole 1;
  close = whole 1;
  volume = whole 1;
  num_trades = 1;
}

abbrev noon : ℕ
noon = anchor_ms + 43200000

-- Chunks of a day; the exchange knows one candle, of the first hour.
abbrev first_run : Run
first_run = record {
  candles_snapshot = λ _. candle (anchor_ms + 3600000) ∷ [];
  interval = "5m";
  chunk_days = 1;
  limits_rate = true;
  on_progress = false;
  now_ms = noon;
}

abbrev empty_loader : Loader
empty_loader = record { cache = []; calls = []; progress = []; sleeps = 0 }

abbrev evening : CacheFile → List Candle
evening _ = candle (anchor_ms + 3600000) ∷ candle (noon + 3600000) ∷ []

-- In the evening the candle of the afternoon is there, and the run does not see it.
load_coin_again_example :
    let l' = (load_coin first_run anchor_ms "BTC" empty_loader).1 in
    ((load_coin (rerun first_run evening (noon + 7200000)) anchor_ms "BTC" l').0
      ≡ trimmed anchor_ms (noon + 7200000) (rows_of first_run anchor_ms "BTC" empty_loader))
    × ((load_coin (rerun first_run evening (noon + 7200000)) anchor_ms "BTC" l').1.calls ≡ l'.calls)
unfolding chunk_windows windows_from
load_coin_again_example =
    load_coin_again first_run "BTC" anchor_ms anchor_ms (noon + 7200000) evening empty_loader refl

afternoon_missing :
    (load_coin
      (rerun first_run evening (noon + 7200000))
      anchor_ms
      "BTC"
      (load_coin first_run anchor_ms "BTC" empty_loader).1).0
    ≡ candle (anchor_ms + 3600000) ∷ []
unfolding load_coin load_chunks load_chunk read_cache candles_to_df chunk_windows windows_from
    trimmed sort_rows insert_row drop_repeats
afternoon_missing = refl

abbrev rates : Span → List RawFunding
rates _ = record { time = 3600000; coin = "BTC"; funding_rate = whole 0; premium = none } ∷ []

abbrev no_files : Files FundingTick
no_files = record { cache = []; calls = [] }

-- Thirty days take three windows.
three_windows :
    fetch_windows rates 4 "BTC" 0 (2 * funding_window + minute) no_files
    ≡ some (
        load_each rates "BTC"
          ((0, funding_window)
            ∷ (funding_window, 2 * funding_window)
            ∷ (2 * funding_window, 2 * funding_window + minute)
            ∷ [])
          no_files)
unfolding fetch_windows load_each load_span read_file window_end
three_windows = refl

fetch_funding_history_returns_example :
    (ws : List (ℕ × ℕ)) × IsChain 0 ws (2 * funding_window + minute)
    × All (λ w. w.1 ≤ w.0 + funding_window) ws
    × (fetch_funding_history rates "BTC" 0 (2 * funding_window + minute) no_files
        ≡ some (
          sort_rows
              (λ (t : FundingTick). t.tick_time)
              (drop_repeats same_tick [] (load_each rates "BTC" ws no_files).0),
          (load_each rates "BTC" ws no_files).1,
        ))
fetch_funding_history_returns_example =
    fetch_funding_history_returns rates "BTC" 0 (2 * funding_window + minute) no_files (omega arith)
