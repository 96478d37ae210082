-- ===== src/Backtest/FundingLoader.antt =====
-- src/backtest/funding_data_loader.py: the history of funding rates and the candles around a tick, with the
-- cache of files. A datetime is its microseconds since 1970 in UTC; the rows of the exchange are well
-- formed, and their times are milliseconds.
pub mod Coverage
use hta.Common.{
  ℕ, zero, suc, ◌+◌, ◌-◌, ◌*◌, ◌/◌, String, Bool, true, false, ◌&&◌, Option, none, some, map_some,
  ◌>>=◌, List, [], ◌∷◌, ◌++◌, map, same, ltb, ◌==◌, if◌then◌else◌,
}
use hta.Decimal.{Decimal, nought}
use hta.Backtest.Frames.{sort_rows, drop_repeats}

abbrev pub minute : ℕ
minute = 60000000

-- FUNDING_WINDOW_DAYS
abbrev pub funding_window : ℕ
funding_window = 14 * 1440 * minute

-- `_ms`
abbrev pub ms : ℕ → ℕ
ms dt = dt / 1000

-- What the exchange lists of a funding tick.
pub record RawFunding : Type 0 where
  pub time : ℕ
  pub coin : String
  pub funding_rate : Decimal
  pub premium : Option Decimal

pub record FundingTick : Type 0 where
  pub tick_time : ℕ
  pub coin : String
  pub funding_rate : Decimal
  pub premium : Decimal

-- `_funding_raw_to_df`
abbrev pub funding_row : RawFunding → FundingTick
funding_row r = record {
  tick_time = r.time;
  coin = r.coin;
  funding_rate = r.funding_rate;
  premium = elim r.premium [ none ↦ nought | some p ↦ p ];
}

-- `subset=["tick_time", "coin"]`
abbrev pub same_tick : FundingTick → FundingTick → Bool
same_tick a b = (a.tick_time == b.tick_time) && same a.coin b.coin

-- A file of the cache, or a call, by the coin and the two times in its name.
pub record Span : Type 0 where
  pub coin : String
  pub start : ℕ
  pub stop : ℕ

abbrev pub same_span : Span → Span → Bool
same_span a b = same a.coin b.coin && (a.start == b.start) && (a.stop == b.stop)

module _ {A : Type 0} where
  -- `cache_path.exists()` and `pd.read_parquet(cache_path)`
  unfoldable pub read_file : Span → List (Span × List A) → Option (List A)
  read_file span [] = none
  read_file span ((s, df) ∷ files) = if same_span s span then some df else read_file span files

-- The files of the cache, and the calls of the run, each of which is followed by a sleep.
pub record Files (A : Type 0) : Type 0 where
  pub cache : List (Span × List A)
  pub calls : List Span

module _ {A : Type 0} where
  -- Read the file, or ask the exchange and write it.
  unfoldable pub load_span : (Span → List A) → Span → Files A → List A × Files A
  unfolding read_file
  load_span answer span files = elim (read_file span files.cache) [
    | some df ↦ (df, files)
    | none ↦ (
      answer span,
      record { cache = (span, answer span) ∷ files.cache; calls = files.calls ++ span ∷ [] },
    )
  ]

abbrev pub span_of : String → ℕ → ℕ → Span
span_of coin cursor window_end = record { coin = coin; start = ms cursor; stop = ms window_end }

-- `min(cursor + timedelta(days=FUNDING_WINDOW_DAYS), end)`
unfoldable pub window_end : ℕ → ℕ → ℕ
window_end cursor stop =
    if ltb stop (cursor + funding_window) then stop else cursor + funding_window

module _ (funding_history : Span → List RawFunding) where
  abbrev pub funding_frame : Span → List FundingTick
  funding_frame span = map funding_row (funding_history span)

  -- The loop `while cursor < end`: the frames in order, or none when the fuel is out.
  unfoldable pub fetch_windows :
      ℕ → String → ℕ → ℕ → Files FundingTick → Option (List FundingTick × Files FundingTick)
  unfolding load_span window_end
  fetch_windows zero coin cursor stop files = none
  fetch_windows (suc fuel) coin cursor stop files = elim (ltb cursor stop) [
    | false ↦ some ([], files)
    | true ↦
        let next = window_end cursor stop in
        let (df, files') = load_span funding_frame (span_of coin cursor next) files in
        map_some (λ (r : List FundingTick × Files FundingTick). (df ++ r.0, r.1))
          (fetch_windows fuel coin next stop files')
  ]

  -- `fetch_funding_history`
  unfoldable pub fetch_funding_history :
      String → ℕ → ℕ → Files FundingTick → Option (List FundingTick × Files FundingTick)
  unfolding fetch_windows sort_rows drop_repeats
  fetch_funding_history coin start stop files =
      map_some
        (λ (r : List FundingTick × Files FundingTick).
          (sort_rows (λ (t : FundingTick). t.tick_time) (drop_repeats same_tick [] r.0), r.1))
        (fetch_windows (suc (stop - start)) coin start stop files)

  unfoldable pub fetch_each :
      List String → ℕ → ℕ → Files FundingTick → Option (List FundingTick × Files FundingTick)
  unfolding fetch_funding_history
  fetch_each [] start stop files = some ([], files)
  fetch_each (coin ∷ coins) start stop files = fetch_funding_history coin start stop files >>= λ r.
      map_some (λ (q : List FundingTick × Files FundingTick). (r.0 ++ q.0, q.1))
        (fetch_each coins start stop r.1)

  -- `fetch_funding_history_for_coins`
  unfoldable pub fetch_funding_history_for_coins :
      List String → ℕ → ℕ → Files FundingTick → Option (List FundingTick × Files FundingTick)
  unfolding fetch_each sort_rows
  fetch_funding_history_for_coins coins start stop files =
      map_some
        (λ (r : List FundingTick × Files FundingTick).
          (sort_rows (λ (t : FundingTick). t.tick_time) r.0, r.1))
        (fetch_each coins start stop files)

pub record MinuteCandle : Type 0 where
  pub time : ℕ
  pub open_price : Decimal
  pub high : Decimal
  pub low : Decimal
  pub close : Decimal
  pub volume : Decimal

-- `fetch_candles_around`
unfoldable pub fetch_candles_around :
    (Span → List MinuteCandle)
    → String
    → ℕ
    → ℕ
    → Files MinuteCandle
    → List MinuteCandle × Files MinuteCandle
unfolding load_span
fetch_candles_around candles_snapshot coin tick_time window_minutes files =
    load_span candles_snapshot
      (span_of coin (tick_time - window_minutes * minute) (tick_time + window_minutes * minute))
      files
