-- ===== src/Backtest/Loader.antt =====
-- src/backtest/data_loader.py: `load_candles` with its cache of files. Times are milliseconds since 1970, of
-- 2020 or later; a number of days is no negative number. The answer of `candles_snapshot` during the
-- run is a parameter, and its rows are well formed.
pub mod Windows
pub mod Cached
use hta.Common.{
  ℕ, zero, suc, ◌+◌, ◌-◌, ◌*◌, ◌/◌, String, Bool, true, false, ◌&&◌, ◌⊎◌, inl, inr, Option, none,
  some, List, [], ◌∷◌, ◌++◌, keep, length, same, same_iff, ltb, leb, ◌==◌, if◌then◌else◌,
}
use hta.Decimal.{Decimal}
use hta.Dict.{Dict, get, put, string_key}
use hta.Storage.Journal.{state_key}
use hta.Backtest.Frames.{sort_rows, drop_repeats}

-- 2020-01-01T00:00:00Z
abbrev pub anchor_ms : ℕ
anchor_ms = 1577836800000

abbrev pub ms_per_day : ℕ
ms_per_day = 86400000

pub record Candle : Type 0 where
  pub t : ℕ
  pub open_price : Decimal
  pub high : Decimal
  pub low : Decimal
  pub close : Decimal
  pub volume : Decimal
  pub num_trades : ℕ

pub record ProgressEvent : Type 0 where
  pub coin : String
  pub chunk_index : ℕ
  pub chunk_count : ℕ
  pub chunk_start_ms : ℕ
  pub chunk_end_ms : ℕ
  pub cache_hit : Bool
  pub bars : ℕ

-- The windows from the chunk of index `i` on.
unfoldable pub windows_from : ℕ → ℕ → ℕ → List (ℕ × ℕ)
windows_from chunk_ms i zero = []
windows_from chunk_ms i (suc n) =
    (anchor_ms + i * chunk_ms, anchor_ms + i * chunk_ms + chunk_ms)
    ∷ windows_from chunk_ms (suc i) n

-- `_chunk_windows`
unfoldable pub chunk_windows : ℕ → ℕ → ℕ → List (ℕ × ℕ)
unfolding windows_from
chunk_windows start_ms end_ms chunk_ms =
    let first_idx = (start_ms - anchor_ms) / chunk_ms in
    let last_idx = (end_ms - anchor_ms - 1) / chunk_ms in
    if leb end_ms start_ms then [] else windows_from chunk_ms first_idx (suc last_idx - first_idx)

-- `_candles_to_df`
unfoldable pub candles_to_df : List Candle → List Candle
unfolding sort_rows
candles_to_df = sort_rows (λ c. c.t)

-- The name of a file of the cache shows these.
pub record CacheFile : Type 0 where
  pub coin : String
  pub interval : String
  pub start_ms : ℕ
  pub end_ms : ℕ

abbrev pub same_file : CacheFile → CacheFile → Bool
same_file a b =
    same a.coin b.coin
    && same a.interval b.interval
    && (a.start_ms == b.start_ms)
    && (a.end_ms == b.end_ms)

-- The files of the cache, the latest first, and what the run did.
pub record Loader : Type 0 where
  pub cache : List (CacheFile × List Candle)
  pub calls : List CacheFile
  pub progress : List ProgressEvent
  pub sleeps : ℕ

-- `cache_file.exists()` and `pd.read_parquet(cache_file)`
unfoldable pub read_cache : CacheFile → List (CacheFile × List Candle) → Option (List Candle)
read_cache file [] = none
read_cache file ((f, df) ∷ files) = if same_file f file then some df else read_cache file files

-- What a run is given beside the coins and the days.
pub record Run : Type 0 where
  pub candles_snapshot : CacheFile → List Candle
  pub interval : String
  pub chunk_days : ℕ
  pub limits_rate : Bool
  pub on_progress : Bool
  pub now_ms : ℕ

-- One turn of the loop over the windows.
unfoldable pub load_chunk : Run → String → ℕ → ℕ → ℕ × ℕ → Loader → List Candle × Loader
unfolding read_cache candles_to_df
load_chunk run coin idx count (cs, ce) l =
    let file : CacheFile = record {
      coin = coin;
      interval = run.interval;
      start_ms = cs;
      end_ms = ce;
    } in
    let event : Bool → List Candle → List ProgressEvent = λ hit df.
      if run.on_progress
      then record {
        coin = coin;
        chunk_index = idx;
        chunk_count = count;
        chunk_start_ms = cs;
        chunk_end_ms = ce;
        cache_hit = hit;
        bars = length df;
      }
        ∷ []
      else [] in
    elim (read_cache file l.cache) [
      | some df ↦ (df, record l { progress = l.progress ++ event true df })
      | none ↦
          let df = candles_to_df (run.candles_snapshot file) in
          (
            df,
            record l {
              cache = (file, df) ∷ l.cache;
              calls = l.calls ++ file ∷ [];
              progress = l.progress ++ event false df;
              sleeps = if run.limits_rate then suc l.sleeps else l.sleeps;
            },
          )
    ]

-- The loop: the frames one after the other, of which the empty ones do not matter.
unfoldable pub load_chunks : Run → String → ℕ → ℕ → List (ℕ × ℕ) → Loader → List Candle × Loader
unfolding load_chunk
load_chunks run coin idx count [] l = ([], l)
load_chunks run coin idx count (w ∷ ws) l =
    let (df, l') = load_chunk run coin idx count w l in
    let (rest, l'') = load_chunks run coin (suc idx) count ws l' in (df ++ rest, l'')

-- The rows of the result, in [start, now) and each time once.
unfoldable pub trimmed : ℕ → ℕ → List Candle → List Candle
unfolding sort_rows drop_repeats
trimmed start_ms now_ms rows =
    keep (λ c. leb start_ms c.t && ltb c.t now_ms)
      (sort_rows (λ c. c.t) (drop_repeats (λ a b. a.t == b.t) [] rows))

unfoldable pub load_coin : Run → ℕ → String → Loader → List Candle × Loader
unfolding load_chunks chunk_windows trimmed
load_coin run start_ms coin l =
    let windows = chunk_windows start_ms run.now_ms (run.chunk_days * ms_per_day) in
    let (rows, l') = load_chunks run coin 0 (length windows) windows l in
    (trimmed start_ms run.now_ms rows, l')

unfoldable pub load_coins :
    Run → ℕ → List String → Dict String (List Candle) → Loader → Dict String (List Candle) × Loader
unfolding load_coin put
load_coins run start_ms [] out l = (out, l)
load_coins run start_ms (coin ∷ coins) out l =
    let (df, l') = load_coin run start_ms coin l in
    load_coins run start_ms coins (put coin df out) l'

-- `load_candles`; the left answers are the texts of a ValueError.
unfoldable pub load_candles :
    Run → List String → ℕ → Loader → String ⊎ (Dict String (List Candle) × Loader)
unfolding load_coins
load_candles run coins days l =
    if ltb days 1
    then inl "days must be positive"
    else if ltb run.chunk_days 1
    then inl "chunk_days must be positive"
    else inr (load_coins run (run.now_ms - days * ms_per_day) coins [] l)
