-- ===== src/Backtest/FundingReport.antt =====
-- src/backtest/funding_report.py: the tables of the report, as the lines of the file. Drawing the charts
-- is left out; `groupby` has the coins in order.
use hta.Common.{
  ℕ, ◌+◌, ◌-◌, String, not, Option, none, some, List, [], ◌∷◌, ◌++◌, map, keep, length, same, ltb,
  if◌then◌else◌,
}
use hta.Decimal.{Decimal, whole, nought, ◌⊖◌, ◌⊗◌, ◌⊘◌, ◌<?◌}
use hta.Dict.{sorted_set, put, string_key}
use hta.Strings.{is_empty_text}
use hta.Formatted.{Text, lit, int, fixed, grouped, plain}
use hta.Dashboard.Tables.{take}
use hta.Backtest.FundingSim.{
  FundingSimConfig, Outcome, skipped, success, fill_failure, CaptureAttempt, FundingSimResult,
  FundingSimStats, is_skipped, is_success, is_failure, count_of, sum_of, aggregate,
}

abbrev pub bps : Decimal → Text
bps x = fixed 2 (x ⊗ whole 10000) ∷ lit " bps" ∷ []

abbrev pub money : Decimal → Text
money x = lit "$" ∷ grouped 2 x ∷ []

abbrev pub pct : Decimal → Text
pct x = fixed 2 (x ⊗ whole 100) ∷ lit "%" ∷ []

abbrev pub count : ℕ → Text
count n = int n ∷ []

-- `f"| {k} | {v} |"` for each row, below the head of the table.
abbrev pub row_line : String × Text → Text
row_line (k, v) = lit "| " ∷ lit k ∷ lit " | " ∷ v ++ lit " |" ∷ []

abbrev pub table : String → List (String × Text) → List Text
table head rows = plain head ∷ plain "| --- | --- |" ∷ map row_line rows

-- `_format_stats`
unfoldable pub format_stats : FundingSimStats → List Text
format_stats s =
    let pnl_pct =
      if nought <? s.initial_equity
      then (s.final_equity ⊖ s.initial_equity) ⊘ s.initial_equity
      else nought in
    table "| Metric | Value |" (
      ("Total ticks observed", count s.total_ticks)
      ∷ ("Skipped (below threshold)", count s.skipped)
      ∷ ("Attempted captures", count s.attempted)
      ∷ ("Succeeded (paired fill)", count s.succeeded)
      ∷ ("Failed (unhedged → unwound)", count s.failed)
      ∷ ("Win rate", if ltb 0 s.attempted then pct s.win_rate else plain "n/a")
      ∷ ("Funding received (gross)", money s.funding_received)
      ∷ ("Fees paid", money s.fees_paid)
      ∷ ("Slippage paid", money s.slippage_paid)
      ∷ ("Total P&L", money s.total_pnl)
      ∷ ("Initial equity", money s.initial_equity)
      ∷ ("Final equity", money s.final_equity)
      ∷ ("Equity return", pct pnl_pct)
      ∷ [])

-- `_format_config`
unfoldable pub format_config : FundingSimConfig → List Text
format_config c = table "| Parameter | Value |" (
    ("Funding threshold", pct c.funding_threshold)
    ∷ ("Pre-tick entry (s)", count c.pre_tick_seconds)
    ∷ ("Fill window (s)", count c.fill_window_seconds)
    ∷ ("Post-tick exit min (s)", count c.post_tick_min_seconds)
    ∷ ("Post-tick exit max (s)", count c.post_tick_max_seconds)
    ∷ ("Maker fee per side", bps c.maker_fee_per_side)
    ∷ ("Taker fee (unwind)", bps c.taker_fee)
    ∷ ("Slippage per leg", bps c.slippage_per_leg)
    ∷ ("Paired-fill probability", pct c.paired_fill_probability)
    ∷ ("Notional per leg", pct c.notional_per_leg_pct)
    ∷ ("Initial equity", money c.initial_equity)
    ∷ ("RNG seed", count c.rng_seed)
    ∷ [])

-- The line of a coin, over its attempts.
unfoldable pub coin_line : String → List CaptureAttempt → Text
unfolding sum_of count_of
coin_line coin attempts =
    lit "| "
      ∷ lit coin
      ∷ lit " | "
      ∷ int (count_of (λ o. not (is_skipped o)) attempts)
      ∷ lit " | "
      ∷ int (count_of is_success attempts)
      ∷ lit " | "
      ∷ int (count_of is_failure attempts)
      ∷ lit " | "
      ∷ money (sum_of (λ a. a.funding_pnl) attempts nought)
    ++ lit " | " ∷ money (sum_of (λ a. a.fees_paid) attempts nought)
    ++ lit " | " ∷ money (sum_of (λ a. a.slippage_paid) attempts nought)
    ++ lit " | " ∷ money (sum_of (λ a. a.net_pnl) attempts nought)
    ++ lit " |" ∷ []

abbrev pub coins_of : List CaptureAttempt → List String
unfolding sorted_set
coins_of attempts = sorted_set (map (λ (a : CaptureAttempt). a.coin) attempts)

-- `_format_per_coin`
unfoldable pub format_per_coin : List CaptureAttempt → List Text
unfolding coin_line
format_per_coin [] = plain "(no attempts)" ∷ []
format_per_coin (a ∷ rest) =
    plain "| Coin | Attempts | Won | Lost | Funding | Fees | Slippage | Net P&L |"
    ∷ plain "| --- | ---: | ---: | ---: | ---: | ---: | ---: | ---: |"
    ∷ map (λ coin. coin_line coin (keep (λ (b : CaptureAttempt). same b.coin coin) (a ∷ rest)))
        (coins_of (a ∷ rest))

abbrev pub outcome_name : Outcome → String
outcome_name skipped = "skipped"
outcome_name success = "success"
outcome_name fill_failure = "fill_failure"

-- The line of an attempt; `strftime` on its time is a parameter.
unfoldable pub attempt_line : (Decimal → String) → CaptureAttempt → Text
attempt_line strftime a =
    lit "| " ∷ lit (strftime a.tick_time) ∷ lit " | " ∷ lit a.coin ∷ lit " | " ∷ pct a.funding_rate
    ++ lit " | " ∷ money a.notional
    ++ lit " | "
      ∷ lit (outcome_name a.outcome)
      ∷ lit " | "
      ∷ int a.fills
      ∷ lit " | "
      ∷ money a.funding_pnl
    ++ lit " | " ∷ money a.fees_paid
    ++ lit " | " ∷ money a.slippage_paid
    ++ lit " | " ∷ money a.net_pnl
    ++ lit " | " ∷ a.note
    ++ lit " |" ∷ []

-- `len(df) + (len(df) > max_rows) * (max_rows - len(df))`, on the rows that are left.
abbrev pub noted_count : ℕ → ℕ → ℕ
noted_count max_rows n = n + (if ltb max_rows n then max_rows - n else 0)

abbrev pub truncation_note : ℕ → ℕ → Text
truncation_note max_rows n =
    lit "\n*Showing first "
    ∷ int max_rows
    ∷ lit " attempted captures of "
    ∷ int (noted_count max_rows n)
    ∷ lit " attempts.*"
    ∷ []

abbrev pub attempted_of : List CaptureAttempt → List CaptureAttempt
attempted_of = keep (λ a. not (is_skipped a.outcome))

-- The table of the attempted captures, of which there is one at least.
unfoldable pub attempted_table : (Decimal → String) → ℕ → List CaptureAttempt → List Text
unfolding attempt_line take
attempted_table strftime max_rows rows =
    let shown = take max_rows rows in
    plain
        "| Tick (UTC) | Coin | Funding | Notional | Outcome | Fills | Funding $ | Fees | Slippage | Net P&L | Note |"
      ∷ plain "| --- | --- | ---: | ---: | --- | ---: | ---: | ---: | ---: | ---: | --- |"
      ∷ map (attempt_line strftime) shown
    ++ (if ltb max_rows (length rows) then truncation_note max_rows (length shown) ∷ [] else [])

abbrev attempted_or_none : (Decimal → String) → ℕ → List CaptureAttempt → List Text
unfolding attempted_table
attempted_or_none strftime max_rows [] =
    plain "(no captures attempted — all ticks below threshold)" ∷ []
attempted_or_none strftime max_rows (a ∷ rest) = attempted_table strftime max_rows (a ∷ rest)

-- `_format_attempts_table`
unfoldable pub format_attempts_table : (Decimal → String) → ℕ → List CaptureAttempt → List Text
unfolding attempted_or_none
format_attempts_table strftime max_rows [] = plain "(no attempts)" ∷ []
format_attempts_table strftime max_rows (a ∷ rest) =
    attempted_or_none strftime max_rows (attempted_of (a ∷ rest))

-- The introduction and the chart, where they are given and not empty.
abbrev pub intro_lines : Option String → List Text
unfolding is_empty_text
intro_lines none = []
intro_lines (some intro) =
    if is_empty_text intro then [] else (lit "\n> " ∷ lit intro ∷ lit "\n" ∷ []) ∷ []

abbrev pub chart_lines : Option String → List Text
chart_lines none = []
chart_lines (some name) = (lit "\n![equity curve](" ∷ lit name ∷ lit ")\n" ∷ []) ∷ []

-- A detail of the run. `update` of the fresh details keeps `generated_at` first, also where it is given.
abbrev pub detail_line : String × String → Text
detail_line (k, v) = lit "- **" ∷ lit k ∷ lit "**: " ∷ lit v ∷ []

unfoldable fold_put : List (String × String) → List (String × String) → List (String × String)
unfolding put
fold_put details [] = details
fold_put details ((k, v) ∷ rest) = fold_put (put k v details) rest

abbrev pub details_of : String → List (String × String) → List (String × String)
unfolding fold_put
details_of now run_details = fold_put (("generated_at", now) ∷ []) run_details

-- `write_report`: the text of the file, line by line.
unfoldable pub report_lines :
    (Decimal → String)
    → String
    → String
    → Option String
    → Option String
    → List (String × String)
    → FundingSimResult
    → List Text
unfolding format_stats format_config format_per_coin format_attempts_table aggregate
report_lines strftime now title intro chart run_details result =
    (lit "# " ∷ lit title ∷ []) ∷ intro_lines intro
    ++ chart_lines chart
    ++ plain "## Summary\n" ∷ format_stats (aggregate result)
    ++ plain "\n## Configuration\n" ∷ format_config result.config
    ++ plain "\n## Per-coin breakdown\n" ∷ format_per_coin result.attempts
    ++ plain "\n## Capture attempts\n" ∷ format_attempts_table strftime 200 result.attempts
    ++ plain "\n## Run details\n" ∷ map detail_line (details_of now run_details)
