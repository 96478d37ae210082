-- ===== src/Backtest/Report/Lines.antt =====
-- src/backtest/report.py: the report as the lines of its file. Drawing the chart is left out.
use hta.Common.{ℕ, ◌++◌, String, Option, none, some, List, [], ◌∷◌, map, if◌then◌else◌}
use hta.Decimal.{Decimal, whole, ◌⊗◌}
use hta.Strings.{is_empty_text}
use hta.Formatted.{Text, lit, int, dec, fixed, grouped, plain}
use hta.Backtest.Simulator.{StrategyConfig, SimulatorConfig}
use hta.Backtest.Report.{
  SimulationResult, Metrics, Group, compute_metrics, per_symbol, per_exit_reason,
}

abbrev money : Decimal → Text
money x = lit "$" ∷ grouped 2 x ∷ []

abbrev percent : ℕ → Decimal → Text
percent digits x = fixed digits (x ⊗ whole 100) ∷ lit "%" ∷ []

abbrev factor_text : Option Decimal → Text
factor_text none = plain "inf"
factor_text (some x) = fixed 2 x ∷ []

abbrev row_line : String × Text → Text
row_line (k, v) = lit "| " ∷ lit k ∷ lit " | " ∷ v ++ lit " |" ∷ []

unfoldable pub metric_lines : Metrics → List Text
metric_lines m = map row_line (
    ("Total trades", int m.total_trades ∷ [])
    ∷ ("Win rate", percent 2 m.win_rate)
    ∷ ("Profit factor", factor_text m.profit_factor)
    ∷ ("Avg trade P&L", money m.avg_trade_pnl)
    ∷ ("Sharpe (annualised)", fixed 2 m.sharpe ∷ [])
    ∷ ("Max drawdown", percent 2 m.max_drawdown)
    ∷ ("Total P&L", money m.total_pnl)
    ∷ ("Fees paid", money m.fees_paid)
    ∷ ("Slippage paid", money m.slippage_paid)
    ∷ ("Skipped signals (ALO no-fill)", int m.skipped_signals ∷ [])
    ∷ [])

unfoldable pub config_lines : StrategyConfig → SimulatorConfig → List Text
config_lines c sim = map row_line (
    ("Initial equity", money sim.initial_equity)
    ∷ ("z entry", dec c.z_entry ∷ [])
    ∷ ("z stop", dec c.z_stop ∷ [])
    ∷ ("z target", dec c.z_target ∷ [])
    ∷ ("Time stop (bars)", int c.time_stop_bars ∷ [])
    ∷ ("RSI window", int c.rsi_window ∷ [])
    ∷ ("RSI oversold/overbought", dec c.rsi_oversold ∷ lit " / " ∷ dec c.rsi_overbought ∷ [])
    ∷ ("SMA window", int c.sma_window ∷ [])
    ∷ ("Risk per trade", percent 2 c.risk_per_trade_pct)
    ∷ ("Max notional", percent 0 c.max_notional_pct ++ lit " of equity" ∷ [])
    ∷ ("Maker fee", percent 4 sim.maker_fee_rate ++ lit " per side" ∷ [])
    ∷ ("Slippage", dec sim.slippage_bps ∷ lit " bps per fill" ∷ [])
    ∷ ("ALO fill probability", percent 0 sim.fill_prob)
    ∷ ("RNG seed", int sim.seed ∷ [])
    ∷ [])

abbrev pub symbol_line : Group → Text
symbol_line g =
    lit "| "
      ∷ lit g.name
      ∷ lit " | "
      ∷ int g.trades
      ∷ lit " | "
      ∷ int g.wins
      ∷ lit " | "
      ∷ percent 2 g.win_rate
    ++ lit " | " ∷ money g.total_pnl
    ++ lit " | " ∷ money g.avg_pnl
    ++ lit " | " ∷ money g.fees
    ++ lit " |" ∷ []

abbrev pub reason_line : Group → Text
reason_line g =
    lit "| " ∷ lit g.name ∷ lit " | " ∷ int g.trades ∷ lit " | " ∷ money g.total_pnl
    ++ lit " | " ∷ money g.avg_pnl
    ++ lit " |" ∷ []

-- A breakdown below its head, or the line that stands for none.
abbrev group_lines : List Text → (Group → Text) → List Group → List Text
group_lines head line [] = plain "_no trades_" ∷ []
group_lines head line (g ∷ gs) = head ++ map line (g ∷ gs)

abbrev blank : Text
blank = plain ""

abbrev pub note_lines : Option String → List Text
unfolding is_empty_text
note_lines none = []
note_lines (some note) =
    if is_empty_text note then [] else (lit "> **Note**: " ∷ lit note ∷ []) ∷ blank ∷ []

abbrev pub extra_lines : List (String × String) → List Text
extra_lines [] = []
extra_lines (d ∷ ds) =
    plain "## Run details"
      ∷ blank
      ∷ map (λ ((k, v) : String × String). lit "- **" ∷ lit k ∷ lit "**: " ∷ lit v ∷ []) (d ∷ ds)
    ++ blank ∷ []

-- `write_report`: the text of the file, line by line.
unfoldable pub report_lines :
    (List Decimal → Decimal)
    → String
    → String
    → Option String
    → List (String × String)
    → SimulationResult
    → List Text
unfolding compute_metrics metric_lines config_lines per_symbol per_exit_reason
report_lines sharpe title chart_filename note extra result =
    (lit "# " ∷ lit title ∷ []) ∷ blank ∷ note_lines note
    ++ (lit "![equity curve](" ∷ lit chart_filename ∷ lit ")" ∷ [])
      ∷ blank
      ∷ plain "## Headline metrics"
      ∷ blank
      ∷ plain "| Metric | Value |"
      ∷ plain "| --- | --- |"
      ∷ metric_lines (compute_metrics sharpe result)
    ++ blank
      ∷ plain "## Configuration"
      ∷ blank
      ∷ plain "| Parameter | Value |"
      ∷ plain "| --- | --- |"
      ∷ config_lines result.strategy_config result.sim_config
    ++ blank
      ∷ plain "## Per-symbol breakdown"
      ∷ blank
      ∷ group_lines
          (plain "| Symbol | Trades | Wins | Win rate | Total P&L | Avg P&L | Fees |"
            ∷ plain "| --- | ---: | ---: | ---: | ---: | ---: | ---: |"
            ∷ [])
          symbol_line (per_symbol result.trades)
    ++ blank
      ∷ plain "## Exit reason breakdown"
      ∷ blank
      ∷ group_lines
          (plain "| Reason | Count | Total P&L | Avg P&L |"
            ∷ plain "| --- | ---: | ---: | ---: |"
            ∷ [])
          reason_line (per_exit_reason result.trades)
    ++ blank ∷ extra_lines extra
