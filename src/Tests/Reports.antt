-- ===== src/Tests/Reports.antt =====
-- src/backtest/report.py and src/backtest/funding_report.py: small reports.
use hta.Common.{ℕ, String, ◌+◌, List, map, ◌≡◌, refl, true, [], ◌∷◌, ◌++◌}
use hta.Decimal.{
  Decimal, whole, nought, ratio, opposite, ◌⊕◌, ◌⊗◌, ◌<?◌, ◌=?◌, inverse, lesser, greater,
}
use hta.Dict.{sorted_set, insert_sorted, string_key}
use hta.Formatted.{lit, int}
use hta.Dashboard.Tables.{take}
use hta.Backtest.FundingSim.{CaptureAttempt, success}
use hta.Backtest.FundingReport.{attempted_table, attempt_line, format_attempts_table}
use hta.Backtest.Simulator.{Trade, long, ExitReason, target, stop}
use hta.Backtest.Report.{
  TradeRow, SimulationResult, Group, drawdowns, drawdowns_from, max_drawdown_of, least, sum_of,
  group_of, breakdown, compute_metrics,
}
use hta.Backtest.Report.Totals.{AddsUp, compute_metrics-breakdown}
use hta.Tests.Simulator.{strategy, simulator}

abbrev attempt : CaptureAttempt
attempt = record {
  tick_time = nought;
  coin = "BTC";
  funding_rate = ratio 2 999;
  notional = whole 100;
  outcome = success;
  fills = 4;
  funding_pnl = whole 1;
  fees_paid = nought;
  slippage_paid = nought;
  net_pnl = whole 1;
  note = [];
}

-- Three captures, of which two are shown: the note says that there were two.
truncated :
    format_attempts_table (λ _. "now") 2 (attempt ∷ attempt ∷ attempt ∷ [])
    ≡ attempted_table (λ _. "now") 2 (attempt ∷ attempt ∷ [])
      ++ (lit "\n*Showing first "
          ∷ int 2
          ∷ lit " attempted captures of "
          ∷ int 2
          ∷ lit " attempts.*"
          ∷ [])
        ∷ []
unfolding format_attempts_table attempted_table attempt_line take
truncated = refl

-- From 200 down to 150 is a quarter of the peak.
quarter :
    (max_drawdown_of (whole 100 ∷ whole 200 ∷ whole 150 ∷ whole 180 ∷ []) =? opposite (ratio 1 3))
    ≡ true
unfolding max_drawdown_of drawdowns drawdowns_from least lesser greater ◌=?◌ ◌<?◌ ◌⊕◌ ◌⊗◌ inverse
quarter = refl

abbrev closed : ExitReason → ℕ → Decimal → Trade
closed reason n pnl = record {
  side = long;
  entry_time = n;
  exit_time = n + 1;
  entry_price = whole 100;
  exit_price = whole 101;
  size = whole 1;
  notional = whole 100;
  fees = ratio 1 99;
  slippage_cost = nought;
  pnl = pnl;
  exit_reason = reason;
  bars_held = 1;
}

abbrev trades : List TradeRow
trades =
    ("ETH", closed target 1 (whole 2))
    ∷ ("BTC", closed stop 2 (opposite (whole 3)))
    ∷ ("ETH", closed stop 3 (opposite (whole 1)))
    ∷ []

abbrev result : SimulationResult
result = record {
  trades = trades;
  equity_curve = whole 1000 ∷ whole 998 ∷ [];
  strategy_config = strategy;
  sim_config = simulator;
  skipped_signals = 0;
}

-- Two symbols, in order, with one and two trades.
by_symbol :
    map {B = String × ℕ × ℕ}
      (λ (g : Group). (g.name, g.trades, g.wins))
      (breakdown (λ r. r.0) trades)
    ≡ ("BTC", 1, 0) ∷ ("ETH", 2, 1) ∷ []
unfolding breakdown group_of sum_of sorted_set insert_sorted ◌<?◌
by_symbol = refl

compute_metrics-breakdown_example :
    AddsUp (breakdown (λ r. r.0) trades) (compute_metrics (λ _. nought) result) trades
compute_metrics-breakdown_example = compute_metrics-breakdown (λ _. nought) result (λ r. r.0)
