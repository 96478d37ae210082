-- ===== src/Backtest/Report.antt =====
-- src/backtest/report.py: the metrics and the breakdowns. The
-- Sharpe ratio, of numpy's square root and pandas' deviation, is a parameter. `groupby` has the groups in
-- order.
pub mod Drawdown
pub mod Totals
pub mod Lines
use hta.Common.{
  ℕ, suc, ◌+◌, String, Bool, true, false, Option, none, some, List, [], ◌∷◌, ◌++◌, map, keep,
  length, same, ltb, ◌==◌, if◌then◌else◌,
}
use hta.Decimal.{
  Decimal, whole, nought, opposite, ◌⊕◌, ◌⊖◌, ◌⊗◌, ◌⊘◌, ◌<?◌, magnitude, lesser, greater,
}
use hta.Dict.{sorted_set, string_key}
use hta.Strings.{is_empty_text}
use hta.Formatted.{Text, Piece, lit, int, dec, fixed, grouped, plain}
use hta.Backtest.Simulator.{
  StrategyConfig, SimulatorConfig, Trade, ExitReason, target, stop, time_stop,
}

-- A row of the frame of trades: the symbol, and the rest.
abbrev pub TradeRow : Type 0
TradeRow = String × Trade

pub record SimulationResult : Type 0 where
  pub trades : List TradeRow
  pub equity_curve : List Decimal
  pub strategy_config : StrategyConfig
  pub sim_config : SimulatorConfig
  pub skipped_signals : ℕ

pub record Metrics : Type 0 where
  pub total_trades : ℕ
  pub win_rate : Decimal
  pub profit_factor : Option Decimal  -- none is infinity
  pub avg_trade_pnl : Decimal
  pub sharpe : Decimal
  pub max_drawdown : Decimal
  pub total_pnl : Decimal
  pub fees_paid : Decimal
  pub slippage_paid : Decimal
  pub skipped_signals : ℕ

-- `.sum()`
unfoldable pub sum_of : List Decimal → Decimal
sum_of [] = nought
sum_of (x ∷ xs) = x ⊕ sum_of xs

abbrev pub pnl_of : List TradeRow → List Decimal
pnl_of = map (λ (r : TradeRow). r.1.pnl)

-- `(equity - equity.cummax()) / equity.cummax()`, from a running peak on.
unfoldable pub drawdowns_from : Decimal → List Decimal → List Decimal
drawdowns_from peak [] = []
drawdowns_from peak (e ∷ es) =
    let peak' = greater peak e in (e ⊖ peak') ⊘ peak' ∷ drawdowns_from peak' es

unfoldable pub drawdowns : List Decimal → List Decimal
unfolding drawdowns_from
drawdowns [] = []
drawdowns (e ∷ es) = drawdowns_from e (e ∷ es)

-- `.min()` of a series that is not empty.
unfoldable pub least : Decimal → List Decimal → Decimal
least acc [] = acc
least acc (x ∷ xs) = least (lesser acc x) xs

unfoldable pub max_drawdown_of : List Decimal → Decimal
unfolding least drawdowns
max_drawdown_of equity = elim (drawdowns equity) [ [] ↦ nought | d ∷ ds ↦ least d ds ]

abbrev profit_factor_of : Decimal → Decimal → Option Decimal
profit_factor_of gross_profit gross_loss =
    if nought <? gross_loss then some (gross_profit ⊘ gross_loss) else none

abbrev sharpe_or_nought : (List Decimal → Decimal) → List Decimal → Decimal
sharpe_or_nought sharpe [] = nought
sharpe_or_nought sharpe (e ∷ es) = sharpe (e ∷ es)

abbrev pub no_metrics : ℕ → Metrics
no_metrics skipped = record {
  total_trades = 0;
  win_rate = nought;
  profit_factor = some nought;
  avg_trade_pnl = nought;
  sharpe = nought;
  max_drawdown = nought;
  total_pnl = nought;
  fees_paid = nought;
  slippage_paid = nought;
  skipped_signals = skipped;
}

-- `_compute_metrics`
unfoldable pub compute_metrics : (List Decimal → Decimal) → SimulationResult → Metrics
unfolding sum_of max_drawdown_of
compute_metrics sharpe result =
    let pnls = pnl_of result.trades in
    let n = length result.trades in
    let wins = keep (λ x. nought <? x) pnls in
    let losses = keep (λ x. x <? nought) pnls in
    if n == 0 then no_metrics result.skipped_signals else record {
      total_trades = n;
      win_rate = whole (length wins) ⊘ whole n;
      profit_factor = profit_factor_of (sum_of wins) (opposite (sum_of losses));
      avg_trade_pnl = sum_of pnls ⊘ whole n;
      sharpe = sharpe_or_nought sharpe result.equity_curve;
      max_drawdown = max_drawdown_of result.equity_curve;
      total_pnl = sum_of pnls;
      fees_paid = sum_of (map (λ (r : TradeRow). r.1.fees) result.trades);
      slippage_paid = sum_of (map (λ (r : TradeRow). magnitude r.1.slippage_cost) result.trades);
      skipped_signals = result.skipped_signals;
    }

-- A row of a breakdown.
pub record Group : Type 0 where
  pub name : String
  pub trades : ℕ
  pub wins : ℕ
  pub win_rate : Decimal
  pub total_pnl : Decimal
  pub avg_pnl : Decimal
  pub fees : Decimal

-- `agg` on the rows of a group.
unfoldable pub group_of : String → List TradeRow → Group
unfolding sum_of
group_of name rows =
    let pnls = pnl_of rows in
    let n = length rows in
    let won = length (keep (λ x. nought <? x) pnls) in
    record {
      name = name;
      trades = n;
      wins = won;
      win_rate = whole won ⊘ whole n;
      total_pnl = sum_of pnls;
      avg_pnl = sum_of pnls ⊘ whole n;
      fees = sum_of (map (λ (r : TradeRow). r.1.fees) rows);
    }

-- `groupby`, by a name of each row.
unfoldable pub breakdown : (TradeRow → String) → List TradeRow → List Group
unfolding group_of sorted_set
breakdown name rows =
    map (λ n. group_of n (keep (λ r. same (name r) n) rows)) (sorted_set (map name rows))

abbrev pub exit_name : ExitReason → String
exit_name target = "target"
exit_name stop = "stop"
exit_name time_stop = "time_stop"

-- `_per_symbol_breakdown` and `_exit_reason_breakdown`
abbrev pub per_symbol : List TradeRow → List Group
unfolding breakdown
per_symbol = breakdown (λ r. r.0)

abbrev pub per_exit_reason : List TradeRow → List Group
unfolding breakdown
per_exit_reason = breakdown (λ r. exit_name r.1.exit_reason)
