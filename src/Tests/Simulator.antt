-- ===== src/Tests/Simulator.antt =====
-- src/backtest/simulator.py: a long entry that reaches its target two bars later.
use hta.Common.{ℕ, ◌*◌, ◌≡◌, refl, Bool, true, false, some, List, [], ◌∷◌, All, map}
use hta.Decimal.{Decimal, whole, ratio, nought, ◌⊕◌, ◌⊗◌, inverse, ◌<?◌, magnitude, lesser}
use hta.Backtest.Simulator.{
  StrategyConfig, SimulatorConfig, SignalBar, Trade, ExitReason, target, size_position, exit_of,
  close_trade, try_entry, check_entry, walk, simulate_symbol,
}
use hta.Backtest.Simulator.Trades.{IsTrade, simulate_symbol-IsTrade}

abbrev pub strategy : StrategyConfig
strategy = record {
  sma_window = 96;
  rsi_window = 14;
  z_entry = whole 2;
  rsi_oversold = whole 30;
  rsi_overbought = whole 70;
  z_target = nought;
  z_stop = ratio 35 9;
  time_stop_bars = 4;
  risk_per_trade_pct = ratio 5 999;
  max_notional_pct = ratio 30 99;
  stop_distance_multiplier = ratio 15 9;
}

abbrev pub simulator : SimulatorConfig
simulator = record {
  initial_equity = whole 1500;
  maker_fee_rate = ratio 15 99999;
  slippage_bps = ratio 5 9;
  fill_prob = ratio 70 99;
  seed = 42;
}

abbrev bar : ℕ → Bool → Bool → SignalBar
bar time enters leaves = record {
  time = 300 * time;
  raw_open = some (whole 30000);
  std = some (whole 100);
  entry_long = enters;
  entry_short = false;
  exit_target_long = leaves;
  exit_target_short = false;
  exit_stop_long = false;
  exit_stop_short = false;
}

abbrev bars : List SignalBar
bars = bar 0 false false ∷ bar 1 true false ∷ bar 2 true false ∷ bar 3 false true ∷ []

abbrev lucky : ℕ → Decimal
lucky drawn = ratio 1 1

abbrev outcome_of : Trade → ExitReason × ℕ
outcome_of t = (t.exit_reason, t.bars_held)

one_trade : map outcome_of (simulate_symbol strategy simulator lucky bars).0 ≡ (target, 2) ∷ []
unfolding simulate_symbol walk check_entry try_entry size_position exit_of close_trade ◌⊕◌ ◌⊗◌
    inverse ◌<?◌ magnitude lesser
one_trade = refl

simulate_symbol-IsTrade_example :
    All (IsTrade strategy simulator) (simulate_symbol strategy simulator lucky bars).0
simulate_symbol-IsTrade_example = simulate_symbol-IsTrade strategy simulator lucky bars
