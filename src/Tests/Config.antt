-- ===== src/Tests/Config.antt =====
-- src/main.py: the configuration of an empty file, and of one that names perpetuals.
use hta.Common.{◌≡◌, refl, none, some, [], ◌∷◌}
use hta.Strings.{after_prefix, removed_from}
use hta.Strategies.Reversion.{default_reversion}
use hta.Live.Config.{Settings, from_yaml, to_strategy_config}

abbrev nothing_given : Settings
nothing_given = record {
  universe = none;
  sma_window = none;
  rsi_window = none;
  z_entry_short = none;
  z_target = none;
  z_stop = none;
  rsi_oversold = none;
  rsi_overbought = none;
  time_stop_bars = none;
  max_risk_per_trade_pct = none;
  max_position_notional_pct = none;
  interval_seconds = none;
  sqlite_path = none;
}

-- An empty file gives the strategy its own defaults.
defaults : to_strategy_config (from_yaml nothing_given) ≡ default_reversion
unfolding to_strategy_config from_yaml
defaults = refl

perpetuals :
    (from_yaml (record nothing_given { universe = some ("BTC-PERP" ∷ "SOL" ∷ []) })).symbols
    ≡ "BTC" ∷ "SOL" ∷ []
unfolding from_yaml removed_from after_prefix
perpetuals = refl
