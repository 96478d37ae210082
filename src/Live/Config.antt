-- ===== src/Live/Config.antt =====
-- src/main.py: `LiveConfig`. What `yaml.safe_load` reads is a parameter: the known keys that the file gives, each
-- of the type that it should have; other keys are not read.
use hta.Common.{ℕ, ◌+◌, String, Option, none, some, List, [], ◌∷◌, map}
use hta.Decimal.{Decimal, whole, ratio}
use hta.Strings.{removed}
use hta.Strategies.Reversion.{MeanReversionConfig}

-- The keys of the sections that are read. A section that is missing is one without keys.
pub record Settings : Type 0 where
  pub universe : Option (List String)
  pub sma_window : Option ℕ
  pub rsi_window : Option ℕ
  pub z_entry_short : Option Decimal
  pub z_target : Option Decimal
  pub z_stop : Option Decimal
  pub rsi_oversold : Option Decimal
  pub rsi_overbought : Option Decimal
  pub time_stop_bars : Option ℕ
  pub max_risk_per_trade_pct : Option Decimal
  pub max_position_notional_pct : Option Decimal
  pub interval_seconds : Option Decimal
  pub sqlite_path : Option String

-- `d.get(k, default)`
abbrev or_default : {A : Type 0} → Option A → A → A
or_default none a = a
or_default (some a) _ = a

pub record LiveConfig : Type 0 where
  pub symbols : List String
  pub history : ℕ
  pub bar_seconds : ℕ
  pub sma_window : ℕ
  pub rsi_window : ℕ
  pub z_entry : Decimal
  pub z_target : Decimal
  pub z_stop : Decimal
  pub rsi_oversold : Decimal
  pub rsi_overbought : Decimal
  pub time_stop_bars : ℕ
  pub risk_per_trade_pct : Decimal
  pub max_notional_pct : Decimal
  pub reconciler_interval_seconds : Decimal
  pub stale_order_seconds : Decimal
  pub journal_path : String

unfoldable pub from_yaml : Settings → LiveConfig
from_yaml s = record {
  symbols = map (removed "-PERP") (or_default s.universe ("BTC" ∷ "ETH" ∷ "SOL" ∷ []));
  history = or_default s.sma_window 96 + 50;
  bar_seconds = 300;
  sma_window = or_default s.sma_window 96;
  rsi_window = or_default s.rsi_window 14;
  z_entry = or_default s.z_entry_short (ratio 20 9);
  z_target = or_default s.z_target (ratio 0 9);
  z_stop = or_default s.z_stop (ratio 35 9);
  rsi_oversold = or_default s.rsi_oversold (whole 30);
  rsi_overbought = or_default s.rsi_overbought (whole 70);
  time_stop_bars = or_default s.time_stop_bars 4;
  risk_per_trade_pct = or_default s.max_risk_per_trade_pct (ratio 5 999);
  max_notional_pct = or_default s.max_position_notional_pct (ratio 30 99);
  reconciler_interval_seconds = or_default s.interval_seconds (whole 30);
  stale_order_seconds = whole 60;
  journal_path = or_default s.sqlite_path "data/journal.sqlite";
}

unfoldable pub to_strategy_config : LiveConfig → MeanReversionConfig
to_strategy_config c = record {
  sma_window = c.sma_window;
  rsi_window = c.rsi_window;
  z_entry = c.z_entry;
  z_target = c.z_target;
  z_stop = c.z_stop;
  rsi_oversold = c.rsi_oversold;
  rsi_overbought = c.rsi_overbought;
  time_stop_bars = c.time_stop_bars;
  risk_per_trade_pct = c.risk_per_trade_pct;
  max_notional_pct = c.max_notional_pct;
}
