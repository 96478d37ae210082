-- ===== src/Strategies/Reversion.antt =====
-- src/strategies/mean_reversion.py: strategy A, from the features of the candles to a target.
pub mod Signals
use hta.Common.{
  ℕ, ◌+◌, String, Bool, true, false, not, ◌&&◌, ◌||◌, Option, none, some, List, [], ◌∷◌, ltb,
  length, ◌>>=◌, if◌then◌else◌,
}
use hta.Decimal.{
  Decimal, whole, ratio, nought, opposite, ◌⊖◌, ◌⊗◌, ◌⊘◌, ◌<?◌, ◌≤?◌, ◌=?◌, magnitude,
}
use hta.Formatted.{Text, lit, int, fixed, plain}
use hta.Strategies.Target.{TargetPosition}

pub record StrategyPosition : Type 0 where
  pub symbol : String
  pub size : Decimal  -- signed: positive long, negative short, 0 = flat
  pub entry_price : Decimal
  pub bars_held : ℕ

pub record MeanReversionConfig : Type 0 where
  pub sma_window : ℕ
  pub rsi_window : ℕ
  pub z_entry : Decimal
  pub z_target : Decimal
  pub z_stop : Decimal
  pub rsi_oversold : Decimal
  pub rsi_overbought : Decimal
  pub time_stop_bars : ℕ
  pub risk_per_trade_pct : Decimal
  pub max_notional_pct : Decimal

abbrev pub default_reversion : MeanReversionConfig
default_reversion = record {
  sma_window = 96;
  rsi_window = 14;
  z_entry = ratio 20 9;
  z_target = ratio 0 9;
  z_stop = ratio 35 9;
  rsi_oversold = whole 30;
  rsi_overbought = whole 70;
  time_stop_bars = 4;
  risk_per_trade_pct = ratio 5 999;
  max_notional_pct = ratio 30 99;
}

-- What pandas makes of a column of closes: the last value of the z-score and of the RSI, and the value
-- before the last of the rolling deviation, each none where `_to_decimal` returns None.
pub record Features : Type 0 where
  pub z_score : List Decimal → ℕ → Option Decimal
  pub rsi : List Decimal → ℕ → Option Decimal
  pub sigma : List Decimal → ℕ → Option Decimal
  pub last_close : List Decimal → Option Decimal

abbrev pub flat : String → Text → TargetPosition
flat symbol reason = record { symbol = symbol; notional = nought; reason = reason }

abbrev pub hold : StrategyPosition → Decimal → Text → TargetPosition
hold p last_close reason = record {
  symbol = p.symbol;
  notional = p.size ⊗ last_close;
  reason = reason;
}

unfoldable pub compute_size : Decimal → Decimal → Decimal → MeanReversionConfig → Decimal
compute_size equity last_close sigma c =
    let risk_dollars = c.risk_per_trade_pct ⊗ equity in
    let stop_distance = (c.z_stop ⊖ c.z_entry) ⊗ sigma in
    let stop_distance_pct = stop_distance ⊘ last_close in
    let notional = risk_dollars ⊘ stop_distance_pct in
    let cap = c.max_notional_pct ⊗ equity in
    if sigma ≤? nought || last_close ≤? nought || equity ≤? nought
    then nought
    else if stop_distance ≤? nought
    then nought
    else if stop_distance_pct ≤? nought
    then nought
    else if cap <? notional
    then cap
    else notional

-- The values that `evaluate` reads, once none of them is missing.
pub record Reading : Type 0 where
  pub z : Decimal
  pub r : Decimal
  pub sigma : Decimal
  pub last_close : Decimal

-- The exit logic, for a position that is not flat.
unfoldable pub exit_or_hold :
    String → StrategyPosition → MeanReversionConfig → Reading → TargetPosition
exit_or_hold symbol p c v =
    if c.z_stop <? magnitude v.z
    then flat symbol (lit "stop |z|=" ∷ fixed 3 (magnitude v.z) ∷ [])
    else if ltb c.time_stop_bars p.bars_held
    then flat symbol (lit "time_stop bars_held=" ∷ int p.bars_held ∷ [])
    else if nought <? p.size && c.z_target ≤? v.z
    then flat symbol (lit "target z=" ∷ fixed 3 v.z ∷ [])
    else if p.size <? nought && v.z ≤? opposite c.z_target
    then flat symbol (lit "target z=" ∷ fixed 3 v.z ∷ [])
    else hold p v.last_close (lit "hold z=" ∷ fixed 3 v.z ∷ lit " bars=" ∷ int p.bars_held ∷ [])

abbrev pub signal : String → Reading → Text
signal name v = lit name ∷ fixed 3 v.z ∷ lit " rsi=" ∷ fixed 2 v.r ∷ []

-- The entry logic, for a flat position.
unfoldable pub enter : String → Decimal → MeanReversionConfig → Reading → TargetPosition
unfolding compute_size
enter symbol equity c v =
    let size_notional = compute_size equity v.last_close v.sigma c in
    if v.z <? opposite c.z_entry && v.r <? c.rsi_oversold
    then if size_notional ≤? nought
      then flat symbol (plain "size=0; skip entry")
      else record { symbol = symbol; notional = size_notional; reason = signal "long z=" v }
    else if c.z_entry <? v.z && c.rsi_overbought <? v.r
    then if size_notional ≤? nought then flat symbol (plain "size=0; skip entry") else record {
      symbol = symbol;
      notional = opposite size_notional;
      reason = signal "short z=" v;
    }
    else flat symbol (signal "no signal z=" v)

-- `position is not None and position.size != 0`
abbrev pub holding : Option StrategyPosition → Option StrategyPosition
holding none = none
holding (some p) = if p.size =? nought then none else some p

abbrev pub read : Features → MeanReversionConfig → List Decimal → Option Reading
read f c closes = do
  z ← f.z_score closes c.sma_window
  r ← f.rsi closes c.rsi_window
  sigma ← f.sigma closes c.sma_window
  last_close ← f.last_close closes
  some (record { z = z; r = r; sigma = sigma; last_close = last_close })

-- `evaluate`, where the candles are their "close" column, or none where the frame has none.
unfoldable pub evaluate :
    Features
    → String
    → Option (List Decimal)
    → Option StrategyPosition
    → Decimal
    → MeanReversionConfig
    → TargetPosition
unfolding exit_or_hold enter
evaluate f symbol none position equity c = flat symbol (plain "no close column")
evaluate f symbol (some closes) position equity c =
    if ltb (length closes) (c.sma_window + 1)
    then flat symbol (plain "insufficient history")
    else elim (read f c closes) [
      | none ↦ flat symbol (plain "feature warmup")
      | some v ↦ elim (holding position) [
        | some p ↦ exit_or_hold symbol p c v
        | none ↦ enter symbol equity c v
      ]
    ]
