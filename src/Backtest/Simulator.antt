-- ===== src/Backtest/Simulator.antt =====
-- src/backtest/simulator.py: `_size_position` and the walk of `_simulate_symbol` over the bars. Floats are
-- exact numbers, and none where they are not finite; numpy's generator is a parameter.
pub mod Trades
use hta.Common.{
  ℕ, suc, ◌+◌, ◌-◌, String, Bool, true, false, not, ◌&&◌, ◌||◌, Option, none, some, List, [], ◌∷◌,
  ltb, if◌then◌else◌,
}
use hta.Decimal.{
  Decimal, whole, ratio, nought, opposite, ◌⊕◌, ◌⊖◌, ◌⊗◌, ◌⊘◌, ◌<?◌, ◌≤?◌, magnitude, lesser,
}

pub record StrategyConfig : Type 0 where
  pub sma_window : ℕ
  pub rsi_window : ℕ
  pub z_entry : Decimal
  pub rsi_oversold : Decimal
  pub rsi_overbought : Decimal
  pub z_target : Decimal
  pub z_stop : Decimal
  pub time_stop_bars : ℕ
  pub risk_per_trade_pct : Decimal
  pub max_notional_pct : Decimal
  pub stop_distance_multiplier : Decimal

pub record SimulatorConfig : Type 0 where
  pub initial_equity : Decimal
  pub maker_fee_rate : Decimal
  pub slippage_bps : Decimal
  pub fill_prob : Decimal
  pub seed : ℕ

-- A bar: its time, its open, and its row of `compute_signals`.
pub record SignalBar : Type 0 where
  pub time : ℕ
  pub raw_open : Option Decimal
  pub std : Option Decimal
  pub entry_long : Bool
  pub entry_short : Bool
  pub exit_target_long : Bool
  pub exit_target_short : Bool
  pub exit_stop_long : Bool
  pub exit_stop_short : Bool

pub data TradeSide : Type 0 where
  long short : TradeSide

pub data ExitReason : Type 0 where
  target stop time_stop : ExitReason

-- A row of the trades.
pub record Trade : Type 0 where
  pub side : TradeSide
  pub entry_time : ℕ
  pub exit_time : ℕ
  pub entry_price : Decimal
  pub exit_price : Decimal
  pub size : Decimal
  pub notional : Decimal
  pub fees : Decimal
  pub slippage_cost : Decimal
  pub pnl : Decimal
  pub exit_reason : ExitReason
  pub bars_held : ℕ

-- The variables of the walk while `in_position`.
pub record OpenTrade : Type 0 where
  pub side : TradeSide
  pub entry_idx : ℕ
  pub entry_time : ℕ
  pub entry_fill : Decimal
  pub size : Decimal
  pub notional : Decimal

-- The notional and the size; both are 0 where the deviation is not a positive number.
unfoldable pub size_position :
    Decimal → Option Decimal → StrategyConfig → SimulatorConfig → Decimal × Decimal
size_position entry_close none cfg sim = (nought, nought)
size_position entry_close (some std) cfg sim =
    let stop_distance_pct = cfg.stop_distance_multiplier ⊗ std ⊘ entry_close in
    let raw_notional = cfg.risk_per_trade_pct ⊗ sim.initial_equity ⊘ stop_distance_pct in
    let notional = lesser raw_notional (cfg.max_notional_pct ⊗ sim.initial_equity) in
    if std ≤? nought || entry_close ≤? nought
    then (nought, nought)
    else if stop_distance_pct ≤? nought
    then (nought, nought)
    else (notional, notional ⊘ entry_close)

abbrev pub slippage_of : SimulatorConfig → Decimal
slippage_of sim = sim.slippage_bps ⊘ whole 10000

abbrev pub stop_signal : TradeSide → SignalBar → Bool
stop_signal long bar = bar.exit_stop_long
stop_signal short bar = bar.exit_stop_short

abbrev pub target_signal : TradeSide → SignalBar → Bool
target_signal long bar = bar.exit_target_long
target_signal short bar = bar.exit_target_short

-- `should_exit` and `exit_reason`.
unfoldable pub exit_of : StrategyConfig → OpenTrade → ℕ → SignalBar → Option ExitReason
exit_of cfg o bars_held bar =
    if stop_signal o.side bar
    then some stop
    else if target_signal o.side bar
    then some target
    else if ltb cfg.time_stop_bars bars_held
    then some time_stop
    else none

-- A price that is worse by the slippage for one who sells, or who buys.
abbrev pub worse_for_seller : Decimal → Decimal → Decimal
worse_for_seller slippage price = price ⊗ (whole 1 ⊖ slippage)

abbrev pub worse_for_buyer : Decimal → Decimal → Decimal
worse_for_buyer slippage price = price ⊗ (whole 1 ⊕ slippage)

abbrev pub exit_fill_of : TradeSide → Decimal → Decimal → Decimal
exit_fill_of long slippage price = worse_for_seller slippage price
exit_fill_of short slippage price = worse_for_buyer slippage price

abbrev pub entry_fill_of : TradeSide → Decimal → Decimal → Decimal
entry_fill_of long slippage price = worse_for_buyer slippage price
entry_fill_of short slippage price = worse_for_seller slippage price

abbrev pub gain : TradeSide → Decimal → Decimal → Decimal
gain long entry_fill exit_fill = exit_fill ⊖ entry_fill
gain short entry_fill exit_fill = entry_fill ⊖ exit_fill

abbrev pub signed : TradeSide → Decimal → Decimal
signed long x = x ⊗ whole 1
signed short x = x ⊗ opposite (whole 1)

abbrev pub or_fill : Option Decimal → Decimal → Decimal
or_fill none fill = fill
or_fill (some x) fill = x

-- The trade that an exit at the bar's open completes.
unfoldable pub close_trade : SimulatorConfig → OpenTrade → ℕ → SignalBar → ExitReason → Trade
close_trade sim o bars_held bar reason =
    let raw_exit = or_fill bar.raw_open o.entry_fill in
    let exit_fill = exit_fill_of o.side (slippage_of sim) raw_exit in
    let exit_fee = magnitude o.size ⊗ exit_fill ⊗ sim.maker_fee_rate in
    let entry_fee = o.notional ⊗ sim.maker_fee_rate in
    record {
      side = o.side;
      entry_time = o.entry_time;
      exit_time = bar.time;
      entry_price = o.entry_fill;
      exit_price = exit_fill;
      size = o.size;
      notional = o.notional;
      fees = entry_fee ⊕ exit_fee;
      slippage_cost = signed o.side (magnitude o.size ⊗ (raw_exit ⊖ exit_fill));
      pnl = gain o.side o.entry_fill exit_fill ⊗ o.size ⊖ entry_fee ⊖ exit_fee;
      exit_reason = reason;
      bars_held = bars_held;
    }

-- What an entry check does: the position, the signals skipped, and the random numbers drawn.
pub record Checked : Type 0 where
  pub position : Option OpenTrade
  pub skipped : ℕ
  pub drawn : ℕ

abbrev pub unchecked : Checked
unchecked = record { position = none; skipped = 0; drawn = 0 }

abbrev pub missed : Checked
missed = record { position = none; skipped = 1; drawn = 1 }

abbrev pub wanted_side : SignalBar → TradeSide
wanted_side bar = if bar.entry_long then long else short

-- The entry at a finite open, where `roll` is the next random number.
unfoldable pub try_entry :
    StrategyConfig → SimulatorConfig → Decimal → ℕ → SignalBar → Decimal → Checked
unfolding size_position
try_entry cfg sim roll t bar raw_open =
    let (notional, size) = size_position raw_open bar.std cfg sim in
    if raw_open ≤? nought
    then unchecked
    else if sim.fill_prob ≤? roll
    then missed
    else if size ≤? nought
    then missed
    else record {
      position = some (record {
        side = wanted_side bar;
        entry_idx = t;
        entry_time = bar.time;
        entry_fill = entry_fill_of (wanted_side bar) (slippage_of sim) raw_open;
        size = size;
        notional = notional;
      });
      skipped = 0;
      drawn = 1;
    }

unfoldable pub check_entry : StrategyConfig → SimulatorConfig → Decimal → ℕ → SignalBar → Checked
unfolding try_entry
check_entry cfg sim roll t bar =
    if bar.entry_long || bar.entry_short
    then elim bar.raw_open [
      | none ↦ unchecked
      | some raw_open ↦ try_entry cfg sim roll t bar raw_open
    ]
    else unchecked

-- The walk from bar `t` on, with `drawn` random numbers used: the trades and the skipped signals.
unfoldable pub walk :
    StrategyConfig
    → SimulatorConfig
    → (ℕ → Decimal)
    → List SignalBar
    → ℕ
    → Option OpenTrade
    → ℕ
    → List Trade × ℕ
unfolding exit_of close_trade check_entry
walk cfg sim random [] t position drawn = ([], 0)
walk cfg sim random (bar ∷ bars) t none drawn =
    let c = check_entry cfg sim (random drawn) t bar in
    let (trades, skipped) = walk cfg sim random bars (suc t) c.position (drawn + c.drawn) in
    (trades, c.skipped + skipped)
walk cfg sim random (bar ∷ bars) t (some o) drawn =
    let bars_held = t - o.entry_idx in
    let (trades, skipped) = walk cfg sim random bars (suc t) none drawn in
    let kept = walk cfg sim random bars (suc t) (some o) drawn in
    elim (exit_of cfg o bars_held bar) [
      | some reason ↦ (close_trade sim o bars_held bar reason ∷ trades, skipped)
      | none ↦ kept
    ]

-- `_simulate_symbol`
unfoldable pub simulate_symbol :
    StrategyConfig → SimulatorConfig → (ℕ → Decimal) → List SignalBar → List Trade × ℕ
unfolding walk
simulate_symbol cfg sim random bars = walk cfg sim random bars 0 none 0
