-- ===== src/Backtest/Simulator/Trades.antt =====
-- src/backtest/simulator.py: every trade is sized and closed in time.
use hta.Common.{
  ℕ, suc, ◌+◌, ◌-◌, ◌≤◌, ◌<◌, ◌≡◌, refl, Bool, true, false, ◌||◌, Option, none, some, List, [], ◌∷◌,
  All, arith, inl, inr, Bool-cases, Option-cases, if◌then◌else◌,
}
use hta.Decimal.{Decimal, nought, ◌⊗◌, ◌⊘◌, ◌≤?◌}
use hta.Decimal.Order.{◌≼◌, ◌≺◌, lesser-≼_right, ≼_refl}
use hta.Backtest.Simulator.{
  StrategyConfig, SimulatorConfig, SignalBar, ExitReason, Trade, OpenTrade, size_position, exit_of,
  close_trade, Checked, unchecked, missed, try_entry, check_entry, walk, simulate_symbol,
}

-- A trade of positive size whose notional is within the cap, and which is held for at least a bar and at
-- most one bar longer than the time stop.
pub record IsTrade (cfg : StrategyConfig) (sim : SimulatorConfig) (t : Trade) : Type 0 where
  pub sized : nought ≺ t.size
  pub capped : t.notional ≼ cfg.max_notional_pct ⊗ sim.initial_equity
  pub held : 0 < t.bars_held
  pub in_time : t.bars_held ≤ suc cfg.time_stop_bars

-- What holds of the position before bar `t`.
pub record IsOpen (cfg : StrategyConfig) (sim : SimulatorConfig) (t : ℕ) (o : OpenTrade)
    : Type 0 where
  pub sized : nought ≺ o.size
  pub capped : o.notional ≼ cfg.max_notional_pct ⊗ sim.initial_equity
  pub entered : o.entry_idx < t
  pub in_time : t ≤ o.entry_idx + suc cfg.time_stop_bars

abbrev pub IsPosition : StrategyConfig → SimulatorConfig → ℕ → Option OpenTrade → Type 0
IsPosition cfg sim t none = Unit
IsPosition cfg sim t (some o) = IsOpen cfg sim t o

size_position-capped :
    (raw_open : Decimal) (std : Option Decimal) (cfg : StrategyConfig) (sim : SimulatorConfig)
    → nought ≺ (size_position raw_open std cfg sim).1
    → (size_position raw_open std cfg sim).0 ≼ cfg.max_notional_pct ⊗ sim.initial_equity
unfolding size_position
size_position-capped raw_open none cfg sim h = absurd (let zero = ≼_refl nought in cc)
size_position-capped raw_open (some std) cfg sim h = ground (
  arith,
  ≼_refl nought,
  lesser-≼_right
      (cfg.risk_per_trade_pct
        ⊗ sim.initial_equity
        ⊘ (cfg.stop_distance_multiplier ⊗ std ⊘ raw_open))
      (cfg.max_notional_pct ⊗ sim.initial_equity),
)

IsPosition-if :
    (cfg : StrategyConfig) (sim : SimulatorConfig) (t : ℕ) (b : Bool) (x y : Checked)
    → IsPosition cfg sim t x.position
    → (b ≡ false → IsPosition cfg sim t y.position)
    → IsPosition cfg sim t (if b then x else y).position
IsPosition-if cfg sim t true x y hx hy = hx
IsPosition-if cfg sim t false x y hx hy = hy refl

try_entry-IsPosition :
    (cfg : StrategyConfig) (sim : SimulatorConfig) (roll : Decimal) (t : ℕ) (bar : SignalBar)
    (raw_open : Decimal)
    → IsPosition cfg sim (suc t) (try_entry cfg sim roll t bar raw_open).position
unfolding try_entry
try_entry-IsPosition cfg sim roll t bar raw_open =
    let (notional, size) = size_position raw_open bar.std cfg sim in
    IsPosition-if cfg sim (suc t) (raw_open ≤? nought) unchecked _ tt (λ h.
      IsPosition-if cfg sim (suc t) (sim.fill_prob ≤? roll) missed _ tt (λ h'.
        IsPosition-if cfg sim (suc t) (size ≤? nought) missed _ tt (λ h''. record {
          sized = ground arith;
          capped = size_position-capped raw_open bar.std cfg sim (ground arith);
          entered = omega arith;
          in_time = omega arith;
        })))

check_entry-IsPosition :
    (cfg : StrategyConfig) (sim : SimulatorConfig) (roll : Decimal) (t : ℕ) (bar : SignalBar)
    → IsPosition cfg sim (suc t) (check_entry cfg sim roll t bar).position
unfolding check_entry
check_entry-IsPosition cfg sim roll t bar = elim (Bool-cases (bar.entry_long || bar.entry_short)) [
  | inr e ↦ rw (e, check_entry) tt
  | inl e ↦ elim (Option-cases bar.raw_open) [
    | inl e' ↦ rw (e, e', check_entry) tt
    | inr (raw_open, e') ↦
        rw (e, e', check_entry) (try_entry-IsPosition cfg sim roll t bar raw_open)
  ]
]

exit_of-none :
    (cfg : StrategyConfig) (o : OpenTrade) (bars_held : ℕ) (bar : SignalBar)
    → exit_of cfg o bars_held bar ≡ none
    → bars_held ≤ cfg.time_stop_bars
unfolding exit_of
exit_of-none cfg o bars_held bar h = ground arith

close_trade-IsTrade :
    (cfg : StrategyConfig) (sim : SimulatorConfig) (t : ℕ) (o : OpenTrade) (bar : SignalBar)
    (reason : ExitReason)
    → IsOpen cfg sim t o
    → IsTrade cfg sim (close_trade sim o (t - o.entry_idx) bar reason)
unfolding close_trade
close_trade-IsTrade cfg sim t o bar reason h = record {
  sized = h.sized;
  capped = h.capped;
  held = omega (arith, h.entered);
  in_time = omega (arith, h.entered, h.in_time);
}

walk-IsTrade :
    (cfg : StrategyConfig) (sim : SimulatorConfig) (random : ℕ → Decimal) (bars : List SignalBar)
    (t : ℕ) (position : Option OpenTrade) (drawn : ℕ)
    → IsPosition cfg sim t position
    → All (IsTrade cfg sim) (walk cfg sim random bars t position drawn).0
unfolding walk
walk-IsTrade cfg sim random [] t position drawn h = tt
walk-IsTrade cfg sim random (bar ∷ bars) t none drawn h =
    walk-IsTrade cfg sim random bars (suc t) (check_entry cfg sim (random drawn) t bar).position _
      (check_entry-IsPosition cfg sim (random drawn) t bar)
walk-IsTrade cfg sim random (bar ∷ bars) t (some o) drawn h =
    elim (Option-cases (exit_of cfg o (t - o.entry_idx) bar)) [
      | inr (reason, e) ↦
          rw (e, walk)
            (
              close_trade-IsTrade cfg sim t o bar reason h,
              walk-IsTrade cfg sim random bars (suc t) none drawn tt,
            )
      | inl e ↦
          rw (e, walk)
            (walk-IsTrade cfg sim random bars (suc t) (some o) drawn (record {
              sized = h.sized;
              capped = h.capped;
              entered = omega (arith, h.entered);
              in_time = omega (arith, h.entered, exit_of-none cfg o (t - o.entry_idx) bar e);
            }))
    ]

-- Every trade of a simulation has a positive size and a notional within the cap, and is closed at the
-- latest one bar after the time stop.
pub simulate_symbol-IsTrade :
    (cfg : StrategyConfig) (sim : SimulatorConfig) (random : ℕ → Decimal) (bars : List SignalBar)
    → All (IsTrade cfg sim) (simulate_symbol cfg sim random bars).0
unfolding simulate_symbol
simulate_symbol-IsTrade cfg sim random bars = walk-IsTrade cfg sim random bars 0 none 0 tt
