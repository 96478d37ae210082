-- ===== src/Strategies/Reversion/Signals.antt =====
-- src/strategies/mean_reversion.py: what the target of strategy A promises.
use hta.Common.{◌≡◌, ◌⊎◌, Bool, false, arith, ◌||◌, ◌&&◌, ◌≤◌, ltb}
use hta.Decimal.{Decimal, nought, opposite, ◌⊗◌, ◌⊘◌, ◌⊖◌, ◌<?◌, ◌≤?◌, magnitude}
use hta.Decimal.Order.{◌≼◌, ◌≺◌, ≼_refl, ≼_trans, ≼_of_≺}
use hta.Decimal.Arith.{⊘_cancel, ⊗_mono_right}
use hta.Strategies.Target.{TargetPosition}
use hta.Strategies.Reversion.{StrategyPosition, MeanReversionConfig, Reading, compute_size}

-- A position is opened within the cap on its share of equity, on the side that the signal names.
pub record IsEntry (c : MeanReversionConfig) (equity : Decimal) (v : Reading) (t : TargetPosition)
    : Type 0 where
  pub funded : nought ≺ equity
  pub capped : magnitude t.notional ≼ c.max_notional_pct ⊗ equity
  pub signalled :
      ((nought ≺ t.notional) × (v.z ≺ opposite c.z_entry) × (v.r ≺ c.rsi_oversold))
      ⊎ ((t.notional ≺ nought) × (c.z_entry ≺ v.z) × (c.rsi_overbought ≺ v.r))

-- A position is kept at its size while none of the exits applies.
pub record IsHold (c : MeanReversionConfig) (p : StrategyPosition) (v : Reading)
    (t : TargetPosition) : Type 0 where
  pub kept : t.notional ≡ p.size ⊗ v.last_close
  pub in_bounds : magnitude v.z ≼ c.z_stop
  pub in_time : p.bars_held ≤ c.time_stop_bars
  pub off_target :
      (((nought <? p.size) && (c.z_target ≤? v.z)) ≡ false)
      × (((p.size <? nought) && (v.z ≤? opposite c.z_target)) ≡ false)

-- The stake that a size puts at risk: the loss from entry to stop is at most the risk budget.
pub compute_size_capped :
    (equity close sigma : Decimal) (c : MeanReversionConfig)
    → nought ≺ compute_size equity close sigma c
    → (nought ≺ equity)
      × (compute_size equity close sigma c ≼ c.max_notional_pct ⊗ equity)
      × (compute_size equity close sigma c ⊗ ((c.z_stop ⊖ c.z_entry) ⊗ sigma ⊘ close)
          ≼ c.risk_per_trade_pct ⊗ equity)
unfolding compute_size
compute_size_capped equity close sigma c h =
    let pct = (c.z_stop ⊖ c.z_entry) ⊗ sigma ⊘ close in
    let risk = c.risk_per_trade_pct ⊗ equity in
    (
      ground (arith, ≼_refl nought),
      ground (arith, ≼_refl nought, ≼_refl (c.max_notional_pct ⊗ equity)),
      ground (
        arith,
        ≼_refl nought,
        λ (pos : nought ≺ pct). ⊘_cancel risk pct pos,
        λ (pos : nought ≺ pct) (e : c.max_notional_pct ⊗ equity ≺ risk ⊘ pct).
            ≼_trans (c.max_notional_pct ⊗ equity ⊗ pct) (risk ⊘ pct ⊗ pct) risk
              (⊗_mono_right (c.max_notional_pct ⊗ equity) (risk ⊘ pct) pct (≼_of_≺ nought pct pos)
                (≼_of_≺ (c.max_notional_pct ⊗ equity) (risk ⊘ pct) e))
              (⊘_cancel risk pct pos),
      ),
    )

abbrev exits : StrategyPosition → MeanReversionConfig → Reading → Bool
exits p c v =
    (c.z_stop <? magnitude v.z)
    || ltb c.time_stop_bars p.bars_held
    || (nought <? p.size && c.z_target ≤? v.z)
    || (p.size <? nought && v.z ≤? opposite c.z_target)
