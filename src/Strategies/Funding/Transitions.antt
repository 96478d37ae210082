-- ===== src/Strategies/Funding/Transitions.antt =====
-- The phases of a capture, and the pairing of its legs.
use hta.Common.{◌≡◌, refl, ◌⊎◌, false, none, some, arith}
use hta.Decimal.{whole, nought, opposite}
use hta.Decimal.Order.{◌≼◌, ◌≺◌}
use hta.Strategies.Target.{TargetPosition}
use hta.Strategies.Capture.{
  Phase, idle, entry_pending, holding, exit_pending, Time, FundingCaptureConfig, FundingRateInfo,
  FundingCaptureSymbolState, FundingCaptureDecision, AccountSnapshot,
}
use hta.Strategies.Funding.{
  both_legs_filled, both_legs_flat, since, spot_symbol, by_phase, evaluate_symbol,
}

infix 40 ◌⟶◌
-- The diagram of the module's docstring, and the phases that it waits in.
pub data ◌⟶◌ : Phase → Phase → Type 0 where
  wait : {p : Phase} → p ⟶ p
  enter : idle ⟶ entry_pending
  filled : entry_pending ⟶ holding
  unwind : entry_pending ⟶ exit_pending
  leave : holding ⟶ exit_pending
  flat : exit_pending ⟶ idle

by_phase-⟶ :
    (p : Phase) (now : Time) (rate : FundingRateInfo) (account : AccountSnapshot)
    (s : FundingCaptureSymbolState) (cfg : FundingCaptureConfig)
    → s.phase ≡ p
    → p ⟶ (by_phase p now rate account s cfg).next_state.phase
unfolding by_phase
by_phase-⟶ idle now rate account s cfg h = grind (arith, wait, enter)
by_phase-⟶ entry_pending now rate account s cfg h = grind (arith, wait, filled, unwind)
by_phase-⟶ holding now rate account s cfg h = grind (arith, wait, leave)
by_phase-⟶ exit_pending now rate account s cfg h = grind (arith, wait, flat)

-- Each evaluation stays in its phase or follows an edge of the diagram.
pub evaluate_symbol-⟶ :
    (now : Time) (rate : FundingRateInfo) (account : AccountSnapshot)
    (s : FundingCaptureSymbolState) (cfg : FundingCaptureConfig)
    → s.phase ⟶ (evaluate_symbol now rate account s cfg).next_state.phase
unfolding evaluate_symbol
evaluate_symbol-⟶ now rate account s cfg = by_phase-⟶ s.phase now rate account s cfg refl

-- No target at all, or targets for the perpetual and the spot of the coin with opposite notionals.
abbrev pub IsHedged : FundingCaptureDecision → Type 0
IsHedged d =
    ((d.perp_target ≡ none) × (d.spot_target ≡ none))
    ⊎ ((perp : TargetPosition) × (spot : TargetPosition) × (d.perp_target ≡ some perp)
        × (d.spot_target ≡ some spot)
        × (perp.symbol ≡ d.coin)
        × (spot.symbol ≡ spot_symbol d.coin)
        × (spot.notional ≡ opposite perp.notional))

by_phase-IsHedged :
    (p : Phase) (now : Time) (rate : FundingRateInfo) (account : AccountSnapshot)
    (s : FundingCaptureSymbolState) (cfg : FundingCaptureConfig)
    → IsHedged (by_phase p now rate account s cfg)
unfolding by_phase
by_phase-IsHedged idle now rate account s cfg = ground arith
by_phase-IsHedged entry_pending now rate account s cfg = ground arith
by_phase-IsHedged holding now rate account s cfg = ground arith
by_phase-IsHedged exit_pending now rate account s cfg = ground arith

-- Every decision is hedged: it moves both legs of the pair, by opposite notionals, or neither.
pub evaluate_symbol-IsHedged :
    (now : Time) (rate : FundingRateInfo) (account : AccountSnapshot)
    (s : FundingCaptureSymbolState) (cfg : FundingCaptureConfig)
    → IsHedged (evaluate_symbol now rate account s cfg)
unfolding evaluate_symbol
evaluate_symbol-IsHedged now rate account s cfg = by_phase-IsHedged s.phase now rate account s cfg

-- Both legs of the pair are told to go flat, and the exit is pending.
pub record IsUnwinding (d : FundingCaptureDecision) : Type 0 where
  pub perp : d.perp_target ≡ some (record { symbol = d.coin; notional = nought; reason = d.reason })
  pub spot :
      d.spot_target
      ≡ some (record { symbol = spot_symbol d.coin; notional = nought; reason = d.reason })
  pub phase : d.next_state.phase ≡ exit_pending

-- No capture stays on past its time: an entry of which a leg is missing is unwound once the fill window
-- is over, a capture that holds is closed from `post_tick_min_seconds` after the tick on, and an exit
-- goes on until both legs are flat.
pub evaluate_symbol-IsUnwinding :
    (now : Time) (rate : FundingRateInfo) (account : AccountSnapshot)
    (s : FundingCaptureSymbolState) (cfg : FundingCaptureConfig)
    → ((s.phase ≡ entry_pending)
        × (both_legs_filled s ≡ false)
        × (whole cfg.fill_window_seconds ≺ since now s.entry_attempt_started))
      ⊎ ((s.phase ≡ holding) × (whole cfg.post_tick_min_seconds ≼ since now s.target_tick_time))
      ⊎ ((s.phase ≡ exit_pending) × (both_legs_flat s ≡ false))
    → IsUnwinding (evaluate_symbol now rate account s cfg)
unfolding evaluate_symbol by_phase
evaluate_symbol-IsUnwinding now rate account s cfg h = ground arith
