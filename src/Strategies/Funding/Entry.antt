-- ===== src/Strategies/Funding/Entry.antt =====
-- When a capture is entered, and with what size.
use hta.Common.{◌+◌, ◌≡◌, some}
use hta.Decimal.{Decimal, whole, nought, opposite, ◌⊖◌, ◌⊗◌}
use hta.Decimal.Order.{◌≼◌, ◌≺◌}
use hta.Strategies.Capture.{
  Time, FundingCaptureConfig, FundingRateInfo, FundingCaptureSymbolState, AccountSnapshot,
}

-- What holds when a capture of the size `notional` is entered.
pub record IsEntry (now : Time) (rate : FundingRateInfo) (account : AccountSnapshot)
    (cfg : FundingCaptureConfig) (next : FundingCaptureSymbolState) (notional : Decimal)
    : Type 0 where
  pub profitable : cfg.funding_threshold ≺ rate.predicted_rate
  pub not_early : rate.next_tick_time ⊖ now ≼ whole (cfg.pre_tick_seconds + 60)
  pub not_late : whole cfg.pre_tick_seconds ⊖ whole 60 ≼ rate.next_tick_time ⊖ now
  pub positive : nought ≺ notional
  pub affordable : notional ≼ account.available_notional_for_strategy
  pub capped : notional ≼ account.equity ⊗ cfg.notional_per_leg_pct
  pub short : next.target_notional ≡ opposite notional
  pub tick : next.target_tick_time ≡ some rate.next_tick_time
  pub started : next.entry_attempt_started ≡ some now
