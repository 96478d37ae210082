-- ===== src/Strategies/Capture.antt =====
-- src/strategies/funding_capture.py: the configuration, the inputs, the state of one symbol and the
-- decision. A time is the exact number of seconds since the epoch, in UTC: a naive `datetime`, which
-- `_ensure_utc` reads as UTC, and an aware one are the same value.
use hta.Common.{ℕ, String, Option, none}
use hta.Decimal.{Decimal, ratio, nought}
use hta.Formatted.{Text}
use hta.Strategies.Target.{TargetPosition}

pub data Phase : Type 0 where
  idle entry_pending holding exit_pending : Phase

abbrev pub Time : Type 0
Time = Decimal

pub record FundingCaptureConfig : Type 0 where
  pub funding_threshold : Decimal
  pub pre_tick_seconds : ℕ
  pub fill_window_seconds : ℕ
  pub post_tick_min_seconds : ℕ
  pub post_tick_max_seconds : ℕ
  pub notional_per_leg_pct : Decimal
  pub early_exit_capital_ratio : Decimal

abbrev pub default_funding : FundingCaptureConfig
default_funding = record {
  funding_threshold = ratio 1 999;
  pre_tick_seconds = 600;
  fill_window_seconds = 90;
  post_tick_min_seconds = 60;
  post_tick_max_seconds = 120;
  notional_per_leg_pct = ratio 50 99;
  early_exit_capital_ratio = ratio 5 9;
}

pub record FundingRateInfo : Type 0 where
  pub coin : String
  pub predicted_rate : Decimal
  pub next_tick_time : Time
  pub as_of : Time

pub record FundingCaptureSymbolState : Type 0 where
  pub coin : String
  pub phase : Phase
  pub target_tick_time : Option Time
  pub entry_attempt_started : Option Time
  pub target_notional : Decimal  -- signed: negative = short perp / long spot pair
  pub perp_size : Decimal
  pub spot_size : Decimal

-- `FundingCaptureSymbolState(coin=coin)`
abbrev pub idle_state : String → FundingCaptureSymbolState
idle_state coin = record {
  coin = coin;
  phase = idle;
  target_tick_time = none;
  entry_attempt_started = none;
  target_notional = nought;
  perp_size = nought;
  spot_size = nought;
}

pub record FundingCaptureDecision : Type 0 where
  pub coin : String
  pub perp_target : Option TargetPosition
  pub spot_target : Option TargetPosition
  pub next_state : FundingCaptureSymbolState
  pub reason : Text

pub record AccountSnapshot : Type 0 where
  pub equity : Decimal
  pub available_notional_for_strategy : Decimal
