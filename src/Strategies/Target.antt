-- ===== src/Strategies/Target.antt =====
-- src/strategies/mean_reversion.py: the target that both strategies hand to the order router.
use hta.Common.{String}
use hta.Decimal.{Decimal}
use hta.Formatted.{Text}

pub record TargetPosition : Type 0 where
  pub symbol : String
  pub notional : Decimal  -- signed; 0 means flat
  pub reason : Text
