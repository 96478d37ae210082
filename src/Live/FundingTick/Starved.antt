-- ===== src/Live/FundingTick/Starved.antt =====
-- src/main.py: the funding tick and the capital that the captures use themselves.
use hta.Common.{String, Option, List, map}
use hta.Decimal.{Decimal, magnitude}
use hta.Dict.{Dict, get, string_key}
use hta.Strategies.Capture.{FundingCaptureSymbolState}
use hta.Strategies.Funding.{evaluate_symbol}
use hta.Strategies.Scheduler.{state_or_idle, rate_or_placeholder}
use hta.Execution.Allocator.{StrategyAllocation}
use hta.Live.FundingTick.{Tick, snapshot}

abbrev notionals : Dict String FundingCaptureSymbolState → List Decimal
notionals = map (λ e. magnitude e.1.target_notional)

abbrev next_of :
    Tick
    → StrategyAllocation
    → String
    → Option FundingCaptureSymbolState
    → FundingCaptureSymbolState
next_of w b j o =
    (evaluate_symbol w.now (rate_or_placeholder j w.now (get j w.rates)) (snapshot w b)
      (state_or_idle j o) w.funding_config).next_state
