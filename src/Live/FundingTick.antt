-- ===== src/Live/FundingTick.antt =====
-- src/main.py: `_funding_capture_tick` and `_dispatch_funding_decision` of `LiveSystem`.
pub mod States
pub mod Starved
use hta.Common.{
  ℕ, String, Bool, true, false, not, ◌&&◌, Option, none, some, List, [], ◌∷◌, ◌++◌, map, any,
  is_some, if◌then◌else◌,
}
use hta.Decimal.{Decimal, whole, nought, ◌⊕◌, ◌<?◌, magnitude}
use hta.Dict.{Dict, get, put, values, string_key}
use hta.Formatted.{Text}
use hta.Strategies.Target.{TargetPosition}
use hta.Strategies.Capture.{
  Phase, idle, entry_pending, holding, exit_pending, Time, FundingCaptureConfig, FundingRateInfo,
  FundingCaptureSymbolState, FundingCaptureDecision, AccountSnapshot,
}
use hta.Strategies.Scheduler.{evaluate}
use hta.Execution.RouterState.{Router, Market}
use hta.Execution.Router.{submit_target}
use hta.Execution.Allocator.{CapitalAllocatorConfig, StrategyAllocation, sum_from, allocate}

-- The entries that the tick appends to the journal itself.
pub data LiveEntry : Type 0 where
  funding_capture_decision :
      String → Phase → Option Decimal → Option Decimal → Text → Bool → LiveEntry
  funding_capture_skipped : String → LiveEntry

-- The part of `LiveSystem` that the tick changes.
pub record LiveState : Type 0 where
  pub funding_state : Dict String FundingCaptureSymbolState
  pub router : Router
  pub entries : List LiveEntry

-- What the tick reads: `rates` is the oracle's `latest`, and {} without an oracle.
pub record Tick : Type 0 where
  pub market : Market
  pub now : Time
  pub rates : Dict String FundingRateInfo
  pub a_used_notional : Decimal
  pub capital_config : Option CapitalAllocatorConfig
  pub funding_config : FundingCaptureConfig
  pub spot_wired : Bool  -- `self._spot_adapter is not None`

abbrev notional_of : Option TargetPosition → Option Decimal
notional_of none = none
notional_of (some t) = some t.notional

-- The perpetual leg; there is no route for the spot leg yet.
abbrev send_perp : Market → Option TargetPosition → Router → Router
send_perp m none r = r
send_perp m (some t) r = submit_target m t "funding_capture" r

abbrev appends : LiveState → LiveEntry → LiveState
appends s e = record s { entries = s.entries ++ e ∷ [] }

unfoldable pub dispatch_funding_decision :
    Tick → FundingCaptureDecision → Bool → LiveState → LiveState
dispatch_funding_decision w d degraded s =
    let s' = appends s (
      funding_capture_decision d.coin d.next_state.phase (notional_of d.perp_target)
        (notional_of d.spot_target) d.reason degraded) in
    if not (is_some d.perp_target) && not (is_some d.spot_target)
    then s
    else if not w.spot_wired
    then appends s' (funding_capture_skipped d.coin)
    else record s' { router = send_perp w.market d.perp_target s'.router }

-- The loop over the decisions.
unfoldable pub take_decisions : Tick → Bool → List FundingCaptureDecision → LiveState → LiveState
unfolding dispatch_funding_decision put
take_decisions w degraded [] s = s
take_decisions w degraded (d ∷ ds) s = take_decisions w degraded ds (
    dispatch_funding_decision w d degraded
      (record s { funding_state = put d.coin d.next_state s.funding_state }))

abbrev pub is_idle : Phase → Bool
is_idle idle = true
is_idle entry_pending = false
is_idle holding = false
is_idle exit_pending = false

abbrev pub equity_of : Tick → Decimal
equity_of w = if nought <? w.market.tracker.equity then w.market.tracker.equity else whole 1500

-- The usage of both strategies, as the allocator is told it.
unfoldable pub usage : Tick → LiveState → Dict String Decimal
unfolding sum_from
usage w s =
    ("mean_reversion", w.a_used_notional)
    ∷ (
      "funding_capture",
      sum_from nought (map (λ e. magnitude e.1.target_notional) s.funding_state),
    )
    ∷ []

-- The account that strategy B is shown.
abbrev pub snapshot : Tick → StrategyAllocation → AccountSnapshot
snapshot w b = record {
  equity = equity_of w;
  available_notional_for_strategy = b.available_notional;
}

abbrev no_rates : Dict String FundingRateInfo → Bool
no_rates [] = true
no_rates (_ ∷ _) = false

-- Without a rate, and with all symbols idle, there is nothing to do.
abbrev pub nothing_to_do : Tick → LiveState → Bool
nothing_to_do w s = no_rates w.rates && not (any (λ e. not (is_idle e.1.phase)) s.funding_state)

-- The tick from the allocation of strategy B on.
unfoldable pub run_strategy : Tick → Option StrategyAllocation → LiveState → LiveState
unfolding take_decisions evaluate
run_strategy w none s = s
run_strategy w (some b) s =
    take_decisions w b.degraded
      (evaluate w.now w.rates (snapshot w b) s.funding_state w.funding_config) s

unfoldable pub funding_capture_tick : Tick → LiveState → LiveState
unfolding run_strategy allocate get usage
funding_capture_tick w s =
    if nothing_to_do w s
    then s
    else run_strategy w
        (get "funding_capture" (allocate (equity_of w) (usage w s) w.capital_config)) s
