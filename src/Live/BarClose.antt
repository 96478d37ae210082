-- ===== src/Live/BarClose.antt =====
-- src/main.py: `_maybe_evaluate_symbol` of `LiveSystem`, the step from a closed bar to an order of
-- strategy A. A symbol without a state raises a `KeyError` before anything has changed; the loop around
-- the method logs it.
pub mod Once
use hta.Common.{
  ℕ, suc, ◌+◌, String, Bool, true, false, not, ◌&&◌, Option, none, some, List, [], ◌∷◌, ◌++◌, map,
  ◌==◌, if◌then◌else◌,
}
use hta.Decimal.{Decimal, whole, nought, ◌⊕◌, ◌<?◌, ◌=?◌, magnitude}
use hta.Dict.{Dict, get, put, string_key}
use hta.Formatted.{Text}
use hta.Risk.KillSwitch.{Answer, OpenOrderRef}
use hta.Strategies.Target.{TargetPosition}
use hta.Strategies.Capture.{FundingCaptureSymbolState}
use hta.Strategies.Reversion.{StrategyPosition, MeanReversionConfig, Features, evaluate}
use hta.Marketdata.Candles.{Bar}
use hta.Execution.Tracker.{UserState, TrackedPosition, PositionTracker, refresh, get_position}
use hta.Execution.RouterState.{Router, Market}
use hta.Execution.Router.{submit_target}
use hta.Execution.Allocator.{CapitalAllocatorConfig, StrategyAllocation, sum_from, allocate}

pub record SymbolState : Type 0 where
  pub last_closed_bar_open_ms : Option ℕ
  pub entry_open_ms : Option ℕ
  pub entry_price : Decimal
  pub bars_held : ℕ

-- The entries that the step appends to the journal itself.
pub data SignalEntry : Type 0 where
  signal : String → ℕ → TargetPosition → Option TrackedPosition → SignalEntry
  signal_suppressed : String → Decimal → Decimal → SignalEntry

-- The part of `LiveSystem` that the step changes.
pub record TraderState : Type 0 where
  pub symbol_state : Dict String SymbolState
  pub tracker : PositionTracker
  pub router : Router
  pub a_used_notional : Decimal
  pub signals : List SignalEntry

-- What the step reads. The router sees `market` with the tracker as it is by then.
pub record Surroundings : Type 0 where
  pub market : Market
  pub features : Features
  pub config : MeanReversionConfig
  pub user_state : Answer UserState
  pub open_orders : Answer (List OpenOrderRef)
  pub funding_state : Dict String FundingCaptureSymbolState
  pub capital_config : Option CapitalAllocatorConfig

-- The last bar but one, which is the latest that is closed.
unfoldable pub closed_bar : List Bar → Option Bar
closed_bar [] = none
closed_bar (b ∷ []) = none
closed_bar (b ∷ c ∷ []) = some b
closed_bar (b ∷ c ∷ d ∷ bs) = closed_bar (c ∷ d ∷ bs)

-- `df.iloc[:-1]`
unfoldable pub completed : List Bar → List Bar
completed [] = []
completed (b ∷ []) = []
completed (b ∷ c ∷ bs) = b ∷ completed (c ∷ bs)

-- A position that is not flat.
abbrev pub live_position : Option TrackedPosition → Option TrackedPosition
live_position none = none
live_position (some p) = if p.size =? nought then none else some p

abbrev pub or_price : Decimal → Decimal → Decimal
or_price x y = if x =? nought then y else x

-- The state of a symbol while a position is held, from the bar of entry on.
unfoldable pub counted : ℕ → TrackedPosition → SymbolState → SymbolState
counted closed p st = elim st.entry_open_ms [
  | none ↦ record st { entry_open_ms = some closed; entry_price = p.entry_price; bars_held = 0 }
  | some _ ↦ record st { bars_held = suc st.bars_held }
]

-- The new state of the symbol at the close of a bar, and the position that the strategy is shown.
unfoldable pub observe :
    String → ℕ → Option TrackedPosition → SymbolState → SymbolState × Option StrategyPosition
unfolding counted
observe symbol closed tracked st =
    let st' = record st { last_closed_bar_open_ms = some closed } in
    elim (live_position tracked) [
      | none ↦ (record st' { entry_open_ms = none; bars_held = 0 }, none)
      | some p ↦
          let st'' = counted closed p st' in
          (
            st'',
            some (record {
              symbol = symbol;
              size = p.size;
              entry_price = or_price st''.entry_price p.entry_price;
              bars_held = st''.bars_held;
            }),
          )
    ]

abbrev pub equity_or_default : PositionTracker → Decimal
equity_or_default t = if nought <? t.equity then t.equity else whole 1500

-- The allocation of strategy A.
unfoldable pub a_allocation : Surroundings → TraderState → Option StrategyAllocation
unfolding sum_from allocate get
a_allocation w s = get "mean_reversion" (
    allocate (equity_or_default s.tracker)
      (("mean_reversion", s.a_used_notional)
        ∷ (
          "funding_capture",
          sum_from nought (map (λ e. magnitude e.1.target_notional) w.funding_state),
        )
        ∷ [])
      w.capital_config)

-- The target is more than the strategy's allocation.
abbrev pub exceeds : TargetPosition → Option StrategyAllocation → Option StrategyAllocation
exceeds target none = none
exceeds target (some a) =
    if a.available_notional ⊕ a.used_notional <? magnitude target.notional then some a else none

-- The step after the refresh.
unfoldable pub route : Surroundings → TargetPosition → TraderState → TraderState
unfolding a_allocation submit_target
route w target s = elim (exceeds target (a_allocation w s)) [
  | some a ↦ record s {
    signals =
        s.signals ++ signal_suppressed target.symbol target.notional a.available_notional ∷ [];
  }
  | none ↦ record s {
    router =
        submit_target (record w.market { tracker = s.tracker }) target "mean_reversion" s.router;
    a_used_notional = magnitude target.notional;
  }
]

-- The target that strategy A has for the closed bar.
unfoldable pub target_at :
    Surroundings → String → List Bar → Option StrategyPosition → PositionTracker → TargetPosition
unfolding completed evaluate
target_at w symbol candles sp t =
    evaluate w.features symbol (some (map (λ b. b.close) (completed candles))) sp
      (equity_or_default t) w.config

-- The step from the refresh on, with the answers of the exchange.
unfoldable pub refreshed_route : Surroundings → TargetPosition → TraderState → TraderState
unfolding refresh route
refreshed_route w target s =
    let (t, exc) = refresh w.user_state w.open_orders s.tracker in
    elim exc [
      | some _ ↦ record s { tracker = t }
      | none ↦ route w target (record s { tracker = t })
    ]

-- The step for a bar that has not been evaluated.
unfoldable pub evaluate_bar :
    Surroundings → String → List Bar → ℕ → SymbolState → TraderState → TraderState
unfolding observe target_at refreshed_route get_position put
evaluate_bar w symbol candles closed st s =
    let tracked = get_position s.tracker symbol in
    let (st', sp) = observe symbol closed tracked st in
    let target = target_at w symbol candles sp s.tracker in
    refreshed_route w target (record s {
      symbol_state = put symbol st' s.symbol_state;
      signals = s.signals ++ signal symbol closed target tracked ∷ [];
    })

abbrev pub is_handled : ℕ → SymbolState → Bool
is_handled closed st = elim st.last_closed_bar_open_ms [ none ↦ false | some t ↦ t == closed ]

-- The step for a symbol whose latest closed bar opened at `closed`.
unfoldable pub evaluate_once :
    Surroundings → String → List Bar → ℕ → Option SymbolState → TraderState → TraderState
unfolding evaluate_bar
evaluate_once w symbol candles closed none s = s
evaluate_once w symbol candles closed (some st) s =
    if is_handled closed st then s else evaluate_bar w symbol candles closed st s

-- The step with the latest closed bar, where there is one.
unfoldable pub evaluate_closed :
    Surroundings → String → List Bar → Option Bar → TraderState → TraderState
unfolding evaluate_once get
evaluate_closed w symbol candles none s = s
evaluate_closed w symbol candles (some b) s =
    evaluate_once w symbol candles b.open_time_ms (get symbol s.symbol_state) s

unfoldable pub maybe_evaluate_symbol : Surroundings → String → List Bar → TraderState → TraderState
unfolding closed_bar evaluate_closed
maybe_evaluate_symbol w symbol candles s =
    if w.market.halted then s else evaluate_closed w symbol candles (closed_bar candles) s
