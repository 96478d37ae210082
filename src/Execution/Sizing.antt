-- ===== src/Execution/Sizing.antt =====
-- src/execution/order_router.py: `_compute_delta`, the order that takes a position to its target.
use hta.Common.{Bool, true, false, not, ◌&&◌, ◌||◌, Option, none, some, if◌then◌else◌}
use hta.Decimal.{
  Decimal, whole, ratio, nought, ◌⊕◌, ◌⊖◌, ◌⊗◌, ◌⊘◌, ◌<?◌, ◌≤?◌, ◌=?◌, magnitude, quantize,
}
use hta.Risk.Types.{Side, buy, sell}
use hta.Strategies.Target.{TargetPosition}
use hta.Execution.Tracker.{TrackedPosition}
use hta.Execution.RouterState.{Market}

-- `None` of `_compute_delta`, without a quote or without a difference; or the order that is needed.
pub data Delta : Type 0 where
  no_quote no_order : Delta
  order : Side → Decimal → Decimal → Bool → Delta

abbrev pub side_of : Bool → Side
side_of true = buy
side_of false = sell

-- `reduce_only` of the order that takes the position from `current` to `target`.
unfoldable pub reduces : Decimal → Decimal → Bool → Bool
reduces current target buying =
    not (current =? nought)
    && ((nought <? current && not buying && magnitude target <? magnitude current)
        || (current <? nought && buying && magnitude target <? magnitude current))
    && nought ≤? target ⊗ current

unfoldable pub target_size_of : Decimal → Decimal → Decimal → Decimal
target_size_of notional bid ask =
    let ref_price = (bid ⊕ ask) ⊘ whole 2 in
    if nought <? ref_price then notional ⊘ ref_price else nought

unfoldable pub current_size : Option TrackedPosition → Decimal
current_size none = nought
current_size (some p) = p.size

unfoldable pub delta_at : Decimal → Option TrackedPosition → Decimal → Decimal → Delta
unfolding reduces target_size_of current_size
delta_at notional current bid ask =
    let target = target_size_of notional bid ask in
    let delta = quantize (target ⊖ current_size current) in
    let buying = nought <? delta in
    if delta =? nought
    then no_order
    else order (side_of buying) (magnitude delta) (if buying then bid else ask)
        (reduces (current_size current) target buying)

unfoldable pub compute_delta : Market → TargetPosition → Option TrackedPosition → Delta
unfolding delta_at
compute_delta m target current = elim (m.best_bid target.symbol) [
  | none ↦ no_quote
  | some bid ↦ elim (m.best_ask target.symbol) [
    | none ↦ no_quote
    | some ask ↦ delta_at target.notional current bid ask
  ]
]

-- 0.003 of the notional.
unfoldable pub estimated_risk_dollars : Decimal → Decimal → Decimal
estimated_risk_dollars size price = size ⊗ price ⊗ ratio 3 999
