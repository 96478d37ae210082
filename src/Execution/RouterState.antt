-- ===== src/Execution/RouterState.antt =====
-- src/execution/order_router.py: the state of `OrderRouter`. The adapter, the tick service and the clocks
-- answer from `Market`; the calls on the exchange and the journal's entries are lists, oldest first.
use hta.Common.{ℕ, String, Bool, Option, List, [], ◌∷◌, ◌++◌}
use hta.Decimal.{Decimal}
use hta.Formatted.{Text}
use hta.Dict.{Dict}
use hta.Risk.Types.{OrderIntent}
use hta.Risk.KillSwitch.{Answer}
use hta.Execution.Tracker.{PositionTracker}

pub record SubmittedOrder : Type 0 where
  pub oid : ℕ
  pub symbol : String
  pub buys : Bool
  pub size : Decimal
  pub price : Decimal
  pub submitted_at_monotonic : Decimal

-- The arguments of `submit_alo`.
pub record Request : Type 0 where
  pub symbol : String
  pub buys : Bool
  pub size : Decimal
  pub price : Decimal
  pub reduce_only : Bool

-- `OrderResult` of src/execution/exchange_adapter.py.
pub record OrderResult : Type 0 where
  pub accepted : Bool
  pub oid : Option ℕ
  pub error_code : Option String
  pub raw : String

pub data Entry : Type 0 where
  order_blocked : String → Entry
  order_skipped : String → Entry
  order_rejected_by_risk : OrderIntent → String → Text → Entry
  order_submitted order_submitted_after_retry : OrderIntent → ℕ → Entry
  order_failed : String → Option String → String → Entry
  order_abandoned : String → Option String → Option String → Entry
  cancel_failed : String → ℕ → String → Entry
  order_cancelled_stale : String → ℕ → Decimal → Entry

pub record Router : Type 0 where
  pub submitted : Dict ℕ SubmittedOrder
  pub recent_submissions : List Decimal
  pub sent : List Request
  pub journal : List Entry
  pub fills : List (OrderIntent × ℕ)  -- published on the bus

-- What the router reads during one call.
pub record Market : Type 0 where
  pub halted : Bool
  pub tracker : PositionTracker
  pub tick_size : String → Decimal
  pub best_bid : String → Option Decimal
  pub best_ask : String → Option Decimal
  pub submit_alo : Request → OrderResult
  pub cancels : String → ℕ → Answer (Unit {0})
  pub stale_seconds : Decimal
  pub time : Decimal  -- `time.time()`
  pub clock : Decimal  -- the monotonic clock
  pub bus_wired : Bool

abbrev pub logs : Router → Entry → Router
logs r e = record r { journal = r.journal ++ e ∷ [] }
