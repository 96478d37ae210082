-- ===== src/Tests/Trading.antt =====
-- The order router and the allocator on concrete markets.
use hta.Common.{
  ℕ, String, ◌≡◌, refl, true, false, none, some, [], ◌∷◌, ◌++◌, All, ◌==◌, any, if◌then◌else◌,
}
use hta.Decimal.{
  Decimal, whole, ratio, nought, ◌⊕◌, ◌⊖◌, ◌⊗◌, inverse, ◌<?◌, ◌=?◌, magnitude, quantize,
}
use hta.Formatted.{plain}
use hta.Dict.{Dict, number_key, get, put, pop, keys, values}
use hta.Risk.KillSwitch.{returns, raises}
use hta.Risk.Types.{buy, alo, OrderIntent}
use hta.Risk.PostFill.{
  signed_size_delta, position_for, reduced_size, post_fill_size, count_within_last_minute,
  add_symbol, collect_symbols, sum_notionals, post_fill_symbols, post_fill_notional, check_buffers,
}
use hta.Risk.Manager.{new_size_of, check_trade, check_order}
use hta.Strategies.Target.{TargetPosition}
use hta.Execution.Tracker.{
  PositionTracker, get_position, positions_of, open_orders_of, empty_tracker,
}
use hta.Execution.RouterState.{SubmittedOrder, Request, Router, Market}
use hta.Execution.Sizing.{
  reduces, target_size_of, current_size, delta_at, compute_delta, estimated_risk_dollars,
}
use hta.Execution.Router.{
  trim, build_account_state, recorded, improved, retry, send_alo_with_retry, submit_intent, act,
  submit_target,
}
use hta.Execution.Router.Sending.{requests, submit_target-sent}
use hta.Execution.Router.Limits.{is_loss_rejection, check_order_ignores_losses}
use hta.Execution.StaleOrders.{
  settle, cancel_each, cancel_stale_orders, is_cancelled, get-cancel_stale_orders,
}
use hta.Execution.Allocator.{default_config, allocate}
use hta.Execution.Allocator.Budget.{IsWithinBudget, allocate-IsWithinBudget}

abbrev tracker : PositionTracker
tracker = record empty_tracker { equity = whole 1500; free_margin = whole 1500 }

-- An exchange on which an order at the touch would take, and one a tick lower rests.
abbrev market : Market
market = record {
  halted = false;
  tracker = tracker;
  tick_size = λ symbol. whole 1;
  best_bid = λ symbol. some (whole 100);
  best_ask = λ symbol. some (whole 100);
  submit_alo = λ q.
      if q.price =? whole 100
      then record { accepted = false; oid = none; error_code = some "alo_would_take"; raw = "" }
      else record { accepted = true; oid = some 7; error_code = none; raw = "" };
  cancels = λ symbol oid. if oid == 1 then raises "TimeoutError()" else returns tt;
  stale_seconds = whole 60;
  time = whole 1000;
  clock = whole 100;
  bus_wired = true;
}

abbrev target : TargetPosition
target = record { symbol = "SOL"; notional = whole 200; reason = plain "long" }

abbrev router : Router
router = record { submitted = []; recent_submissions = []; sent = []; journal = []; fills = [] }

abbrev asks : Decimal → Decimal → Request
asks size price = record {
  symbol = "SOL";
  buys = true;
  size = size;
  price = price;
  reduce_only = false;
}

two_requests :
    (submit_target market target "mean_reversion" router).sent
    ≡ asks (ratio 200000000 99999999) (whole 100)
      ∷ asks (ratio 200000000 99999999) (whole 100 ⊖ whole 1)
      ∷ []
unfolding submit_target act submit_intent send_alo_with_retry retry recorded improved trim
    build_account_state compute_delta delta_at reduces target_size_of current_size
    estimated_risk_dollars get_position positions_of open_orders_of get put check_order check_trade
    new_size_of post_fill_size signed_size_delta reduced_size position_for post_fill_symbols
    collect_symbols add_symbol post_fill_notional sum_notionals check_buffers
    count_within_last_minute ◌⊕◌ ◌⊗◌ inverse ◌<?◌ ◌=?◌ magnitude quantize
two_requests = refl

submit_target-sent_example :
    (submit_target market target "mean_reversion" router).sent
    ≡ []
      ++ (if market.halted
          then []
          else requests market router target "mean_reversion"
              (compute_delta market target (get_position market.tracker target.symbol)))
submit_target-sent_example = submit_target-sent market target "mean_reversion" router

-- An order for far too much is rejected, and not for losses.
abbrev huge : OrderIntent
huge = record {
  symbol = "SOL";
  side = buy;
  size = whole 1000;
  price = whole 100;
  order_type = alo;
  reduce_only = false;
  strategy = "mean_reversion";
  risk_dollars = whole 300;
}

check_order_ignores_losses_example :
    is_loss_rejection (check_order huge (build_account_state market router)) ≡ false
check_order_ignores_losses_example = check_order_ignores_losses market router huge

abbrev submitted_at : ℕ → ℕ → SubmittedOrder
submitted_at oid time = record {
  oid = oid;
  symbol = "SOL";
  buys = true;
  size = whole 1;
  price = whole 100;
  submitted_at_monotonic = whole time;
}

-- Two stale orders, of which the first is not cancelled, and a young one.
abbrev resting_orders : Router
resting_orders = record router {
  submitted = (1, submitted_at 1 10) ∷ (2, submitted_at 2 20) ∷ (3, submitted_at 3 90) ∷ [];
}

one_cancelled : keys (cancel_stale_orders market resting_orders).submitted ≡ 1 ∷ 3 ∷ []
unfolding cancel_stale_orders cancel_each settle pop ◌⊕◌ ◌<?◌
one_cancelled = refl

get-cancel_stale_orders_example : get 2 (cancel_stale_orders market resting_orders).submitted ≡ (
    if any (is_cancelled market 2) resting_orders.submitted
    then none
    else get 2 resting_orders.submitted)
get-cancel_stale_orders_example = get-cancel_stale_orders market 2 resting_orders

abbrev usage : Dict String Decimal
usage = ("mean_reversion", whole 100) ∷ ("funding_capture", whole 900) ∷ []

positive : (nought <? whole 1500) ≡ true
unfolding ◌<?◌
positive = refl

allocate-IsWithinBudget_example :
    All
      (IsWithinBudget (whole 1500) usage default_config)
      (values (allocate (whole 1500) usage (some default_config)))
    × (keys (allocate (whole 1500) usage (some default_config))
        ≡ keys default_config.strategy_max_pct)
allocate-IsWithinBudget_example = allocate-IsWithinBudget (whole 1500) usage default_config positive
