-- ===== src/Execution/Router.antt =====
-- src/execution/order_router.py: how `OrderRouter` checks an order and sends it.
pub mod Sending
pub mod Limits
use hta.Common.{
  ℕ, String, Bool, true, false, Option, none, some, List, [], ◌∷◌, ◌++◌, map, keep, same,
  if◌then◌else◌,
}
use hta.Decimal.{Decimal, whole, nought, ◌⊕◌, ◌⊖◌, ◌<?◌, ◌≤?◌}
use hta.Dict.{put, number_key}
use hta.Risk.Types.{
  Side, buy, alo, Decision, approved, rejected, OrderIntent, Position, OpenOrder, AccountState,
  default_caps,
}
use hta.Risk.PostFill.{is_buy}
use hta.Risk.Manager.{check_order}
use hta.Strategies.Target.{TargetPosition}
use hta.Execution.Tracker.{
  TrackedPosition, TrackedOrder, get_position, positions_of, open_orders_of,
}
use hta.Execution.RouterState.{
  SubmittedOrder, Request, OrderResult, Entry, order_blocked, order_skipped, order_rejected_by_risk,
  order_submitted, order_submitted_after_retry, order_failed, order_abandoned, Router, Market, logs,
}
use hta.Execution.Sizing.{Delta, no_quote, no_order, order, compute_delta, estimated_risk_dollars}

abbrev pub to_position : TrackedPosition → Position
to_position p = record {
  symbol = p.symbol;
  size = p.size;
  mark_price = p.mark_price;
  liq_price = p.liq_price;
  strategy = none;
}

abbrev pub to_open_order : TrackedOrder → OpenOrder
to_open_order o = record {
  symbol = o.symbol;
  side = buy;
  size = o.size;
  price = o.price;
  strategy = none;
}

unfoldable pub trim : Market → Router → List Decimal
trim m r = keep (λ t. m.time ⊖ whole 60 ≤? t) r.recent_submissions

-- The fields that are not named keep the defaults of `AccountState`.
unfoldable pub build_account_state : Market → Router → AccountState
unfolding trim positions_of open_orders_of
build_account_state m r = record {
  equity = if nought <? m.tracker.equity then m.tracker.equity else whole 1;
  free_margin = m.tracker.free_margin;
  positions = map to_position (positions_of m.tracker);
  open_orders = map to_open_order (open_orders_of m.tracker);
  recent_order_timestamps = trim m r;
  daily_pnl = nought;
  weekly_pnl = nought;
  consecutive_losers = 0;
  loss_pause_until = none;
  halted = m.halted;
  now = m.time;
  caps = default_caps;
}

abbrev pub request_of : OrderIntent → Request
request_of i = record {
  symbol = i.symbol;
  buys = is_buy i.side;
  size = i.size;
  price = i.price;
  reduce_only = i.reduce_only;
}

abbrev sends : Router → Request → Router
sends r q = record r { sent = r.sent ++ q ∷ [] }

-- `_record_submission`, the journal's entry and `_publish_fill`.
unfoldable pub recorded : Market → OrderIntent → ℕ → (OrderIntent → ℕ → Entry) → Router → Router
unfolding put
recorded m i oid entry r = record r {
  submitted =
      put oid
        (record {
          oid = oid;
          symbol = i.symbol;
          buys = is_buy i.side;
          size = i.size;
          price = i.price;
          submitted_at_monotonic = m.clock;
        })
        r.submitted;
  recent_submissions = r.recent_submissions ++ m.time ∷ [];
  journal = r.journal ++ entry i oid ∷ [];
  fills = if m.bus_wired then r.fills ++ (i, oid) ∷ [] else r.fills;
}

-- `result.accepted and result.oid is not None`
abbrev pub resting : OrderResult → Option ℕ
resting result = if result.accepted then result.oid else none

abbrev pub would_take : OrderResult → Bool
would_take result = elim result.error_code [ none ↦ false | some e ↦ same e "alo_would_take" ]

-- The intent with one tick of price improvement.
unfoldable pub improved : Market → OrderIntent → OrderIntent
improved m i = record i {
  price = if is_buy i.side then i.price ⊖ m.tick_size i.symbol else i.price ⊕ m.tick_size i.symbol;
}

-- The second attempt, after the error of the first.
unfoldable pub retry : Market → OrderIntent → Option String → Router → Router
retry m i first_error r =
    let i' = improved m i in
    let result = m.submit_alo (request_of i') in
    let r' = sends r (request_of i') in
    elim (resting result) [
      | some oid ↦ recorded m i' oid order_submitted_after_retry r'
      | none ↦ logs r' (order_abandoned i.symbol first_error result.error_code)
    ]

unfoldable pub send_alo_with_retry : Market → OrderIntent → Router → Router
send_alo_with_retry m i r =
    let result = m.submit_alo (request_of i) in
    let r' = sends r (request_of i) in
    elim (resting result) [
      | some oid ↦ recorded m i oid order_submitted r'
      | none ↦
          if would_take result
          then retry m i result.error_code r'
          else logs r' (order_failed i.symbol result.error_code result.raw)
    ]

-- The intent for an order that is needed.
abbrev pub intent_of : TargetPosition → String → Side → Decimal → Decimal → Bool → OrderIntent
intent_of target strategy side size price reduce_only = record {
  symbol = target.symbol;
  side = side;
  size = size;
  price = price;
  order_type = alo;
  reduce_only = reduce_only;
  strategy = strategy;
  risk_dollars = estimated_risk_dollars size price;
}

-- The risk check of an intent, and what follows its decision.
unfoldable pub submit_intent : Market → OrderIntent → Router → Router
submit_intent m i r =
    let r' = record r { recent_submissions = trim m r } in
    elim (check_order i (build_account_state m r)) [
      | rejected code reason ↦ logs r' (order_rejected_by_risk i code reason)
      | approved ↦ send_alo_with_retry m i r'
    ]

-- What `submit_target` does with the order that is needed.
unfoldable pub act : Market → TargetPosition → String → Delta → Router → Router
act m target strategy no_quote r = logs r (order_skipped target.symbol)
act m target strategy no_order r = r
act m target strategy (order side size price reduce_only) r =
    submit_intent m (intent_of target strategy side size price reduce_only) r

unfoldable pub submit_target : Market → TargetPosition → String → Router → Router
submit_target m target strategy r =
    if m.halted
    then logs r (order_blocked target.symbol)
    else act m target strategy (compute_delta m target (get_position m.tracker target.symbol)) r
