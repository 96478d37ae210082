-- ===== src/Execution/Router/Limits.antt =====
-- The loss limits of RISK.md in the account state that the router builds.
use hta.Common.{
  ℕ, String, ◌≡◌, refl, ◌||◌, ◌&&◌, leb, same, ◌<◌, List, [], ◌∷◌, Bool, false, arith, Bool-cases,
  inl, inr,
}
use native.Mathlib.Nat.{mul-le-mul_left}
use hta.Decimal.{Decimal, nought, opposite, ratio, ◌⊗◌, ◌<?◌, ◌≤?◌}
use hta.Decimal.Order.{◌≺◌, ≺_cross}
use hta.Risk.Types.{Decision, approved, rejected, OrderIntent, Position, RiskCaps, AccountState}
use hta.Risk.PostFill.{check_buffers}
use hta.Risk.Manager.{is_before, check_trade, check_order}
use hta.Execution.RouterState.{Router, Market}
use hta.Execution.Router.{build_account_state}

unfoldable pub is_loss_code : String → Bool
is_loss_code code =
    same code "daily_loss_limit"
    || same code "weekly_loss_limit"
    || same code "consecutive_losers_pause"

-- A rejection for losses or for a pause after losses.
abbrev pub is_loss_rejection : Decision → Bool
is_loss_rejection approved = false
is_loss_rejection (rejected code reason) = is_loss_code code

positive_share : (n k : ℕ) (e : Decimal) → 0 < n → nought ≺ e → opposite nought ≺ ratio n k ⊗ e
unfolding ◌⊗◌
positive_share n k e pos h =
    (≺_cross (opposite nought) (ratio n k ⊗ e)).1
      (omega (arith, mul-le-mul_left n ((≺_cross nought e).0 h)))

buffer_code : is_loss_code "liquidation_buffer" ≡ false
unfolding is_loss_code
buffer_code = refl

trade_codes :
    (is_loss_code "bad_intent" ≡ false)
    × (is_loss_code "max_risk_per_trade" ≡ false)
    × (is_loss_code "max_position_notional" ≡ false)
    × (is_loss_code "max_concurrent_positions" ≡ false)
    × (is_loss_code "max_leverage" ≡ false)
unfolding is_loss_code
trade_codes = (refl, refl, refl, refl, refl)

account_codes :
    (is_loss_code "halted" ≡ false)
    × (is_loss_code "no_equity" ≡ false)
    × (is_loss_code "rate_limit" ≡ false)
    × (is_loss_code "max_open_orders" ≡ false)
unfolding is_loss_code
account_codes = (refl, refl, refl, refl)

check_buffers-is_loss_rejection :
    (caps : RiskCaps) (ps : List Position) → is_loss_rejection (check_buffers caps ps) ≡ false
unfolding check_buffers
check_buffers-is_loss_rejection caps [] = refl
check_buffers-is_loss_rejection caps (p ∷ ps) =
    ground (arith, buffer_code, check_buffers-is_loss_rejection caps ps)

check_trade-is_loss_rejection :
    (i : OrderIntent) (s : AccountState) → is_loss_rejection (check_trade i s) ≡ false
unfolding check_trade
check_trade-is_loss_rejection i s =
    ground (arith, trade_codes, check_buffers-is_loss_rejection s.caps s.positions)

equity_pos : (m : Market) (r : Router) → nought ≺ (build_account_state m r).equity
unfolding build_account_state
equity_pos m r = elim (Bool-cases (nought <? m.tracker.equity)) [
  | inl h ↦ rw h h
  | inr h ↦ rw h (unfold ◌<?◌ in refl)
]

daily_open :
    (m : Market) (r : Router)
    → ((ratio 2 99 ⊗ (build_account_state m r).equity) ≤? opposite nought) ≡ false
daily_open m r =
    ground
      (arith, positive_share 2 99 (build_account_state m r).equity (omega arith) (equity_pos m r))

weekly_open :
    (m : Market) (r : Router)
    → ((ratio 5 99 ⊗ (build_account_state m r).equity) ≤? opposite nought) ≡ false
weekly_open m r =
    ground
      (arith, positive_share 5 99 (build_account_state m r).equity (omega arith) (equity_pos m r))

paused_open :
    (m : Market) (r : Router)
    → (let s = build_account_state m r in
        leb s.caps.consecutive_losers_pause s.consecutive_losers
        && is_before s.now s.loss_pause_until)
      ≡ false
unfolding build_account_state
paused_open m r = refl

check_order-is_loss_rejection :
    (i : OrderIntent) (s : AccountState)
    → (s.caps.daily_loss_limit_pct ⊗ s.equity ≤? opposite s.daily_pnl) ≡ false
    → (s.caps.weekly_loss_limit_pct ⊗ s.equity ≤? opposite s.weekly_pnl) ≡ false
    → (leb s.caps.consecutive_losers_pause s.consecutive_losers
        && is_before s.now s.loss_pause_until)
      ≡ false
    → is_loss_rejection (check_order i s) ≡ false
unfolding check_order
check_order-is_loss_rejection i s hd hw hp =
    ground (arith, account_codes, check_trade-is_loss_rejection i s)

-- The router rejects no order for losses: its account state carries no profit or loss, no losers and no
-- pause, whatever the account has lost, and its equity is positive. So none of the daily limit, the
-- weekly limit and the pause of RISK.md stops an order of the router.
pub check_order_ignores_losses :
    (m : Market) (r : Router) (i : OrderIntent)
    → is_loss_rejection (check_order i (build_account_state m r)) ≡ false
unfolding build_account_state
check_order_ignores_losses m r i =
    check_order-is_loss_rejection i (build_account_state m r) (daily_open m r) (weekly_open m r)
      (paused_open m r)
