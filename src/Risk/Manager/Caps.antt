-- ===== src/Risk/Manager/Caps.antt =====
-- `check_order` against the contract of RISK.md, stated on the account after the fill.
use hta.Common.{
  ◌≤◌, ◌<◌, ◌≡◌, refl, ◌↔◌, inl, inr, false, some, List, [], ◌∷◌, ◌&&◌, leb, arith, All, length,
  Option-cases,
}
use hta.Decimal.{Decimal, nought, opposite, ◌⊗◌, ◌⊘◌, ◌=?◌, magnitude}
use hta.Decimal.Order.{◌≼◌, ◌≺◌}
use hta.Risk.Types.{approved, OrderIntent, Position, RiskCaps, AccountState}
use hta.Risk.PostFill.{count_within_last_minute, account_notional, buffer, check_buffers}
use hta.Risk.PostFill.Book.{
  after_fill, open_symbols, post_fill_notional-after_fill, post_fill_symbols-after_fill,
}
use hta.Risk.Manager.{is_before, new_size_of, check_trade, check_order}

-- A live position with a liquidation price keeps its distance from it.
abbrev pub IsBuffered : RiskCaps → Position → Type 0
IsBuffered caps p =
    (liq : Decimal)
    → p.liq_price ≡ some liq
    → (p.size =? nought) ≡ false
    → (p.mark_price =? nought) ≡ false
    → caps.liquidation_buffer_pct ≼ buffer p.mark_price liq

-- The caps on one trade, on the book that it leaves.
pub record IsWithinCaps (i : OrderIntent) (s : AccountState) : Type 0 where
  pub sized : nought ≺ i.size
  pub priced : nought ≺ i.price
  pub risk : i.reduce_only ≡ false → i.risk_dollars ≼ s.caps.max_risk_per_trade_pct ⊗ s.equity
  pub notional : magnitude (new_size_of i s) ⊗ i.price ≼ s.caps.max_position_notional_pct ⊗ s.equity
  pub concurrent :
      length (open_symbols [] (after_fill i s.positions (new_size_of i s)))
      ≤ s.caps.max_concurrent_positions
  pub leverage :
      account_notional (after_fill i s.positions (new_size_of i s)) ⊘ s.equity
      ≼ s.caps.max_account_leverage
  pub buffered : i.reduce_only ≡ false → All (IsBuffered s.caps) s.positions

-- The account may trade at all: it is not halted, paused, out of equity or past a limit.
pub record MayTrade (s : AccountState) : Type 0 where
  pub live : s.halted ≡ false
  pub solvent : nought ≺ s.equity
  pub daily : opposite s.daily_pnl ≺ s.caps.daily_loss_limit_pct ⊗ s.equity
  pub weekly : opposite s.weekly_pnl ≺ s.caps.weekly_loss_limit_pct ⊗ s.equity
  pub unpaused :
      (t : Decimal)
      → s.loss_pause_until ≡ some t
      → s.now ≺ t
      → s.consecutive_losers < s.caps.consecutive_losers_pause
  pub rate : count_within_last_minute s.recent_order_timestamps s.now < s.caps.max_orders_per_minute
  pub orders : length s.open_orders < s.caps.max_open_orders

check_buffers-All :
    (caps : RiskCaps) (ps : List Position)
    → check_buffers caps ps ≡ approved
    → All (IsBuffered caps) ps
unfolding check_buffers
check_buffers-All caps [] h = tt
check_buffers-All caps (p ∷ ps) h =
    (λ liq e a b. ground arith, check_buffers-All caps ps (ground arith))

All-check_buffers :
    (caps : RiskCaps) (ps : List Position)
    → All (IsBuffered caps) ps
    → check_buffers caps ps ≡ approved
unfolding check_buffers
All-check_buffers caps [] h = refl
All-check_buffers caps (p ∷ ps) h = elim (Option-cases p.liq_price) [
  | inl e ↦ rw e (All-check_buffers caps ps h.1)
  | inr (liq, e) ↦ ground (◌&&◌, leb, arith, All-check_buffers caps ps h.1, h.0 liq e)
]

check_trade-IsWithinCaps :
    (i : OrderIntent) (s : AccountState) → check_trade i s ≡ approved → IsWithinCaps i s
unfolding check_trade
check_trade-IsWithinCaps i s h = record {
  sized = ground arith;
  priced = ground arith;
  risk = ground arith;
  notional = ground arith;
  concurrent = ground (arith, post_fill_symbols-after_fill i s.positions (new_size_of i s));
  leverage = ground (arith, post_fill_notional-after_fill i s.positions (new_size_of i s));
  buffered = λ e. check_buffers-All s.caps s.positions (ground arith);
}

IsWithinCaps-check_trade :
    (i : OrderIntent) (s : AccountState) → IsWithinCaps i s → check_trade i s ≡ approved
unfolding check_trade
IsWithinCaps-check_trade i s h = ground (
  arith,
  post_fill_symbols-after_fill i s.positions (new_size_of i s),
  post_fill_notional-after_fill i s.positions (new_size_of i s),
  h.sized,
  h.priced,
  h.risk,
  h.notional,
  h.concurrent,
  h.leverage,
  λ (e : i.reduce_only ≡ false). All-check_buffers s.caps s.positions (h.buffered e),
)

unpaused_test :
    (s : AccountState)
    → MayTrade s
    → (leb s.caps.consecutive_losers_pause s.consecutive_losers
        && is_before s.now s.loss_pause_until)
      ≡ false
unpaused_test s h = elim (Option-cases s.loss_pause_until) [
  | inl e ↦ rw e (ground arith)
  | inr (t, e) ↦ rw e (ground (arith, h.unpaused t e))
]

-- An order is approved exactly when the account may trade and the book that the order leaves is within
-- every cap: no halt, no loss limit, pause or rate limit in force, and risk, notional, number of open
-- symbols, leverage and liquidation buffers within bounds.
pub check_order-approved :
    (i : OrderIntent) (s : AccountState)
    → (check_order i s ≡ approved) ↔ (MayTrade s × IsWithinCaps i s)
unfolding check_order
check_order-approved i s = (
  λ h. (
    record {
      live = ground arith;
      solvent = ground arith;
      daily = ground arith;
      weekly = ground arith;
      unpaused = λ t e b. ground arith;
      rate = ground arith;
      orders = ground arith;
    },
    check_trade-IsWithinCaps i s (ground arith),
  ),
  λ (may, within). ground (
    arith,
    unpaused_test s may,
    IsWithinCaps-check_trade i s within,
    may.live,
    may.solvent,
    may.daily,
    may.weekly,
    may.rate,
    may.orders,
  ),
)
