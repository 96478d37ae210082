-- ===== src/Risk/Manager.antt =====
-- src/risk/manager.py: `check_order`, the test that every order passes before it is sent.
pub mod Caps
use hta.Common.{
  ℕ, ◌+◌, String, Bool, true, false, not, ◌&&◌, ◌||◌, Option, none, some, List, [], ◌∷◌, ◌++◌, ltb,
  leb, if◌then◌else◌, length,
}
use hta.Decimal.{Decimal, whole, nought, opposite, ◌⊗◌, ◌⊘◌, ◌<?◌, ◌≤?◌, magnitude}
use hta.Formatted.{Text, lit, int, dec, plain}
use hta.Risk.Types.{Decision, approved, rejected, OrderIntent, AccountState}
use hta.Risk.PostFill.{
  position_for, current_size_of, post_fill_size, count_within_last_minute, post_fill_symbols,
  post_fill_notional, check_buffers,
}

-- `x is not None and now < x`
abbrev pub is_before : Decimal → Option Decimal → Bool
is_before now none = false
is_before now (some t) = now <? t

abbrev show_time : Option Decimal → Text
show_time none = plain "None"
show_time (some t) = dec t ∷ []

unfoldable pub new_size_of : OrderIntent → AccountState → Decimal
unfolding post_fill_size position_for
new_size_of i s = post_fill_size i (current_size_of (position_for s.positions i.symbol))

-- The per-trade caps, from "bad_intent" on.
unfoldable pub check_trade : OrderIntent → AccountState → Decision
check_trade i s =
    let new_size = new_size_of i s in
    let new_notional = magnitude new_size ⊗ i.price in
    let notional_cap = s.caps.max_position_notional_pct ⊗ s.equity in
    let symbols = length (post_fill_symbols i s.positions new_size) in
    let leverage = post_fill_notional i s.positions new_size ⊘ s.equity in
    if i.size ≤? nought || i.price ≤? nought
    then rejected "bad_intent" (plain "Order size and price must be positive.")
    else if not i.reduce_only && s.caps.max_risk_per_trade_pct ⊗ s.equity <? i.risk_dollars
    then rejected "max_risk_per_trade" (
        lit "Risk $"
        ∷ dec i.risk_dollars
        ∷ lit " > "
        ∷ dec (s.caps.max_risk_per_trade_pct ⊗ whole 100)
        ∷ lit "% of equity $"
        ∷ dec s.equity
        ∷ lit "."
        ∷ [])
    else if notional_cap <? new_notional
    then rejected "max_position_notional" (
        lit "Post-fill notional $"
        ∷ dec new_notional
        ∷ lit " > cap $"
        ∷ dec notional_cap
        ∷ lit " ("
        ∷ dec (s.caps.max_position_notional_pct ⊗ whole 100)
        ∷ lit "% of equity)."
        ∷ [])
    else if ltb s.caps.max_concurrent_positions symbols
    then rejected "max_concurrent_positions" (
        lit "Post-fill positions "
        ∷ int symbols
        ∷ lit " > cap "
        ∷ int s.caps.max_concurrent_positions
        ∷ lit "."
        ∷ [])
    else if s.caps.max_account_leverage <? leverage
    then rejected "max_leverage" (
        lit "Post-fill account leverage "
        ∷ dec leverage
        ∷ lit " > cap "
        ∷ dec s.caps.max_account_leverage
        ∷ lit "."
        ∷ [])
    else if not i.reduce_only
    then check_buffers s.caps s.positions
    else approved

unfoldable pub check_order : OrderIntent → AccountState → Decision
check_order i s =
    let daily_limit = s.caps.daily_loss_limit_pct ⊗ s.equity in
    let weekly_limit = s.caps.weekly_loss_limit_pct ⊗ s.equity in
    let recent = count_within_last_minute s.recent_order_timestamps s.now in
    if s.halted
    then rejected "halted" (plain "Risk Manager halted; orders rejected.")
    else if s.equity ≤? nought
    then rejected "no_equity" (plain "Account equity is zero or negative.")
    else if daily_limit ≤? opposite s.daily_pnl
    then rejected "daily_loss_limit"
        (lit "Daily loss " ∷ dec s.daily_pnl ∷ lit " <= -" ∷ dec daily_limit ∷ lit "." ∷ [])
    else if weekly_limit ≤? opposite s.weekly_pnl
    then rejected "weekly_loss_limit"
        (lit "Weekly loss " ∷ dec s.weekly_pnl ∷ lit " <= -" ∷ dec weekly_limit ∷ lit "." ∷ [])
    else if leb s.caps.consecutive_losers_pause s.consecutive_losers
        && is_before s.now s.loss_pause_until
    then rejected "consecutive_losers_pause" (
        int s.consecutive_losers
          ∷ lit " losers in a row; paused until "
          ∷ show_time s.loss_pause_until
        ++ plain ".")
    else if leb s.caps.max_orders_per_minute recent
    then rejected "rate_limit" (
        int recent
        ∷ lit " orders in last 60s >= cap "
        ∷ int s.caps.max_orders_per_minute
        ∷ lit "."
        ∷ [])
    else if leb s.caps.max_open_orders (length s.open_orders)
    then rejected "max_open_orders" (
        int (length s.open_orders)
        ∷ lit " open orders >= cap "
        ∷ int s.caps.max_open_orders
        ∷ lit "."
        ∷ [])
    else check_trade i s
