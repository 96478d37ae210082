-- ===== src/Risk/Types.antt =====
-- src/risk/manager.py: orders, positions, caps and the account state. Epoch seconds, which are floats,
-- are exact numbers, and the reason of a rejection is the pieces of its f-string.
use hta.Common.{ℕ, String, Bool, false, Option, none, List, []}
use hta.Decimal.{Decimal, ratio, nought}
use hta.Formatted.{Text}

pub data Side : Type 0 where
  buy sell : Side

pub data OrderType : Type 0 where
  alo gtc ioc market : OrderType

-- `APPROVED`, or a `Rejected` with its code and reason.
pub data Decision : Type 0 where
  approved : Decision
  rejected : String → Text → Decision

pub record OrderIntent : Type 0 where
  pub symbol : String
  pub side : Side
  pub size : Decimal
  pub price : Decimal
  pub order_type : OrderType
  pub reduce_only : Bool
  pub strategy : String
  pub risk_dollars : Decimal

pub record Position : Type 0 where
  pub symbol : String
  pub size : Decimal  -- signed: positive long, negative short
  pub mark_price : Decimal
  pub liq_price : Option Decimal
  pub strategy : Option String

pub record OpenOrder : Type 0 where
  pub symbol : String
  pub side : Side
  pub size : Decimal
  pub price : Decimal
  pub strategy : Option String

pub record RiskCaps : Type 0 where
  pub max_risk_per_trade_pct : Decimal
  pub max_position_notional_pct : Decimal
  pub max_account_leverage : Decimal
  pub liquidation_buffer_pct : Decimal
  pub max_concurrent_positions : ℕ
  pub max_open_orders : ℕ
  pub max_orders_per_minute : ℕ
  pub daily_loss_limit_pct : Decimal
  pub weekly_loss_limit_pct : Decimal
  pub consecutive_losers_pause : ℕ
  pub consecutive_losers_pause_seconds : ℕ

abbrev pub default_caps : RiskCaps
default_caps = record {
  max_risk_per_trade_pct = ratio 5 999;
  max_position_notional_pct = ratio 30 99;
  max_account_leverage = ratio 30 9;
  liquidation_buffer_pct = ratio 8 99;
  max_concurrent_positions = 2;
  max_open_orders = 6;
  max_orders_per_minute = 20;
  daily_loss_limit_pct = ratio 2 99;
  weekly_loss_limit_pct = ratio 5 99;
  consecutive_losers_pause = 3;
  consecutive_losers_pause_seconds = 3600;
}

pub record AccountState : Type 0 where
  pub equity : Decimal
  pub free_margin : Decimal
  pub positions : List Position
  pub open_orders : List OpenOrder
  pub recent_order_timestamps : List Decimal
  pub daily_pnl : Decimal
  pub weekly_pnl : Decimal
  pub consecutive_losers : ℕ
  pub loss_pause_until : Option Decimal
  pub halted : Bool
  pub now : Decimal
  pub caps : RiskCaps

-- An account with the defaults of the dataclass.
abbrev pub default_state : Decimal → Decimal → AccountState
default_state equity free_margin = record {
  equity = equity;
  free_margin = free_margin;
  positions = [];
  open_orders = [];
  recent_order_timestamps = [];
  daily_pnl = nought;
  weekly_pnl = nought;
  consecutive_losers = 0;
  loss_pause_until = none;
  halted = false;
  now = nought;
  caps = default_caps;
}
