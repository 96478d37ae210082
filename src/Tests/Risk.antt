-- ===== src/Tests/Risk.antt =====
-- src/risk on concrete orders, books and services.
use hta.Common.{◌≡◌, refl, ◌↔◌, true, false, none, some, [], ◌∷◌, ◌++◌, ◌==◌, if◌then◌else◌}
use hta.Decimal.{whole, ratio, nought, opposite, ◌⊕◌, ◌⊗◌, inverse, ◌<?◌, ◌=?◌, magnitude}
use hta.Formatted.{plain}
use hta.Risk.Types.{buy, alo, approved, OrderIntent, Position, AccountState, default_state}
use hta.Risk.PostFill.{
  signed_size_delta, position_for, reduced_size, post_fill_size, count_within_last_minute,
  add_symbol, collect_symbols, sum_notionals, post_fill_symbols, post_fill_notional, check_buffers,
}
use hta.Risk.PostFill.Reduce.{IsShrunk, post_fill_size-IsShrunk}
use hta.Risk.Manager.{new_size_of, check_trade, check_order}
use hta.Risk.Manager.Caps.{MayTrade, IsWithinCaps, check_order-approved}
use hta.Risk.KillSwitch.{
  returns, raises, Services, initial, cancel_all, close_all, halt_entry, exchange_calls, halt,
  halt_event, append, list_open_orders, list_positions, cancel, market_close,
}
use hta.Risk.KillSwitch.Sequence.{exchange_sequence, halt-halt, halt_unjournaled}

-- Long 0.01 BTC at 30000 for an account of $1500 that is short ETH.
abbrev buy_btc : OrderIntent
buy_btc = record {
  symbol = "BTC";
  side = buy;
  size = ratio 1 99;
  price = whole 30000;
  order_type = alo;
  reduce_only = false;
  strategy = "mean_reversion";
  risk_dollars = whole 1;
}

abbrev short_eth : Position
short_eth = record {
  symbol = "ETH";
  size = opposite (ratio 1 9);
  mark_price = whole 2000;
  liq_price = some (whole 3000);
  strategy = none;
}

abbrev account : AccountState
account = record (default_state (whole 1500) (whole 1300)) { positions = short_eth ∷ [] }

buy_btc_approved : check_order buy_btc account ≡ approved
unfolding check_order check_trade new_size_of post_fill_size signed_size_delta reduced_size
    position_for post_fill_symbols collect_symbols add_symbol post_fill_notional sum_notionals
    check_buffers count_within_last_minute ◌⊕◌ ◌⊗◌ inverse ◌<?◌ ◌=?◌ magnitude
buy_btc_approved = refl

check_order-approved_example :
    (check_order buy_btc account ≡ approved) ↔ (MayTrade account × IsWithinCaps buy_btc account)
check_order-approved_example = check_order-approved buy_btc account

-- Buying back more than the short leaves no position.
abbrev close_eth : OrderIntent
close_eth = record buy_btc {
  symbol = "ETH";
  size = ratio 2 9;
  price = whole 2000;
  reduce_only = true;
}

close_eth_flat : post_fill_size close_eth (opposite (ratio 1 9)) ≡ nought
unfolding post_fill_size signed_size_delta reduced_size ◌⊕◌ ◌<?◌ ◌=?◌ magnitude
close_eth_flat = refl

post_fill_size-IsShrunk_example :
    IsShrunk (opposite (ratio 1 9)) (post_fill_size close_eth (opposite (ratio 1 9)))
post_fill_size-IsShrunk_example = post_fill_size-IsShrunk close_eth (opposite (ratio 1 9)) refl

-- An exchange with two orders and two positions, one of them flat, on which one cancellation fails and
-- whose notifier is offline.
abbrev services : Services
services = record {
  open_orders =
      returns (record { symbol = "BTC"; oid = 1 } ∷ record { symbol = "ETH"; oid = 2 } ∷ []);
  positions = returns (
      record { symbol = "ETH"; size = opposite (ratio 1 9) }
      ∷ record { symbol = "SOL"; size = nought }
      ∷ []);
  cancels = λ symbol oid. if oid == 1 then raises "TimeoutError()" else returns tt;
  closes = λ symbol. returns tt;
  appends = λ event. returns tt;
  sends = λ message. raises "ConnectionError()";
}

abbrev full_disk : Services
full_disk = record services { appends = λ event. raises "OSError()" }

halt_calls :
    exchange_calls services []
    ≡ list_open_orders ∷ cancel "BTC" 1 ∷ cancel "ETH" 2 ∷ list_positions ∷ market_close "ETH" ∷ []
unfolding exchange_calls cancel_all close_all ◌=?◌
halt_calls = refl

halt-halt_example :
    let s' = (halt full_disk (plain "manual") "12:00" initial).0 in
    (s'.halted ≡ true) × (halt services (plain "again") "12:01" s' ≡ (s', none))
halt-halt_example =
    halt-halt full_disk services (plain "manual") (plain "again") "12:00" "12:01" initial

halt_unjournaled_example : halt full_disk (plain "manual") "12:00" initial ≡ (
  record {
    halted = true;
    trace =
        ([] ++ exchange_sequence full_disk)
        ++ append (halt_event (halt_entry full_disk (plain "manual") "12:00")) ∷ [];
  },
  some "OSError()",
)
halt_unjournaled_example =
    halt_unjournaled full_disk (plain "manual") "12:00" "OSError()" initial refl refl
