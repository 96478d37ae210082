-- ===== src/Tests/BarClose.antt =====
-- src/main.py: the close of a bar on which strategy A buys.
use hta.Common.{ℕ, ◌≡◌, refl, true, false, none, some, List, [], ◌∷◌, length}
use hta.Decimal.{whole, ratio, nought, opposite, ◌⊕◌, ◌⊗◌, ◌<?◌, magnitude, lesser, greater}
use hta.Dict.{get, string_key}
use hta.Formatted.{plain}
use hta.Risk.KillSwitch.{returns}
use hta.Strategies.Target.{TargetPosition}
use hta.Strategies.Reversion.{Features, default_reversion}
use hta.Marketdata.Candles.{Bar}
use hta.Execution.Tracker.{absent, number, empty_tracker}
use hta.Execution.RouterState.{Market}
use hta.Execution.Allocator.{
  StrategyAllocation, default_config, sum_from, used_of, other_used, allocate_one, allocate,
}
use hta.Live.BarClose.{TraderState, Surroundings, a_allocation, route, maybe_evaluate_symbol}
use hta.Live.BarClose.Once.{maybe_evaluate_symbol_again}

abbrev market : Market
market = record {
  halted = false;
  tracker = empty_tracker;
  tick_size = λ symbol. whole 1;
  best_bid = λ symbol. some (whole 30000);
  best_ask = λ symbol. some (whole 30000);
  submit_alo = λ q. record { accepted = true; oid = some 7; error_code = none; raw = "" };
  cancels = λ symbol oid. returns tt;
  stale_seconds = whole 60;
  time = whole 3000;
  clock = whole 100;
  bus_wired = false;
}

abbrev oversold : Features
oversold = record {
  z_score = λ closes window. some (opposite (ratio 25 9));
  rsi = λ closes window. some (whole 20);
  sigma = λ closes window. some (whole 600);
  last_close = λ closes. some (whole 30000);
}

abbrev surroundings : Surroundings
surroundings = record {
  market = market;
  features = oversold;
  config = record default_reversion { sma_window = 2 };
  user_state = returns (record {
    asset_positions = [];
    account_value = number (whole 1500);
    total_raw_usd = absent;
  });
  open_orders = returns [];
  funding_state = [];
  capital_config = none;
}

abbrev bar : ℕ → ℕ → Bar
bar time price = record {
  open_time_ms = time;
  open_price = whole price;
  high = whole price;
  low = whole price;
  close = whole price;
  volume = whole 1;
}

abbrev candles : List Bar
candles = bar 300000 30300 ∷ bar 600000 30150 ∷ bar 900000 30000 ∷ bar 1200000 30000 ∷ []

abbrev trader : TraderState
trader = record {
  symbol_state =
      (
        "BTC",
        record {
          last_closed_bar_open_ms = none;
          entry_open_ms = none;
          entry_price = nought;
          bars_held = 0;
        },
      )
      ∷ [];
  tracker = record empty_tracker { equity = whole 1500; free_margin = whole 1500 };
  router = record { submitted = []; recent_submissions = []; sent = []; journal = []; fills = [] };
  a_used_notional = nought;
  signals = [];
}

maybe_evaluate_symbol_again_example :
    let s' = maybe_evaluate_symbol surroundings "BTC" candles trader in
    maybe_evaluate_symbol surroundings "BTC" candles s' ≡ s'
maybe_evaluate_symbol_again_example =
    maybe_evaluate_symbol_again surroundings surroundings "BTC" candles trader refl

-- A target of $1000 is more than a quarter of the equity.
abbrev wish : TargetPosition
wish = record { symbol = "BTC"; notional = whole 1000; reason = plain "long" }

abbrev allocation : StrategyAllocation
allocation =
    allocate_one (whole 1500) (("mean_reversion", nought) ∷ ("funding_capture", nought) ∷ [])
      default_config ("mean_reversion", ratio 25 99)

refused : length (route surroundings wish trader).signals ≡ 1
unfolding route a_allocation get allocate allocate_one used_of other_used sum_from ◌⊕◌ ◌⊗◌ ◌<?◌
    magnitude lesser greater
refused = refl
