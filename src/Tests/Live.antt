-- ===== src/Tests/Live.antt =====
-- src/main.py: a funding tick with one coin that is quoted and one that has been entered.
use hta.Common.{
  String, ◌≡◌, refl, ◌||◌, true, false, none, some, is_some, [], ◌∷◌, map, if◌then◌else◌,
}
use hta.Decimal.{whole, ratio, nought, opposite, ◌⊕◌, ◌⊗◌, ◌<?◌, ◌=?◌, magnitude, lesser, greater}
use hta.Dict.{get, put, insert_sorted, sorted_set, string_key}
use hta.Risk.KillSwitch.{returns}
use hta.Strategies.Capture.{
  Phase, entry_pending, exit_pending, holding, FundingCaptureSymbolState, default_funding,
}
use hta.Strategies.Funding.{
  both_legs_filled, enter_pair, exit_pair, entry_step, idle_step, by_phase, evaluate_symbol,
}
use hta.Strategies.Scheduler.{evaluate_coin, evaluate}
use hta.Execution.Tracker.{empty_tracker}
use hta.Execution.RouterState.{Market}
use hta.Execution.Allocator.{
  StrategyAllocation, default_config, sum_from, used_of, other_used, allocate_one, allocate,
}
use hta.Live.FundingTick.{
  LiveState, Tick, dispatch_funding_decision, take_decisions, equity_of, usage, snapshot,
  run_strategy, funding_capture_tick,
}
use hta.Live.FundingTick.States.{get-funding_capture_tick}

abbrev market : Market
market = record {
  halted = false;
  tracker = empty_tracker;
  tick_size = λ symbol. whole 1;
  best_bid = λ symbol. some (whole 100);
  best_ask = λ symbol. some (whole 100);
  submit_alo = λ q. record { accepted = true; oid = some 7; error_code = none; raw = "" };
  cancels = λ symbol oid. returns tt;
  stale_seconds = whole 60;
  time = whole 3000;
  clock = whole 100;
  bus_wired = false;
}

abbrev tick : Tick
tick = record {
  market = market;
  now = whole 3000;
  rates =
      (
        "BTC",
        record {
          coin = "BTC";
          predicted_rate = ratio 2 999;
          next_tick_time = whole 3600;
          as_of = whole 3000;
        },
      )
      ∷ [];
  a_used_notional = whole 100;
  capital_config = none;
  funding_config = default_funding;
  spot_wired = false;
}

-- ETH has waited too long for its spot leg.
abbrev eth : FundingCaptureSymbolState
eth = record {
  coin = "ETH";
  phase = entry_pending;
  target_tick_time = some (whole 3600);
  entry_attempt_started = some (whole 2880);
  target_notional = opposite (whole 200);
  perp_size = opposite (whole 200);
  spot_size = nought;
}

abbrev state : LiveState
state = record {
  funding_state = ("ETH", eth) ∷ [];
  router = record { submitted = []; recent_submissions = []; sent = []; journal = []; fills = [] };
  entries = [];
}

abbrev phase_of : String × FundingCaptureSymbolState → String × Phase
phase_of (coin, st) = (coin, st.phase)

phases :
    map phase_of (funding_capture_tick tick state).funding_state
    ≡ ("ETH", exit_pending) ∷ ("BTC", entry_pending) ∷ []
unfolding funding_capture_tick run_strategy take_decisions dispatch_funding_decision usage evaluate
    evaluate_coin evaluate_symbol by_phase entry_step idle_step enter_pair exit_pair
    both_legs_filled allocate allocate_one used_of other_used sum_from insert_sorted sorted_set get
    put ◌⊕◌ ◌⊗◌ ◌<?◌ ◌=?◌ magnitude lesser greater
phases = refl

abbrev allocation : StrategyAllocation
allocation =
    allocate_one (whole 1500) (usage tick state) default_config ("funding_capture", ratio 50 99)

allocated :
    get "funding_capture" (allocate (equity_of tick) (usage tick state) tick.capital_config)
    ≡ some allocation
unfolding get allocate ◌<?◌
allocated = refl

get-funding_capture_tick_example : get "BTC" (funding_capture_tick tick state).funding_state ≡ (
    if is_some (get "BTC" tick.rates) || is_some (get "BTC" state.funding_state)
    then some
        (evaluate_coin tick.now tick.rates
          (snapshot tick allocation)
          state.funding_state
          tick.funding_config
          "BTC").next_state
    else none)
get-funding_capture_tick_example =
    get-funding_capture_tick tick state allocation "BTC" (refl, tt) refl allocated

-- A capture of $700 for equity of $1500, of which the strategy's share is a half, an hour before its
-- tick.
abbrev held : FundingCaptureSymbolState
held = record {
  coin = "ETH";
  phase = holding;
  target_tick_time = some (whole 6600);
  entry_attempt_started = some (whole 2900);
  target_notional = opposite (whole 700);
  perp_size = opposite (whole 700);
  spot_size = whole 700;
}

abbrev held_state : LiveState
held_state = record state { funding_state = ("ETH", held) ∷ [] }

abbrev held_tick : Tick
held_tick = record tick { capital_config = some default_config }
