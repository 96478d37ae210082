-- ===== src/Tests/Strategy.antt =====
-- Both strategies on concrete quotes and states.
use hta.Common.{String, ◌≡◌, refl, inl, false, none, some, List, [], ◌∷◌, All}
use hta.Decimal.{
  Decimal, whole, ratio, nought, opposite, ◌⊕◌, ◌⊖◌, ◌⊗◌, ◌⊘◌, inverse, ◌<?◌, ◌=?◌, magnitude,
}
use hta.Decimal.Order.{◌≼◌, ◌≺◌}
use hta.Dict.{Dict, get, string_key}
use hta.Strategies.Capture.{
  idle, entry_pending, Time, FundingRateInfo, FundingCaptureSymbolState, AccountSnapshot,
  default_funding, idle_state,
}
use hta.Strategies.Funding.{both_legs_filled, evaluate_symbol, since}
use hta.Strategies.Funding.Transitions.{
  ◌⟶◌, IsHedged, IsUnwinding, evaluate_symbol-⟶, evaluate_symbol-IsUnwinding,
}
use hta.Strategies.Funding.Entry.{IsEntry}
use hta.Strategies.Scheduler.{state_or_idle, evaluate, evaluate-IsHedged}
use hta.Strategies.Reversion.{
  MeanReversionConfig, enter, Features, default_reversion, compute_size, holding as held,
}
use hta.Strategies.Reversion.Signals.{compute_size_capped}
use hta.Strategies.Reversion.{evaluate as evaluate_reversion}
use hta.Strategies.Reversion.Signals.{IsEntry as IsReversionEntry}

-- Ten minutes before a tick that pays 0.2%.
abbrev now : Time
now = whole 3000

abbrev rate : FundingRateInfo
rate = record {
  coin = "BTC";
  predicted_rate = ratio 2 999;
  next_tick_time = whole 3600;
  as_of = whole 3000;
}

abbrev account : AccountSnapshot
account = record { equity = whole 1500; available_notional_for_strategy = whole 600 }

evaluate_symbol-⟶_example :
    idle ⟶ (evaluate_symbol now rate account (idle_state "BTC") default_funding).next_state.phase
evaluate_symbol-⟶_example = evaluate_symbol-⟶ now rate account (idle_state "BTC") default_funding

-- An entry of $600 whose spot leg is missing after two minutes.
abbrev one_leg : FundingCaptureSymbolState
one_leg = record {
  coin = "BTC";
  phase = entry_pending;
  target_tick_time = some (whole 3600);
  entry_attempt_started = some (whole 2880);
  target_notional = opposite (whole 600);
  perp_size = opposite (whole 600);
  spot_size = nought;
}

abbrev rates : Dict String FundingRateInfo
rates = ("BTC", rate) ∷ []

abbrev states : Dict String FundingCaptureSymbolState
states = ("ETH", one_leg) ∷ []

unfilled : both_legs_filled one_leg ≡ false
unfolding both_legs_filled magnitude ◌⊗◌ ◌<?◌ ◌=?◌
unfilled = refl

overdue : whole default_funding.fill_window_seconds ≺ since now one_leg.entry_attempt_started
unfolding ◌⊕◌ ◌<?◌
overdue = refl

evaluate_symbol-IsUnwinding_example :
    IsUnwinding (evaluate_symbol now rate account one_leg default_funding)
evaluate_symbol-IsUnwinding_example =
    evaluate_symbol-IsUnwinding now rate account one_leg default_funding
      (inl (refl, unfilled, overdue))

evaluate-IsHedged_example : All IsHedged (evaluate now rates account states default_funding)
evaluate-IsHedged_example = evaluate-IsHedged now rates account states default_funding

threshold : nought ≼ default_funding.funding_threshold
unfolding ◌<?◌
threshold = refl

unquoted : get "SOL" rates ≡ none
unfolding get
unquoted = refl

unknown : (state_or_idle "SOL" (get "SOL" states)).phase ≡ idle
unfolding get
unknown = refl

-- Strategy A: a deviation of $150 at a price of $30000.
sized : nought ≺ compute_size (whole 1500) (whole 30000) (whole 150) default_reversion
unfolding compute_size inverse ◌⊕◌ ◌⊗◌ ◌<?◌
sized = refl

compute_size_capped_example :
    let size = compute_size (whole 1500) (whole 30000) (whole 150) default_reversion in
    (nought ≺ whole 1500)
    × (size ≼ default_reversion.max_notional_pct ⊗ whole 1500)
    × (size ⊗ ((default_reversion.z_stop ⊖ default_reversion.z_entry) ⊗ whole 150 ⊘ whole 30000)
        ≼ default_reversion.risk_per_trade_pct ⊗ whole 1500)
compute_size_capped_example =
    compute_size_capped (whole 1500) (whole 30000) (whole 150) default_reversion sized

-- Features of an oversold coin, whatever its candles.
abbrev oversold : Features
oversold = record {
  z_score = λ closes window. some (opposite (ratio 25 9));
  rsi = λ closes window. some (whole 20);
  sigma = λ closes window. some (whole 150);
  last_close = λ closes. some (whole 30000);
}

abbrev closes : List Decimal
closes = whole 30300 ∷ whole 30150 ∷ whole 30000 ∷ []

abbrev config : MeanReversionConfig
config = record default_reversion { sma_window = 2 }

bought :
    (evaluate_reversion oversold "BTC" (some closes) none (whole 1500) config).notional
    ≡ config.max_notional_pct ⊗ whole 1500
unfolding evaluate_reversion enter compute_size inverse ◌⊕◌ ◌⊗◌ ◌<?◌
bought = refl
