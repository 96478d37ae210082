-- ===== src/Strategies/Scheduler.antt =====
-- src/strategies/funding_capture.py: `evaluate`, over all coins that have a rate or a state.
use hta.Common.{String, ◌≡◌, Option, none, some, List, [], ◌∷◌, ◌++◌, map, arith, All}
use hta.Decimal.{whole, nought, ◌⊕◌}
use hta.Decimal.Order.{◌≼◌}
use hta.Dict.{Dict, get, keys, sorted_set, string_key}
use hta.Strategies.Capture.{
  idle, Time, FundingCaptureConfig, FundingRateInfo, FundingCaptureSymbolState,
  FundingCaptureDecision, AccountSnapshot, idle_state,
}
use hta.Strategies.Funding.{evaluate_symbol, by_phase}
use hta.Strategies.Funding.Transitions.{IsHedged, evaluate_symbol-IsHedged}

abbrev pub state_or_idle : String → Option FundingCaptureSymbolState → FundingCaptureSymbolState
state_or_idle coin none = idle_state coin
state_or_idle coin (some s) = s

-- A rate that triggers no entry stands in for a missing one.
abbrev pub rate_or_placeholder : String → Time → Option FundingRateInfo → FundingRateInfo
rate_or_placeholder coin now (some rate) = rate
rate_or_placeholder coin now none = record {
  coin = coin;
  predicted_rate = nought;
  next_tick_time = now ⊕ whole 3600;
  as_of = now;
}

-- The body of the loop.
unfoldable pub evaluate_coin :
    Time
    → Dict String FundingRateInfo
    → AccountSnapshot
    → Dict String FundingCaptureSymbolState
    → FundingCaptureConfig
    → String
    → FundingCaptureDecision
evaluate_coin now rates account states cfg coin =
    evaluate_symbol now (rate_or_placeholder coin now (get coin rates)) account
      (state_or_idle coin (get coin states)) cfg

unfoldable pub evaluate :
    Time
    → Dict String FundingRateInfo
    → AccountSnapshot
    → Dict String FundingCaptureSymbolState
    → FundingCaptureConfig
    → List FundingCaptureDecision
unfolding evaluate_coin
evaluate now rates account states cfg =
    map (evaluate_coin now rates account states cfg) (sorted_set (keys rates ++ keys states))

All-map :
    {A B : Type 0} (P : B → Type 0) (f : A → B) (xs : List A)
    → ((x : A) → P (f x))
    → All P (map f xs)
All-map P f [] h = tt
All-map P f (x ∷ xs) h = (h x, All-map P f xs h)

-- A coin with neither a state nor a rate that is above a threshold of at least 0 moves no leg.
pub evaluate_coin_unquoted :
    (now : Time) (rates : Dict String FundingRateInfo) (account : AccountSnapshot)
    (states : Dict String FundingCaptureSymbolState) (cfg : FundingCaptureConfig) (coin : String)
    → nought ≼ cfg.funding_threshold
    → get coin rates ≡ none
    → (state_or_idle coin (get coin states)).phase ≡ idle
    → let d = evaluate_coin now rates account states cfg coin in
      (d.perp_target ≡ none)
      × (d.spot_target ≡ none)
      × (d.next_state ≡ state_or_idle coin (get coin states))
unfolding evaluate_coin evaluate_symbol by_phase
evaluate_coin_unquoted now rates account states cfg coin h unquoted still =
    rw (unquoted, still) (ground arith)

-- One evaluation moves the legs of every coin by opposite notionals or not at all.
pub evaluate-IsHedged :
    (now : Time) (rates : Dict String FundingRateInfo) (account : AccountSnapshot)
    (states : Dict String FundingCaptureSymbolState) (cfg : FundingCaptureConfig)
    → All IsHedged (evaluate now rates account states cfg)
unfolding evaluate evaluate_coin
evaluate-IsHedged now rates account states cfg =
    All-map IsHedged _ (sorted_set (keys rates ++ keys states)) (λ coin.
      evaluate_symbol-IsHedged now (rate_or_placeholder coin now (get coin rates)) account
        (state_or_idle coin (get coin states)) cfg)
