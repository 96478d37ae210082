-- ===== src/Strategies/Funding.antt =====
-- src/strategies/funding_capture.py: the state machine of one symbol.
pub mod Transitions
pub mod Entry
use Prim.Native.String.{◌++◌ as joined}
use hta.Common.{
  ℕ, ◌+◌, String, Bool, true, false, not, ◌&&◌, Option, none, some, List, [], ◌∷◌, if◌then◌else◌,
}
use hta.Decimal.{
  Decimal, whole, ratio, nought, opposite, ◌⊕◌, ◌⊖◌, ◌⊗◌, ◌<?◌, ◌≤?◌, ◌=?◌, magnitude, lesser,
}
use hta.Formatted.{Text, lit, int, dec, truncated, plain}
use hta.Strategies.Capture.{
  Phase, idle, entry_pending, holding, exit_pending, Time, FundingCaptureConfig, FundingRateInfo,
  FundingCaptureSymbolState, FundingCaptureDecision, AccountSnapshot,
}

abbrev pub almost : Decimal
almost = ratio 99 99

unfoldable pub both_legs_filled : FundingCaptureSymbolState → Bool
both_legs_filled s =
    let target_mag = magnitude s.target_notional in
    let perp_filled =
      nought <? s.perp_size ⊗ s.target_notional && target_mag ⊗ almost ≤? magnitude s.perp_size in
    let spot_filled =
      s.spot_size ⊗ s.target_notional <? nought && target_mag ⊗ almost ≤? magnitude s.spot_size in
    if target_mag =? nought then false else perp_filled && spot_filled

unfoldable pub both_legs_flat : FundingCaptureSymbolState → Bool
both_legs_flat s = s.perp_size =? nought && s.spot_size =? nought

-- `f"{coin}-SPOT"`
abbrev pub spot_symbol : String → String
spot_symbol coin = joined coin "-SPOT"

abbrev pair :
    FundingCaptureSymbolState
    → Decimal
    → Text
    → Text
    → FundingCaptureSymbolState
    → Text
    → FundingCaptureDecision
pair s notional perp_reason spot_reason next reason = record {
  coin = s.coin;
  perp_target = some (record { symbol = s.coin; notional = notional; reason = perp_reason });
  spot_target =
      some (record {
        symbol = spot_symbol s.coin;
        notional = opposite notional;
        reason = spot_reason;
      });
  next_state = next;
  reason = reason;
}

unfoldable pub enter_pair :
    FundingCaptureSymbolState
    → Time
    → Time
    → Decimal
    → FundingCaptureConfig
    → FundingCaptureDecision
enter_pair s now target_tick_time notional cfg =
    pair s (opposite notional) (lit "funding entry T-" ∷ int cfg.pre_tick_seconds ∷ plain "s")
      (plain "funding entry hedge")
      (record s {
        phase = entry_pending;
        target_tick_time = some target_tick_time;
        entry_attempt_started = some now;
        target_notional = opposite notional;
      })
      (lit "enter pair notional=$" ∷ dec notional ∷ [])

unfoldable pub exit_pair : FundingCaptureSymbolState → Text → FundingCaptureDecision
exit_pair s reason = pair s nought reason reason (record s { phase = exit_pending }) reason

abbrev pub quiet :
    FundingCaptureSymbolState → FundingCaptureSymbolState → Text → FundingCaptureDecision
quiet s next reason = record {
  coin = s.coin;
  perp_target = none;
  spot_target = none;
  next_state = next;
  reason = reason;
}

unfoldable pub no_op : FundingCaptureSymbolState → Text → FundingCaptureDecision
no_op s reason = quiet s s reason

unfoldable pub holding_perp_target : FundingCaptureSymbolState → Text → FundingCaptureDecision
holding_perp_target s reason = pair s s.target_notional reason reason s reason

abbrev pub since : Time → Option Time → Decimal
since now none = nought
since now (some t) = now ⊖ t

unfoldable pub holding_step :
    Time
    → AccountSnapshot
    → FundingCaptureSymbolState
    → FundingCaptureConfig
    → FundingCaptureDecision
unfolding exit_pair holding_perp_target
holding_step now account s cfg =
    let after = since now s.target_tick_time in
    let current = magnitude s.target_notional in
    if nought <? current
      && account.available_notional_for_strategy <? current ⊗ cfg.early_exit_capital_ratio
    then exit_pair s (plain "early exit: capital starvation")
    else if whole cfg.post_tick_min_seconds ≤? after
    then exit_pair s (lit "scheduled exit T+" ∷ truncated after ∷ plain "s")
    else holding_perp_target s (lit "holding T+" ∷ truncated after ∷ plain "s")

unfoldable pub exit_step : FundingCaptureSymbolState → FundingCaptureDecision
unfolding exit_pair both_legs_flat
exit_step s =
    if both_legs_flat s
    then quiet s
        (record s {
          phase = idle;
          target_tick_time = none;
          entry_attempt_started = none;
          target_notional = nought;
        })
        (plain "exit complete; back to idle")
    else exit_pair s (plain "awaiting flat")

unfoldable pub entry_step :
    Time → FundingCaptureSymbolState → FundingCaptureConfig → FundingCaptureDecision
unfolding exit_pair both_legs_filled
entry_step now s cfg =
    let elapsed = since now s.entry_attempt_started in
    if both_legs_filled s
    then quiet s (record s { phase = holding }) (plain "both legs filled; holding through tick")
    else if whole cfg.fill_window_seconds <? elapsed
    then exit_pair s (plain "fill window expired; unwind")
    else pair s s.target_notional (plain "awaiting fills") (plain "awaiting fills") s
        (lit "entry pending " ∷ truncated elapsed ∷ plain "s")

unfoldable pub idle_step :
    Time
    → FundingRateInfo
    → AccountSnapshot
    → FundingCaptureSymbolState
    → FundingCaptureConfig
    → FundingCaptureDecision
unfolding enter_pair no_op
idle_step now rate account s cfg =
    let to_tick = rate.next_tick_time ⊖ now in
    let nominal = account.equity ⊗ cfg.notional_per_leg_pct in
    let notional = lesser nominal account.available_notional_for_strategy in
    if rate.predicted_rate ≤? cfg.funding_threshold
    then no_op s (lit "predicted " ∷ dec rate.predicted_rate ∷ plain " <= threshold")
    else if whole (cfg.pre_tick_seconds + 60) <? to_tick
    then no_op s (lit "too early; " ∷ truncated to_tick ∷ plain "s to tick")
    else if to_tick <? whole cfg.pre_tick_seconds ⊖ whole 60
    then no_op s (lit "past entry window; " ∷ truncated to_tick ∷ plain "s to tick")
    else if account.available_notional_for_strategy ≤? nought
    then no_op s (plain "no capital available")
    else if notional ≤? nought
    then no_op s (plain "computed notional <= 0")
    else enter_pair s now rate.next_tick_time notional cfg

-- The tests on `state.phase`, in turn.
unfoldable pub by_phase :
    Phase
    → Time
    → FundingRateInfo
    → AccountSnapshot
    → FundingCaptureSymbolState
    → FundingCaptureConfig
    → FundingCaptureDecision
unfolding holding_step exit_step entry_step idle_step
by_phase holding now rate account s cfg = holding_step now account s cfg
by_phase exit_pending now rate account s cfg = exit_step s
by_phase entry_pending now rate account s cfg = entry_step now s cfg
by_phase idle now rate account s cfg = idle_step now rate account s cfg

unfoldable pub evaluate_symbol :
    Time
    → FundingRateInfo
    → AccountSnapshot
    → FundingCaptureSymbolState
    → FundingCaptureConfig
    → FundingCaptureDecision
unfolding by_phase
evaluate_symbol now rate account s cfg = by_phase s.phase now rate account s cfg
