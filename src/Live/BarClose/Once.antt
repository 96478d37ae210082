-- ===== src/Live/BarClose/Once.antt =====
-- src/main.py: a bar is evaluated once, and strategy A stays within its allocation.
use hta.Common.{
  ℕ, String, ◌≡◌, refl, sym, ap, ◌∙◌, inl, inr, true, false, Option, none, some, List, arith,
  if_of_false, Bool-cases, Option-cases, subst,
}
use hta.Dict.{get, get-put_self, string_key}
use hta.Strategies.Target.{TargetPosition}
use hta.Marketdata.Candles.{Bar}
use hta.Execution.Tracker.{get_position, refresh, TrackedPosition}
use hta.Live.BarClose.{
  SymbolState, TraderState, Surroundings, closed_bar, counted, observe, route, refreshed_route,
  evaluate_bar, is_handled, evaluate_once, maybe_evaluate_symbol, evaluate_closed,
}

observe-is_handled :
    (symbol : String) (closed : ℕ) (tracked : Option TrackedPosition) (st : SymbolState)
    → is_handled closed (observe symbol closed tracked st).0 ≡ true
unfolding observe counted
observe-is_handled symbol closed tracked st = ground arith

route-symbol_state :
    (w : Surroundings) (target : TargetPosition) (s : TraderState)
    → (route w target s).symbol_state ≡ s.symbol_state
unfolding route
route-symbol_state w target s = ground arith

refreshed_route-symbol_state :
    (w : Surroundings) (target : TargetPosition) (s : TraderState)
    → (refreshed_route w target s).symbol_state ≡ s.symbol_state
unfolding refreshed_route
refreshed_route-symbol_state w target s =
    elim (Option-cases (refresh w.user_state w.open_orders s.tracker).1) [
      | inl e ↦ rw (e, refreshed_route) (route-symbol_state w target _)
      | inr (exc, e) ↦ rw (e, refreshed_route) refl
    ]

-- After the step the bar counts as handled.
get-evaluate_bar :
    (w : Surroundings) (symbol : String) (candles : List Bar) (closed : ℕ) (st : SymbolState)
    (s : TraderState)
    → get symbol (evaluate_bar w symbol candles closed st s).symbol_state
      ≡ some (observe symbol closed (get_position s.tracker symbol) st).0
unfolding evaluate_bar
get-evaluate_bar w symbol candles closed st s =
    ap (get symbol) (refreshed_route-symbol_state w _ _)
    ∙ get-put_self symbol (observe symbol closed (get_position s.tracker symbol) st).0
        s.symbol_state

skip_handled :
    (v : Surroundings) (symbol : String) (candles : List Bar) (closed : ℕ) (st : SymbolState)
    (o : Option SymbolState) (s : TraderState)
    → o ≡ some st
    → is_handled closed st ≡ true
    → evaluate_once v symbol candles closed o s ≡ s
unfolding evaluate_once
skip_handled v symbol candles closed st o s h e = rw h (rw e refl)

evaluate_once_again :
    (v w : Surroundings) (symbol : String) (candles : List Bar) (closed : ℕ)
    (o : Option SymbolState) (s : TraderState)
    → get symbol s.symbol_state ≡ o
    → let s' = evaluate_once w symbol candles closed o s in
      evaluate_once v symbol candles closed (get symbol s'.symbol_state) s' ≡ s'
unfolding evaluate_once
evaluate_once_again v w symbol candles closed none s h = rw h refl
evaluate_once_again v w symbol candles closed (some st) s h =
    elim (Bool-cases (is_handled closed st)) [
      | inl e ↦ rw e (skip_handled v symbol candles closed st (get symbol s.symbol_state) s h e)
      | inr e ↦ rw e (
          skip_handled v symbol candles closed
            (observe symbol closed (get_position s.tracker symbol) st).0
            (get symbol (evaluate_bar w symbol candles closed st s).symbol_state)
            (evaluate_bar w symbol candles closed st s)
            (get-evaluate_bar w symbol candles closed st s)
            (observe-is_handled symbol closed (get_position s.tracker symbol) st))
    ]

evaluate_closed_again :
    (v w : Surroundings) (symbol : String) (candles : List Bar) (o : Option Bar) (s : TraderState)
    → let s' = evaluate_closed w symbol candles o s in evaluate_closed v symbol candles o s' ≡ s'
unfolding evaluate_closed
evaluate_closed_again v w symbol candles none s = refl
evaluate_closed_again v w symbol candles (some b) s =
    evaluate_once_again v w symbol candles b.open_time_ms (get symbol s.symbol_state) s refl

unless_halted :
    (v : Surroundings) (symbol : String) (candles : List Bar) (t : TraderState)
    → evaluate_closed v symbol candles (closed_bar candles) t ≡ t
    → maybe_evaluate_symbol v symbol candles t ≡ t
unfolding maybe_evaluate_symbol
unless_halted v symbol candles t h = elim (Bool-cases v.market.halted) [
  | inl e ↦ rw e refl
  | inr e ↦ if_of_false t _ e ∙ h
]

-- A bar is evaluated at most once: while the candles stay the same, a second step changes nothing,
-- whatever the exchange, the features and the kill switch say by then, also where the refresh of the
-- first failed.
pub maybe_evaluate_symbol_again :
    (v w : Surroundings) (symbol : String) (candles : List Bar) (s : TraderState)
    → w.market.halted ≡ false
    → let s' = maybe_evaluate_symbol w symbol candles s in
      maybe_evaluate_symbol v symbol candles s' ≡ s'
unfolding maybe_evaluate_symbol
maybe_evaluate_symbol_again v w symbol candles s h =
    subst (λ t. maybe_evaluate_symbol v symbol candles t ≡ t)
      (sym (if_of_false s (evaluate_closed w symbol candles (closed_bar candles) s) h))
      (unless_halted v symbol candles _
        (evaluate_closed_again v w symbol candles (closed_bar candles) s))
