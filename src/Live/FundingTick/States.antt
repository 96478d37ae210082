-- ===== src/Live/FundingTick/States.antt =====
-- src/main.py: what a funding tick does to the states of the coins and to the router.
use hta.Common.{
  String, ◌≡◌, refl, ap, subst, ◌∙◌, inl, inr, Bool, true, false, Option, none, some, List, [], ◌∷◌,
  ◌++◌, ◌||◌, ap₂, any-append, if_of_false, is_some, map, any, All, arith, if◌then◌else◌,
  Bool-cases, same, same_iff,
}
use hta.Dict.{
  Dict, get, put, keys, sorted_set, any-sorted_set, any-keys, get-put_self, get-put_ne, string_key,
}
use hta.Strategies.Capture.{
  Phase, idle, entry_pending, holding, exit_pending, Time, FundingCaptureConfig, FundingRateInfo,
  FundingCaptureSymbolState, FundingCaptureDecision, AccountSnapshot,
}
use hta.Strategies.Funding.{
  evaluate_symbol, by_phase, holding_step, exit_step, entry_step, idle_step, enter_pair, exit_pair,
  no_op, holding_perp_target,
}
use hta.Strategies.Scheduler.{state_or_idle, rate_or_placeholder, evaluate_coin, evaluate}
use hta.Execution.Allocator.{StrategyAllocation, allocate}
use hta.Live.FundingTick.{
  LiveState, Tick, dispatch_funding_decision, take_decisions, equity_of, usage, snapshot,
  nothing_to_do, run_strategy, funding_capture_tick,
}

take_decisions-router :
    (w : Tick) (degraded : Bool) (ds : List FundingCaptureDecision) (s : LiveState)
    → w.spot_wired ≡ false
    → (take_decisions w degraded ds s).router ≡ s.router
unfolding take_decisions dispatch_funding_decision
take_decisions-router w degraded [] s h = refl
take_decisions-router w degraded (d ∷ ds) s h =
    take_decisions-router w degraded ds _ h ∙ ground arith

run_strategy-router :
    (w : Tick) (b : Option StrategyAllocation) (s : LiveState)
    → w.spot_wired ≡ false
    → (run_strategy w b s).router ≡ s.router
unfolding run_strategy
run_strategy-router w none s h = refl
run_strategy-router w (some b) s h =
    take_decisions-router w b.degraded
      (evaluate w.now w.rates (snapshot w b) s.funding_state w.funding_config) s h

-- Without a spot adapter a tick never reaches the router: no leg of a capture is sent alone.
pub funding_capture_tick-router :
    (w : Tick) (s : LiveState) → w.spot_wired ≡ false → (funding_capture_tick w s).router ≡ s.router
unfolding funding_capture_tick
funding_capture_tick-router w s h =
    let ran =
      run_strategy-router w
        (get "funding_capture" (allocate (equity_of w) (usage w s) w.capital_config)) s h in
    elim (Bool-cases (nothing_to_do w s)) [ inl e ↦ rw e refl | inr e ↦ rw e ran ]

-- Each state stands under its own coin.
abbrev pub IsKeyed : Dict String FundingCaptureSymbolState → Type 0
IsKeyed states = All (λ e. e.1.coin ≡ e.0) states

dispatch_funding_decision-funding_state :
    (w : Tick) (d : FundingCaptureDecision) (degraded : Bool) (s : LiveState)
    → (dispatch_funding_decision w d degraded s).funding_state ≡ s.funding_state
unfolding dispatch_funding_decision
dispatch_funding_decision-funding_state w d degraded s = ground arith

by_phase-coin :
    (p : Phase) (now : Time) (rate : FundingRateInfo) (account : AccountSnapshot)
    (s : FundingCaptureSymbolState) (cfg : FundingCaptureConfig)
    → ((by_phase p now rate account s cfg).coin ≡ s.coin)
      × ((by_phase p now rate account s cfg).next_state.coin ≡ s.coin)
unfolding by_phase holding_step exit_step entry_step idle_step enter_pair exit_pair no_op
    holding_perp_target
by_phase-coin idle now rate account s cfg = (ground arith, ground arith)
by_phase-coin entry_pending now rate account s cfg = (ground arith, ground arith)
by_phase-coin holding now rate account s cfg = (ground arith, ground arith)
by_phase-coin exit_pending now rate account s cfg = (ground arith, ground arith)

state_or_idle-coin :
    (c : String) (states : Dict String FundingCaptureSymbolState)
    → IsKeyed states
    → (state_or_idle c (get c states)).coin ≡ c
unfolding get
state_or_idle-coin c [] h = refl
state_or_idle-coin c ((j, st) ∷ states) h = elim (Bool-cases (same j c)) [
  | inl e ↦ rw e (h.0 ∙ (same_iff j c).0 e)
  | inr e ↦ rw e (state_or_idle-coin c states h.1)
]

evaluate_coin-coin :
    (now : Time) (rates : Dict String FundingRateInfo) (account : AccountSnapshot)
    (states : Dict String FundingCaptureSymbolState) (cfg : FundingCaptureConfig) (c : String)
    → IsKeyed states
    → (evaluate_coin now rates account states cfg c).coin ≡ c
unfolding evaluate_coin evaluate_symbol
evaluate_coin-coin now rates account states cfg c h =
    (by_phase-coin _ now (rate_or_placeholder c now (get c rates)) account
      (state_or_idle c (get c states)) cfg).0
    ∙ state_or_idle-coin c states h

get-put :
    (j c : String) (v : FundingCaptureSymbolState) (d : Dict String FundingCaptureSymbolState)
    → get j (put c v d) ≡ (if same c j then some v else get j d)
get-put j c v d = elim (Bool-cases (same c j)) [
  | inl e ↦ rw e (subst (λ k. get k (put c v d) ≡ some v) ((same_iff c j).0 e) (get-put_self c v d))
  | inr e ↦ rw e (get-put_ne c j v d e)
]

-- Two writes of the same value are one.
either_write :
    (b a : Bool) (x y z : Option FundingCaptureSymbolState)
    → (b ≡ true → z ≡ x)
    → (if a then x else if b then z else y) ≡ (if b || a then x else y)
either_write true true x y z h = refl
either_write true false x y z h = h refl
either_write false a x y z h = refl

none_where_missing :
    (r : Bool) (o x : Option FundingCaptureSymbolState)
    → (if r || is_some o then x else o) ≡ (if r || is_some o then x else none)
none_where_missing true o x = refl
none_where_missing false none x = refl
none_where_missing false (some st) x = refl

module _ (w : Tick) (degraded : Bool) (f : String → FundingCaptureDecision) where
  get-take_decisions :
      (j : String) (cs : List String) (s : LiveState)
      → ((c : String) → (f c).coin ≡ c)
      → get j (take_decisions w degraded (map f cs) s).funding_state
        ≡ (if any (λ c. same c j) cs then some (f j).next_state else get j s.funding_state)
  unfolding take_decisions
  get-take_decisions j [] s h = refl
  get-take_decisions j (c ∷ cs) s h =
      let next = (f c).next_state in
      let s' = record s { funding_state = put (f c).coin next s.funding_state } in
      get-take_decisions j cs (dispatch_funding_decision w (f c) degraded s') h
      ∙ ap (λ d. if any (λ x. same x j) cs then some (f j).next_state else get j d)
          (dispatch_funding_decision-funding_state w (f c) degraded s')
      ∙ ap
          (λ k.
            if any (λ x. same x j) cs
            then some (f j).next_state
            else get j (put k next s.funding_state))
          (h c)
      ∙ ap (λ o. if any (λ x. same x j) cs then some (f j).next_state else o)
          (get-put j c next s.funding_state)
      ∙ either_write (same c j) (any (λ x. same x j) cs) (some (f j).next_state)
          (get j s.funding_state) (some next)
          (λ e. ap (λ k. some (f k).next_state) ((same_iff c j).0 e))

get-run_strategy :
    (w : Tick) (b : StrategyAllocation) (s : LiveState) (j : String)
    → IsKeyed s.funding_state
    → get j (run_strategy w (some b) s).funding_state ≡ (
        if is_some (get j w.rates) || is_some (get j s.funding_state)
        then some
            (evaluate_coin w.now w.rates
              (snapshot w b)
              s.funding_state
              w.funding_config
              j).next_state
        else none)
unfolding run_strategy evaluate
get-run_strategy w b s j h =
    let states = s.funding_state in
    let f = evaluate_coin w.now w.rates (snapshot w b) states w.funding_config in
    get-take_decisions w b.degraded f j (sorted_set (keys w.rates ++ keys states)) s
      (λ c. evaluate_coin-coin w.now w.rates (snapshot w b) states w.funding_config c h)
    ∙ ap (λ b. if b then some (f j).next_state else get j states)
        (any-sorted_set (λ c. same c j) (keys w.rates ++ keys states)
          ∙ any-append (λ c. same c j) (keys w.rates) (keys states)
          ∙ ap₂ (λ x y. x || y) (any-keys j w.rates) (any-keys j states))
    ∙ none_where_missing (is_some (get j w.rates)) (get j states) (some (f j).next_state)

-- A tick that runs strategy B moves every coin that has a rate or a state to the next state of its state
-- machine, computed from the states before the tick, and gives no other coin a state.
pub get-funding_capture_tick :
    (w : Tick) (s : LiveState) (b : StrategyAllocation) (j : String)
    → IsKeyed s.funding_state
    → nothing_to_do w s ≡ false
    → get "funding_capture" (allocate (equity_of w) (usage w s) w.capital_config) ≡ some b
    → get j (funding_capture_tick w s).funding_state ≡ (
        if is_some (get j w.rates) || is_some (get j s.funding_state)
        then some
            (evaluate_coin w.now w.rates
              (snapshot w b)
              s.funding_state
              w.funding_config
              j).next_state
        else none)
unfolding funding_capture_tick
get-funding_capture_tick w s b j keyed busy found =
    ap (λ t. get j t.funding_state) (if_of_false s _ busy ∙ ap (λ o. run_strategy w o s) found)
    ∙ get-run_strategy w b s j keyed
