-- ===== src/Backtest/FundingSim/Accounts.antt =====
-- src/backtest/funding_simulator.py: the books of a simulation balance.
use hta.Common.{
  ℕ, ◌+◌, ◌≡◌, refl, sym, ap, ap₂, Bool, true, false, if◌then◌else◌, ◌∙◌, List, [], ◌∷◌, map,
  length, All, arith,
}
use hta.Decimal.{Decimal, nought, opposite, ◌⊕◌, ◌⊖◌, ◌⊗◌, whole, ◌<?◌, ◌≤?◌}
use hta.Decimal.Sums.{⊕_assoc, ⊕-nought, nought-⊕, ⊕-⊖_swap}
use hta.Formatted.{Text, lit, fixed, plain}
use hta.Backtest.FundingSim.{
  FundingSimConfig, FundingRow, CaptureAttempt, equity_after, skip, succeed, fail, attempt,
  simulate_rows, Numerics, simulated, is_skipped, is_success, is_failure, count_of, sum_of,
  aggregate,
}

-- The fields of an attempt that are those of its row.
abbrev pub row_of : CaptureAttempt → FundingRow
row_of a = record { tick_time = a.tick_time; coin = a.coin; funding_rate = a.funding_rate }

-- The last point of the equity curve.
abbrev pub last_of : Decimal → List Decimal → Decimal
last_of x [] = x
last_of x (y ∷ ys) = last_of y ys

-- The net result of an attempt is what it received less what it paid.
abbrev pub IsBalanced : CaptureAttempt → Type 0
IsBalanced a = a.net_pnl ≡ a.funding_pnl ⊖ a.fees_paid ⊖ a.slippage_paid

IsBalanced-if :
    (b : Bool) (x y : CaptureAttempt)
    → IsBalanced x
    → IsBalanced y
    → IsBalanced (if b then x else y)
IsBalanced-if true x y hx hy = hx
IsBalanced-if false x y hx hy = hy

skip-IsBalanced : (row : FundingRow) (note : Text) → IsBalanced (skip row note)
unfolding skip ◌⊕◌
skip-IsBalanced row note = refl

succeed-IsBalanced :
    (row : FundingRow) (notional : Decimal) (cfg : FundingSimConfig)
    → IsBalanced (succeed row notional cfg)
unfolding succeed
succeed-IsBalanced row notional cfg = refl

fail-IsBalanced :
    (row : FundingRow) (notional : Decimal) (cfg : FundingSimConfig)
    → IsBalanced (fail row notional cfg)
unfolding fail
fail-IsBalanced row notional cfg =
    ap (λ f. f ⊖ (notional ⊗ cfg.slippage_per_leg ⊗ whole 2))
      (sym (nought-⊕ (opposite (notional ⊗ (cfg.maker_fee_per_side ⊕ cfg.taker_fee)))))

attempt-IsBalanced :
    (cfg : FundingSimConfig) (equity : Decimal) (row : FundingRow) (roll : Decimal)
    → IsBalanced (attempt cfg equity row roll)
unfolding attempt
attempt-IsBalanced cfg equity row roll =
    let notional = equity ⊗ cfg.notional_per_leg_pct in
    IsBalanced-if (equity ≤? nought) _ _ (skip-IsBalanced row (plain "no equity")) (
      IsBalanced-if (row.funding_rate ≤? cfg.funding_threshold) _ _
        (skip-IsBalanced row (
          lit "at-or-below threshold "
          ∷ fixed 4 (cfg.funding_threshold ⊗ whole 100)
          ∷ lit "%"
          ∷ []))
        (IsBalanced-if (roll <? cfg.paired_fill_probability) _ _
          (succeed-IsBalanced row notional cfg) (fail-IsBalanced row notional cfg)))

attempt-row_of :
    (cfg : FundingSimConfig) (equity : Decimal) (row : FundingRow) (roll : Decimal)
    → row_of (attempt cfg equity row roll) ≡ row
unfolding attempt skip succeed fail
attempt-row_of cfg equity row roll = ground arith

module _ (cfg : FundingSimConfig) (random : ℕ → Decimal) where
  simulate_rows-IsBalanced :
      (rows : List FundingRow) (drawn : ℕ) (equity : Decimal)
      → All IsBalanced (simulate_rows cfg random rows drawn equity).0
  unfolding simulate_rows
  simulate_rows-IsBalanced [] drawn equity = tt
  simulate_rows-IsBalanced (row ∷ rows) drawn equity =
      (attempt-IsBalanced cfg equity row (random drawn), simulate_rows-IsBalanced rows _ _)

  simulate_rows-row_of :
      (rows : List FundingRow) (drawn : ℕ) (equity : Decimal)
      → map row_of (simulate_rows cfg random rows drawn equity).0 ≡ rows
  unfolding simulate_rows
  simulate_rows-row_of [] drawn equity = refl
  simulate_rows-row_of (row ∷ rows) drawn equity =
      ap₂ (λ r rs. r ∷ rs) (attempt-row_of cfg equity row (random drawn))
        (simulate_rows-row_of rows _ _)

  simulate_rows-equity :
      (rows : List FundingRow) (drawn : ℕ) (equity : Decimal)
      → sum_of (λ a. a.net_pnl) (simulate_rows cfg random rows drawn equity).0 equity
        ≡ (simulate_rows cfg random rows drawn equity).1
  unfolding simulate_rows sum_of
  simulate_rows-equity [] drawn equity = refl
  simulate_rows-equity (row ∷ rows) drawn equity = simulate_rows-equity rows _ _

  simulate_rows-equity_after :
      (rows : List FundingRow) (drawn : ℕ) (equity start : Decimal)
      → last_of start (equity_after (simulate_rows cfg random rows drawn equity).0 equity)
        ≡ (simulate_rows cfg random rows drawn equity).1
  unfolding simulate_rows equity_after
  simulate_rows-equity_after [] drawn equity start = refl
  simulate_rows-equity_after (row ∷ rows) drawn equity start =
      simulate_rows-equity_after rows _ _ equity

-- A sum from a + b on is a plus the sum from b on.
sum_of-⊕ :
    (f : CaptureAttempt → Decimal) (xs : List CaptureAttempt) (a b : Decimal)
    → sum_of f xs (a ⊕ b) ≡ a ⊕ sum_of f xs b
unfolding sum_of
sum_of-⊕ f [] a b = refl
sum_of-⊕ f (x ∷ xs) a b = ap (sum_of f xs) (⊕_assoc a b (f x)) ∙ sum_of-⊕ f xs a (b ⊕ f x)

-- A sum of net results is the sum of receipts less the sums of payments.
sum_of_net :
    (xs : List CaptureAttempt) (p q r : Decimal)
    → All IsBalanced xs
    → sum_of (λ a. a.net_pnl) xs (p ⊖ q ⊖ r)
      ≡ sum_of (λ a. a.funding_pnl) xs p
        ⊖ sum_of (λ a. a.fees_paid) xs q
        ⊖ sum_of (λ a. a.slippage_paid) xs r
unfolding sum_of
sum_of_net [] p q r h = refl
sum_of_net (x ∷ xs) p q r h =
    ap (λ n. sum_of (λ a. a.net_pnl) xs (p ⊖ q ⊖ r ⊕ n)) h.0
    ∙ ap (sum_of (λ a. a.net_pnl) xs) (⊕-⊖_swap p q r x.funding_pnl x.fees_paid x.slippage_paid)
    ∙ sum_of_net xs (p ⊕ x.funding_pnl) (q ⊕ x.fees_paid) (r ⊕ x.slippage_paid) h.1

nothing_yet : nought ≡ nought ⊖ nought ⊖ nought
unfolding ◌⊕◌
nothing_yet = refl

count_total :
    (xs : List CaptureAttempt)
    → length xs ≡ count_of is_skipped xs + (count_of is_success xs + count_of is_failure xs)
unfolding count_of
count_total [] = refl
count_total (x ∷ xs) = ground (arith, count_total xs)

-- A simulation makes one attempt for each row, in the order of the sorted history, and its equity curve
-- ends in the final equity. The aggregates balance: each tick is skipped, succeeded or failed, the final
-- equity is the initial one plus the total result, and the total result is the funding received less
-- fees and slippage.
pub aggregate-simulated :
    (env : Numerics) (history : List FundingRow) (cfg : FundingSimConfig)
    → let r = simulated env history cfg in
      let s = aggregate r in
      (map row_of r.attempts ≡ env.sort_values history)
      × (last_of cfg.initial_equity r.equity_curve ≡ r.final_equity)
      × (s.total_ticks ≡ s.skipped + s.attempted)
      × (s.final_equity ≡ s.initial_equity ⊕ s.total_pnl)
      × (s.total_pnl ≡ s.funding_received ⊖ s.fees_paid ⊖ s.slippage_paid)
unfolding simulated aggregate
aggregate-simulated env history cfg =
    let random = env.default_rng cfg.rng_seed in
    let rows = env.sort_values history in
    let start = cfg.initial_equity in
    let xs = (simulate_rows cfg random rows 0 start).0 in
    (
      simulate_rows-row_of cfg random rows 0 start,
      simulate_rows-equity_after cfg random rows 0 start start,
      count_total xs,
      sym (simulate_rows-equity cfg random rows 0 start)
          ∙ ap (sum_of (λ a. a.net_pnl) xs) (sym (⊕-nought start))
          ∙ sum_of-⊕ (λ a. a.net_pnl) xs start nought,
      ap (sum_of (λ a. a.net_pnl) xs) nothing_yet
          ∙ sum_of_net xs nought nought nought (simulate_rows-IsBalanced cfg random rows 0 start),
    )
