-- ===== src/Backtest/FundingSim.antt =====
-- src/backtest/funding_simulator.py: `simulate` and `aggregate`. Floats are exact numbers, and a time is a
-- number of seconds. The order of `sort_values` and the numbers of numpy's generator are parameters.
pub mod Accounts
use hta.Common.{
  ℕ, ◌+◌, String, Bool, true, false, Option, none, some, List, [], ◌∷◌, length, keep, ltb,
  if◌then◌else◌,
}
use hta.Decimal.{Decimal, whole, ratio, nought, opposite, ◌⊕◌, ◌⊖◌, ◌⊗◌, ◌⊘◌, ◌<?◌, ◌≤?◌}
use hta.Formatted.{Text, lit, fixed, plain}

pub record FundingSimConfig : Type 0 where
  pub funding_threshold : Decimal
  pub pre_tick_seconds : ℕ
  pub fill_window_seconds : ℕ
  pub post_tick_min_seconds : ℕ
  pub post_tick_max_seconds : ℕ
  pub maker_fee_per_side : Decimal
  pub taker_fee : Decimal
  pub slippage_per_leg : Decimal
  pub paired_fill_probability : Decimal
  pub notional_per_leg_pct : Decimal
  pub initial_equity : Decimal
  pub rng_seed : ℕ

abbrev pub default_sim : FundingSimConfig
default_sim = record {
  funding_threshold = ratio 1 999;
  pre_tick_seconds = 600;
  fill_window_seconds = 90;
  post_tick_min_seconds = 60;
  post_tick_max_seconds = 120;
  maker_fee_per_side = ratio 15 99999;
  taker_fee = ratio 35 99999;
  slippage_per_leg = ratio 5 99999;
  paired_fill_probability = ratio 80 99;
  notional_per_leg_pct = ratio 50 99;
  initial_equity = whole 1500;
  rng_seed = 42;
}

-- The strings 'skipped', 'success' and 'fill_failure'.
pub data Outcome : Type 0 where
  skipped success fill_failure : Outcome

-- A row of the funding history.
pub record FundingRow : Type 0 where
  pub tick_time : Decimal
  pub coin : String
  pub funding_rate : Decimal

pub record CaptureAttempt : Type 0 where
  pub tick_time : Decimal
  pub coin : String
  pub funding_rate : Decimal
  pub notional : Decimal
  pub outcome : Outcome
  pub fills : ℕ
  pub funding_pnl : Decimal
  pub fees_paid : Decimal
  pub slippage_paid : Decimal
  pub net_pnl : Decimal
  pub note : Text

pub record FundingSimResult : Type 0 where
  pub attempts : List CaptureAttempt
  pub final_equity : Decimal
  pub config : FundingSimConfig
  pub equity_curve : List Decimal

-- `_equity_after`, from the running equity `eq` on.
unfoldable pub equity_after : List CaptureAttempt → Decimal → List Decimal
equity_after [] eq = eq ∷ []
equity_after (a ∷ attempts) eq = eq ∷ equity_after attempts (eq ⊕ a.net_pnl)

unfoldable pub skip : FundingRow → Text → CaptureAttempt
skip row note = record {
  tick_time = row.tick_time;
  coin = row.coin;
  funding_rate = row.funding_rate;
  notional = nought;
  outcome = skipped;
  fills = 0;
  funding_pnl = nought;
  fees_paid = nought;
  slippage_paid = nought;
  net_pnl = nought;
  note = note;
}

unfoldable pub succeed : FundingRow → Decimal → FundingSimConfig → CaptureAttempt
succeed row notional cfg =
    let fees = notional ⊗ cfg.maker_fee_per_side ⊗ whole 4 in
    let slippage = notional ⊗ cfg.slippage_per_leg ⊗ whole 4 in
    let funding_pnl = notional ⊗ row.funding_rate in
    record {
      tick_time = row.tick_time;
      coin = row.coin;
      funding_rate = row.funding_rate;
      notional = notional;
      outcome = success;
      fills = 4;
      funding_pnl = funding_pnl;
      fees_paid = fees;
      slippage_paid = slippage;
      net_pnl = funding_pnl ⊖ fees ⊖ slippage;
      note = plain "both legs filled, held through tick";
    }

unfoldable pub fail : FundingRow → Decimal → FundingSimConfig → CaptureAttempt
fail row notional cfg =
    let fees = notional ⊗ (cfg.maker_fee_per_side ⊕ cfg.taker_fee) in
    let slippage = notional ⊗ cfg.slippage_per_leg ⊗ whole 2 in
    record {
      tick_time = row.tick_time;
      coin = row.coin;
      funding_rate = row.funding_rate;
      notional = notional;
      outcome = fill_failure;
      fills = 2;
      funding_pnl = nought;
      fees_paid = fees;
      slippage_paid = slippage;
      net_pnl = opposite fees ⊖ slippage;
      note = plain "one leg unfilled within 90s; filled leg market-unwound";
    }

-- An attempt is made, and a random number drawn, with equity and a rate above the threshold.
abbrev pub is_attempted : FundingSimConfig → Decimal → FundingRow → Bool
is_attempted cfg equity row =
    if equity ≤? nought then false else cfg.funding_threshold <? row.funding_rate

-- The body of the loop, where `roll` is the next random number.
unfoldable pub attempt : FundingSimConfig → Decimal → FundingRow → Decimal → CaptureAttempt
unfolding skip succeed fail
attempt cfg equity row roll =
    let notional = equity ⊗ cfg.notional_per_leg_pct in
    if equity ≤? nought
    then skip row (plain "no equity")
    else if row.funding_rate ≤? cfg.funding_threshold
    then skip row
        (lit "at-or-below threshold " ∷ fixed 4 (cfg.funding_threshold ⊗ whole 100) ∷ lit "%" ∷ [])
    else if roll <? cfg.paired_fill_probability
    then succeed row notional cfg
    else fail row notional cfg

-- The loop over the rows: from the equity and the count of numbers drawn, the attempts and the equity at
-- the end.
unfoldable pub simulate_rows :
    FundingSimConfig → (ℕ → Decimal) → List FundingRow → ℕ → Decimal → List CaptureAttempt × Decimal
unfolding attempt
simulate_rows cfg random [] drawn equity = ([], equity)
simulate_rows cfg random (row ∷ rows) drawn equity =
    let a = attempt cfg equity row (random drawn) in
    let (attempts, final_equity) =
      simulate_rows cfg random rows (if is_attempted cfg equity row then drawn + 1 else drawn)
        (equity ⊕ a.net_pnl) in
    (a ∷ attempts, final_equity)

-- What pandas and numpy do for the simulator.
pub record Numerics : Type 0 where
  pub sort_values : List FundingRow → List FundingRow  -- by "tick_time" and "coin"
  pub default_rng : ℕ → ℕ → Decimal  -- the numbers that a seed gives

-- What `simulate` returns for a history that has its columns.
unfoldable pub simulated : Numerics → List FundingRow → FundingSimConfig → FundingSimResult
unfolding simulate_rows equity_after
simulated env history cfg =
    let (attempts, final_equity) =
      simulate_rows cfg (env.default_rng cfg.rng_seed) (env.sort_values history) 0
        cfg.initial_equity in
    record {
      attempts = attempts;
      final_equity = final_equity;
      config = cfg;
      equity_curve = equity_after attempts cfg.initial_equity;
    }

-- `simulate`, where none is a history without the columns, and then the `ValueError`.
unfoldable pub simulate :
    Numerics → Option (List FundingRow) → FundingSimConfig → Option FundingSimResult
unfolding simulated
simulate env none cfg = none
simulate env (some history) cfg = some (simulated env history cfg)

pub record FundingSimStats : Type 0 where
  pub total_ticks : ℕ
  pub skipped : ℕ
  pub attempted : ℕ
  pub succeeded : ℕ
  pub failed : ℕ
  pub win_rate : Decimal
  pub funding_received : Decimal
  pub fees_paid : Decimal
  pub slippage_paid : Decimal
  pub total_pnl : Decimal
  pub final_equity : Decimal
  pub initial_equity : Decimal

abbrev pub is_skipped : Outcome → Bool
is_skipped skipped = true
is_skipped success = false
is_skipped fill_failure = false

abbrev pub is_success : Outcome → Bool
is_success skipped = false
is_success success = true
is_success fill_failure = false

abbrev pub is_failure : Outcome → Bool
is_failure skipped = false
is_failure success = false
is_failure fill_failure = true

-- `sum(1 for a in attempts if …)`
unfoldable pub count_of : (Outcome → Bool) → List CaptureAttempt → ℕ
count_of p attempts = length (keep (λ a. p a.outcome) attempts)

-- `sum(… for a in attempts)`, from `total` on.
unfoldable pub sum_of : (CaptureAttempt → Decimal) → List CaptureAttempt → Decimal → Decimal
sum_of f [] total = total
sum_of f (a ∷ attempts) total = sum_of f attempts (total ⊕ f a)

unfoldable pub aggregate : FundingSimResult → FundingSimStats
unfolding count_of sum_of
aggregate result =
    let succeeded = count_of is_success result.attempts in
    let failed = count_of is_failure result.attempts in
    let attempted = succeeded + failed in
    record {
      total_ticks = length result.attempts;
      skipped = count_of is_skipped result.attempts;
      attempted = attempted;
      succeeded = succeeded;
      failed = failed;
      win_rate = if ltb 0 attempted then whole succeeded ⊘ whole attempted else nought;
      funding_received = sum_of (λ a. a.funding_pnl) result.attempts nought;
      fees_paid = sum_of (λ a. a.fees_paid) result.attempts nought;
      slippage_paid = sum_of (λ a. a.slippage_paid) result.attempts nought;
      total_pnl = sum_of (λ a. a.net_pnl) result.attempts nought;
      final_equity = result.final_equity;
      initial_equity = result.config.initial_equity;
    }
