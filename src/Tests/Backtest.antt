-- ===== src/Tests/Backtest.antt =====
-- src/backtest on a concrete funding history.
use hta.Common.{ℕ, ◌+◌, ◌*◌, ◌≡◌, refl, List, [], ◌∷◌, map, ◌==◌, if◌then◌else◌}
use hta.Decimal.{whole, ratio, ◌⊕◌, ◌⊖◌, ◌⊗◌, ◌<?◌}
use hta.Backtest.FundingSim.{
  FundingRow, CaptureAttempt, Numerics, default_sim, skipped, success, fill_failure, skip, succeed,
  fail, attempt, simulate_rows, simulated, aggregate,
}
use hta.Backtest.FundingSim.Accounts.{row_of, last_of, aggregate-simulated}

abbrev paying : ℕ → ℕ → FundingRow
paying hour rate = record {
  tick_time = whole (3600 * hour);
  coin = "BTC";
  funding_rate = ratio rate 999;
}

-- A tick below the threshold, one on which both legs fill, and one on which one does.
abbrev history : List FundingRow
history = paying 1 0 ∷ paying 2 2 ∷ paying 3 3 ∷ []

abbrev env : Numerics
env = record {
  sort_values = λ rows. rows;
  default_rng = λ seed drawn. if drawn == 0 then ratio 1 1 else ratio 9 9;
}

three_outcomes :
    map (λ (a : CaptureAttempt). a.outcome) (simulated env history default_sim).attempts
    ≡ skipped ∷ success ∷ fill_failure ∷ []
unfolding simulated simulate_rows attempt skip succeed fail ◌⊕◌ ◌⊗◌ ◌<?◌
three_outcomes = refl

aggregate-simulated_example :
    let r = simulated env history default_sim in
    let s = aggregate r in
    (map row_of r.attempts ≡ history)
    × (last_of default_sim.initial_equity r.equity_curve ≡ r.final_equity)
    × (s.total_ticks ≡ s.skipped + s.attempted)
    × (s.final_equity ≡ s.initial_equity ⊕ s.total_pnl)
    × (s.total_pnl ≡ s.funding_received ⊖ s.fees_paid ⊖ s.slippage_paid)
aggregate-simulated_example = aggregate-simulated env history default_sim
