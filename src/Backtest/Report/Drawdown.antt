-- ===== src/Backtest/Report/Drawdown.antt =====
-- src/backtest/report.py: the drawdown that the report gives is the worst of all bars.
use hta.Common.{List, [], ◌∷◌, All}
use hta.Decimal.{Decimal, nought, lesser}
use hta.Decimal.Order.{◌≼◌, ≼_refl, ≼_trans, lesser-≼_left, lesser-≼_right}
use hta.Backtest.Report.{least, drawdowns, max_drawdown_of}

least-≼ :
    (acc : Decimal) (xs : List Decimal) → (least acc xs ≼ acc) × All (λ x. least acc xs ≼ x) xs
unfolding least
least-≼ acc [] = (≼_refl acc, tt)
least-≼ acc (x ∷ xs) =
    let rest = least-≼ (lesser acc x) xs in
    (
      ≼_trans (least (lesser acc x) xs) (lesser acc x) acc rest.0 (lesser-≼_left acc x),
      (≼_trans (least (lesser acc x) xs) (lesser acc x) x rest.0 (lesser-≼_right acc x), rest.1),
    )

least_of : (ds : List Decimal) → All (λ d. (elim ds [ [] ↦ nought | e ∷ es ↦ least e es ]) ≼ d) ds
least_of [] = tt
least_of (d ∷ ds) = least-≼ d ds

-- No bar of the curve is further below its running peak than the maximal drawdown.
pub max_drawdown_of-≼ :
    (equity : List Decimal) → All (λ d. max_drawdown_of equity ≼ d) (drawdowns equity)
unfolding max_drawdown_of
max_drawdown_of-≼ equity = least_of (drawdowns equity)
