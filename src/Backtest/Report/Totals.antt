-- ===== src/Backtest/Report/Totals.antt =====
-- src/backtest/report.py: the breakdowns add up to the headline metrics.
use hta.Common.{
  same, subst, ℕ, ◌+◌, ◌≡◌, refl, sym, ap, ◌∙◌, String, List, [], ◌∷◌, map, keep, length, All-every,
  arith, ◌==◌, ==_iff, if◌then◌else◌, Bool-cases, inl, inr,
}
use hta.Decimal.{Decimal, nought, ◌⊕◌, ◌<?◌}
use hta.Decimal.Sums.{⊕_assoc, nought-⊕, ⊕_left_comm}
use hta.Dict.{sorted_set, string_key}
use hta.Dict.Order.{string_order}
use hta.Dict.Groups.{
  Adding, sum_by, sum_by-same, sum_by-map, sum_by-partition, IsAscending, sorted_set-IsAscending,
}
use hta.Backtest.Report.{
  TradeRow, SimulationResult, Metrics, sum_of, pnl_of, compute_metrics, Group, group_of, breakdown,
}

abbrev counting : Adding ℕ
counting = record {
  zero = 0;
  add = ◌+◌;
  zero_add = λ a. omega arith;
  add_assoc = λ a b c. omega arith;
  add_left_comm = λ a b c. omega arith;
}

abbrev summing : Adding Decimal
summing = record {
  zero = nought;
  add = ◌⊕◌;
  zero_add = nought-⊕;
  add_assoc = ⊕_assoc;
  add_left_comm = ⊕_left_comm;
}

-- A field of the groups that is a sum over their rows adds up to the sum over all rows.
sum_by-breakdown :
    {M : Type 0} (adding : Adding M) (field : Group → M) (value : TradeRow → M)
    → ((k : String) (rs : List TradeRow) → field (group_of k rs) ≡ sum_by adding value rs)
    → (name : TradeRow → String) (rows : List TradeRow)
    → sum_by adding field (breakdown name rows) ≡ sum_by adding value rows
unfolding breakdown
sum_by-breakdown adding field value h name rows =
    sum_by-map adding field _ (sorted_set (map name rows))
    ∙ sum_by-same adding _ _ (sorted_set (map name rows)) (All-every _ _ (λ k. h k _))
    ∙ sum_by-partition adding name value rows

sum_of-map : {A : Type 0} (p : A → Decimal) (xs : List A) → sum_of (map p xs) ≡ sum_by summing p xs
unfolding sum_of
sum_of-map p [] = refl
sum_of-map p (x ∷ xs) = ap (λ d. p x ⊕ d) (sum_of-map p xs)

length-sum_by : (rows : List TradeRow) → length rows ≡ sum_by counting (λ _. 1) rows
length-sum_by [] = refl
length-sum_by (r ∷ rows) = omega (arith, length-sum_by rows)

abbrev pub wins_of : List TradeRow → ℕ
wins_of rows = length (keep (λ x. nought <? x) (pnl_of rows))

wins_of-sum_by :
    (rows : List TradeRow)
    → wins_of rows ≡ sum_by counting (λ r. if nought <? r.1.pnl then 1 else 0) rows
wins_of-sum_by [] = refl
wins_of-sum_by (r ∷ rows) = ground (arith, wins_of-sum_by rows)

-- Without rows a sum is nothing.
nothing_summed :
    (p : TradeRow → Decimal) (rows : List TradeRow) → length rows ≡ 0 → nought ≡ sum_of (map p rows)
unfolding sum_of
nothing_summed p [] h = refl
nothing_summed p (r ∷ rows) h = absurd (omega (arith, h))

-- The groups are one to a name, in order, and what they count and sum adds up to the metrics.
abbrev pub AddsUp : List Group → Metrics → List TradeRow → Type 0
AddsUp groups m rows =
    IsAscending (map (λ (g : Group). g.name) groups)
    × (sum_by counting (λ g. g.trades) groups ≡ m.total_trades)
    × (sum_by counting (λ g. g.wins) groups ≡ wins_of rows)
    × (sum_of (map (λ (g : Group). g.total_pnl) groups) ≡ m.total_pnl)
    × (sum_of (map (λ (g : Group). g.fees) groups) ≡ m.fees_paid)

map-breakdown :
    (name : TradeRow → String) (rows : List TradeRow)
    → map (λ (g : Group). g.name) (breakdown name rows) ≡ sorted_set (map name rows)
unfolding breakdown group_of
map-breakdown name rows = named (sorted_set (map name rows))
  where
    named :
        (ks : List String)
        → map (λ (g : Group). g.name) (map (λ n. group_of n (keep (λ r. same (name r) n) rows)) ks)
          ≡ ks
    named [] = refl
    named (k ∷ ks) = ap (λ t. k ∷ t) (named ks)

module _ (sharpe : List Decimal → Decimal) (result : SimulationResult) where
  compute_metrics_counted : length result.trades ≡ (compute_metrics sharpe result).total_trades
  unfolding compute_metrics
  compute_metrics_counted = elim (Bool-cases (length result.trades == 0)) [
    | inl e ↦ rw e ((==_iff _ 0).0 e)
    | inr e ↦ rw e refl
  ]

  compute_metrics_earned : sum_of (pnl_of result.trades) ≡ (compute_metrics sharpe result).total_pnl
  unfolding compute_metrics
  compute_metrics_earned = elim (Bool-cases (length result.trades == 0)) [
    | inl e ↦ rw e (sym (nothing_summed _ result.trades ((==_iff _ 0).0 e)))
    | inr e ↦ rw e refl
  ]

  compute_metrics_paid :
      sum_of (map (λ (r : TradeRow). r.1.fees) result.trades)
      ≡ (compute_metrics sharpe result).fees_paid
  unfolding compute_metrics
  compute_metrics_paid = elim (Bool-cases (length result.trades == 0)) [
    | inl e ↦ rw e (sym (nothing_summed _ result.trades ((==_iff _ 0).0 e)))
    | inr e ↦ rw e refl
  ]

-- The breakdown of the trades by any name has one row for each name that occurs, in order. Over its rows, the
-- counts of trades, the P&L and the fees add up to the headline metrics, and the wins to those of all trades.
pub compute_metrics-breakdown :
    (sharpe : List Decimal → Decimal) (result : SimulationResult) (name : TradeRow → String)
    → AddsUp (breakdown name result.trades) (compute_metrics sharpe result) result.trades
unfolding group_of
compute_metrics-breakdown sharpe result name =
    let rows = result.trades in
    (
      subst IsAscending (sym (map-breakdown name rows)) (sorted_set-IsAscending (map name rows)),
      sum_by-breakdown counting _ (λ _. 1) (λ k rs. length-sum_by rs) name rows
          ∙ sym (length-sum_by rows)
          ∙ compute_metrics_counted sharpe result,
      sum_by-breakdown counting _ _ (λ k rs. wins_of-sum_by rs) name rows
          ∙ sym (wins_of-sum_by rows),
      sum_of-map _ (breakdown name rows)
          ∙ sum_by-breakdown summing _ _ (λ k rs. sum_of-map _ rs) name rows
          ∙ sym (sum_of-map _ rows)
          ∙ compute_metrics_earned sharpe result,
      sum_of-map _ (breakdown name rows)
          ∙ sum_by-breakdown summing _ _ (λ k rs. sum_of-map _ rs) name rows
          ∙ sym (sum_of-map _ rows)
          ∙ compute_metrics_paid sharpe result,
    )
