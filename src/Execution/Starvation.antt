-- ===== src/Execution/Starvation.antt =====
-- The allocation of src/execution/capital_allocator.py, which is what a strategy may open on top of what
-- it uses, as `_funding_capture_tick` of src/main.py hands it to a capture that holds.
use hta.Common.{String, ◌≡◌, arith, Bool-cases, inl, inr}
use hta.Decimal.{Decimal, nought, ◌⊕◌, ◌⊖◌, ◌⊗◌, ◌<?◌, magnitude, lesser, greater}
use hta.Decimal.Order.{◌≼◌, ◌≺◌, lesser-≼_left, ≺_of_≼-≺, ≺_of_≺-≼}
use hta.Decimal.Arith.{≺-⊖, ⊕_mono_left}
use hta.Dict.{Dict}
use hta.Strategies.Capture.{
  holding, exit_pending, Time, FundingCaptureConfig, FundingRateInfo, FundingCaptureSymbolState,
}
use hta.Strategies.Funding.{by_phase, evaluate_symbol}
use hta.Execution.Allocator.{CapitalAllocatorConfig, used_of, allocate_one}

-- What is left of a share once `used`, which counts at least the notional n, is taken off.
scarce :
    (share used n r other : Decimal)
    → nought ≺ r
    → n ≼ used
    → share ≺ n ⊕ r
    → lesser (greater nought (share ⊖ used)) other ≺ r
unfolding greater
scarce share used n r other pos counted h =
    ≺_of_≼-≺ _ _ _ (lesser-≼_left _ other) (elim (Bool-cases (nought <? share ⊖ used)) [
      | inl e ↦
          rw e
            (≺-⊖ share r used (≺_of_≺-≼ share (n ⊕ r) (used ⊕ r) h (⊕_mono_left n used r counted)))
      | inr e ↦ rw e pos
    ])

allocate_one_scarce :
    (equity share n r : Decimal) (used_by : Dict String Decimal) (split : CapitalAllocatorConfig)
    (name : String)
    → nought ≺ r
    → n ≼ used_of used_by name
    → equity ⊗ share ≺ n ⊕ r
    → (allocate_one equity used_by split (name, share)).available_notional ≺ r
unfolding allocate_one
allocate_one_scarce equity share n r used_by split name = scarce (equity ⊗ share) _ n r _

-- A capture that holds is given up at its next evaluation, also long before the funding tick, if its
-- notional n is more than share * equity / (1 + ratio), where `ratio` is `early_exit_capital_ratio` and
-- `share` the strategy's share of the equity: the allocator's answer, which has n taken off already, is
-- then below n * ratio.
pub evaluate_symbol_starved :
    (now : Time) (rate : FundingRateInfo) (s : FundingCaptureSymbolState)
    (cfg : FundingCaptureConfig) (equity share : Decimal) (used_by : Dict String Decimal)
    (split : CapitalAllocatorConfig) (name : String)
    → s.phase ≡ holding
    → nought ≺ magnitude s.target_notional
    → nought ≺ magnitude s.target_notional ⊗ cfg.early_exit_capital_ratio
    → magnitude s.target_notional ≼ used_of used_by name
    → equity ⊗ share
      ≺ magnitude s.target_notional ⊕ magnitude s.target_notional ⊗ cfg.early_exit_capital_ratio
    → (evaluate_symbol now rate
        (record {
          equity = equity;
          available_notional_for_strategy =
              (allocate_one equity used_by split (name, share)).available_notional;
        })
        s
        cfg).next_state.phase
      ≡ exit_pending
unfolding evaluate_symbol by_phase
evaluate_symbol_starved now rate s cfg equity share used_by split name h pos r counted large =
    ground (
      arith,
      allocate_one_scarce equity share (magnitude s.target_notional)
          (magnitude s.target_notional ⊗ cfg.early_exit_capital_ratio) used_by split name r counted
          large,
    )
