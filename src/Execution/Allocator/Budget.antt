-- ===== src/Execution/Allocator/Budget.antt =====
-- What the strategies may open on top of what they use.
use hta.Common.{String, ◌≡◌, refl, ap, inl, inr, some, [], ◌∷◌, map, All, Bool-cases}
use hta.Decimal.{Decimal, nought, ◌⊕◌, ◌⊖◌, ◌⊗◌, ◌<?◌, lesser, greater}
use hta.Decimal.Order.{◌≼◌, ◌≺◌, lesser-≼_left, lesser-≼_right, ≼-greater_left, ≼-lesser}
use hta.Decimal.Arith.{≼-⊖}
use hta.Dict.{Dict, keys, values}
use hta.Execution.Allocator.{
  StrategyAllocation, CapitalAllocatorConfig, used_of, other_used, allocate_one, allocate,
}

-- A part of max(0, a - b) that is positive leaves room for b within a.
room : (x a b : Decimal) → nought ≺ x → x ≼ greater nought (a ⊖ b) → x ⊕ b ≼ a
unfolding greater
room x a b pos h = elim (Bool-cases (nought <? a ⊖ b)) [
  | inl e ↦ ≼-⊖ x a b (rw e at h)
  | inr e ↦ absurd (let none_left : x ≼ nought = rw e at h in cc)
]

-- Using the whole allocation keeps the strategy within its share, and all strategies together within
-- the equity less the buffer.
pub record IsWithinBudget (equity : Decimal) (used_by : Dict String Decimal)
    (cfg : CapitalAllocatorConfig) (a : StrategyAllocation) : Type 0 where
  pub nonneg : nought ≼ a.available_notional
  pub share :
      nought ≺ a.available_notional → a.available_notional ⊕ a.used_notional ≼ equity ⊗ a.max_pct
  pub total :
      nought ≺ a.available_notional
      → a.available_notional
          ⊕ a.used_notional
          ⊕ other_used used_by a.strategy nought (keys cfg.strategy_max_pct)
          ⊕ equity ⊗ cfg.buffer_pct
        ≼ equity

allocate_one-IsWithinBudget :
    (equity : Decimal) (used_by : Dict String Decimal) (cfg : CapitalAllocatorConfig)
    (e : String × Decimal)
    → IsWithinBudget equity used_by cfg (allocate_one equity used_by cfg e)
unfolding allocate_one
allocate_one-IsWithinBudget equity used_by cfg (name, max_pct) =
    let used = used_of used_by name in
    let other = other_used used_by name nought (keys cfg.strategy_max_pct) in
    let buffer = equity ⊗ cfg.buffer_pct in
    let nominal = greater nought (equity ⊗ max_pct ⊖ used) in
    let residual = greater nought (equity ⊖ buffer ⊖ other ⊖ used) in
    let x = lesser nominal residual in
    record {
      nonneg = ≼-lesser nought nominal residual (≼-greater_left nought _) (≼-greater_left nought _);
      share = λ pos. room x (equity ⊗ max_pct) used pos (lesser-≼_left nominal residual);
      total = λ pos. ≼-⊖ (x ⊕ used ⊕ other) equity buffer (
          ≼-⊖ (x ⊕ used) (equity ⊖ buffer) other
            (room x (equity ⊖ buffer ⊖ other) used pos (lesser-≼_right nominal residual)));
    }

All-values :
    {A : Type 0} (P : A → Type 0) (f : String × Decimal → A) (es : Dict String Decimal)
    → ((e : String × Decimal) → P (f e))
    → All P (values (map (λ e. (e.0, f e)) es))
All-values P f [] h = tt
All-values P f (e ∷ es) h = (h e, All-values P f es h)

keys-map :
    {A : Type 0} (f : String × Decimal → A) (es : Dict String Decimal)
    → keys (map (λ e. (e.0, f e)) es) ≡ keys es
keys-map f [] = refl
keys-map f (e ∷ es) = ap (◌∷◌ e.0) (keys-map f es)

-- For positive equity every strategy of the configuration gets an allocation that is not negative, and
-- using it up keeps the strategy within its share of the equity, and its usage, the other strategies'
-- and the buffer together within the equity. (Both hold of an allocation that is not 0; at 0 nothing
-- may be opened.)
pub allocate-IsWithinBudget :
    (equity : Decimal) (used_by : Dict String Decimal) (cfg : CapitalAllocatorConfig)
    → nought ≺ equity
    → All (IsWithinBudget equity used_by cfg) (values (allocate equity used_by (some cfg)))
      × (keys (allocate equity used_by (some cfg)) ≡ keys cfg.strategy_max_pct)
unfolding allocate
allocate-IsWithinBudget equity used_by cfg pos = rw pos (
  All-values (IsWithinBudget equity used_by cfg) (allocate_one equity used_by cfg)
      cfg.strategy_max_pct (allocate_one-IsWithinBudget equity used_by cfg),
  keys-map _ cfg.strategy_max_pct,
)

-- Without equity every strategy of the configuration gets 0.
pub allocate_broke :
    (equity : Decimal) (used_by : Dict String Decimal) (cfg : CapitalAllocatorConfig)
    → equity ≼ nought
    → All (λ a. a.available_notional ≡ nought) (values (allocate equity used_by (some cfg)))
unfolding allocate
allocate_broke equity used_by cfg broke =
    rw broke (All-values (λ a. a.available_notional ≡ nought) _ cfg.strategy_max_pct (λ e. refl))
