-- ===== src/Execution/Allocator.antt =====
-- src/execution/capital_allocator.py: how equity is split between the strategies.
pub mod Budget
use hta.Common.{
  String, Bool, false, not, Option, none, some, List, [], ◌∷◌, map, same, if◌then◌else◌,
}
use hta.Decimal.{Decimal, whole, ratio, nought, ◌⊕◌, ◌⊖◌, ◌⊗◌, ◌<?◌, ◌≤?◌, lesser, greater}
use hta.Dict.{Dict, get, keys, values, string_key}

pub record StrategyAllocation : Type 0 where
  pub strategy : String
  pub max_pct : Decimal
  pub used_notional : Decimal
  pub available_notional : Decimal
  pub degraded : Bool

pub record CapitalAllocatorConfig : Type 0 where
  pub strategy_max_pct : Dict String Decimal
  pub buffer_pct : Decimal

unfoldable pub sum_from : Decimal → List Decimal → Decimal
sum_from total [] = total
sum_from total (x ∷ xs) = sum_from (total ⊕ x) xs

-- The constructor: `none` is the `ValueError` of `__post_init__`.
unfoldable pub make_config : Dict String Decimal → Decimal → Option CapitalAllocatorConfig
unfolding sum_from
make_config shares buffer_pct =
    if whole 1 <? sum_from nought (values shares) ⊕ buffer_pct
    then none
    else some (record { strategy_max_pct = shares; buffer_pct = buffer_pct })

abbrev pub default_config : CapitalAllocatorConfig
default_config = record {
  strategy_max_pct = ("mean_reversion", ratio 25 99) ∷ ("funding_capture", ratio 50 99) ∷ [];
  buffer_pct = ratio 25 99;
}

abbrev pub or_nought : Option Decimal → Decimal
or_nought none = nought
or_nought (some x) = x

-- `max(Decimal("0"), used_by_strategy.get(name, Decimal("0")))`
unfoldable pub used_of : Dict String Decimal → String → Decimal
unfolding get
used_of used name = greater nought (or_nought (get name used))

-- The usage of the strategies other than `name`, added to `total`.
unfoldable pub other_used : Dict String Decimal → String → Decimal → List String → Decimal
unfolding used_of
other_used used name total [] = total
other_used used name total (other ∷ rest) =
    other_used used name (if same other name then total else total ⊕ used_of used other) rest

-- The body of the loop in `allocate`.
unfoldable pub allocate_one :
    Decimal → Dict String Decimal → CapitalAllocatorConfig → String × Decimal → StrategyAllocation
unfolding used_of other_used
allocate_one equity used_by cfg (name, max_pct) =
    let buffer = equity ⊗ cfg.buffer_pct in
    let used = used_of used_by name in
    let nominal_available = greater nought (equity ⊗ max_pct ⊖ used) in
    let other = other_used used_by name nought (keys cfg.strategy_max_pct) in
    let residual = greater nought (equity ⊖ buffer ⊖ other ⊖ used) in
    let available = lesser nominal_available residual in
    record {
      strategy = name;
      max_pct = max_pct;
      used_notional = used;
      available_notional = available;
      degraded = available <? nominal_available;
    }

abbrev unfunded : String × Decimal → StrategyAllocation
unfunded (name, max_pct) = record {
  strategy = name;
  max_pct = max_pct;
  used_notional = nought;
  available_notional = nought;
  degraded = false;
}

abbrev or_default : Option CapitalAllocatorConfig → CapitalAllocatorConfig
or_default none = default_config
or_default (some cfg) = cfg

-- The keys of a dict are distinct, so that each `out[name] = …` adds an entry.
unfoldable pub allocate :
    Decimal → Dict String Decimal → Option CapitalAllocatorConfig → Dict String StrategyAllocation
unfolding allocate_one
allocate equity used_by config =
    let cfg = or_default config in
    map (λ e. (e.0, (if equity ≤? nought then unfunded e else allocate_one equity used_by cfg e)))
      cfg.strategy_max_pct
