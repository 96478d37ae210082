-- ===== src/Execution/Reconciler.antt =====
-- src/execution/reconciler.py: one pass of the check of the cache against the exchange.
pub mod Divergence
use hta.Common.{
  ℕ, String, Bool, true, false, not, Option, none, some, List, [], ◌∷◌, ◌++◌, map, if◌then◌else◌,
  is_some, keep,
}
use hta.Decimal.{Decimal, nought, ◌=?◌}
use hta.Formatted.{Text, lit, int, dec, plain}
use hta.Dict.{Dict, get, keys, sorted_set, string_key, number_key}
use hta.Risk.KillSwitch.{KillSwitch, Services, Answer, returns, raises, halt, OpenOrderRef}
use hta.Execution.Tracker.{UserState, TrackedPosition, TrackedOrder, PositionTracker, refresh}

unfoldable pub size_at : Dict String TrackedPosition → String → Decimal
size_at d symbol = elim (get symbol d) [ none ↦ nought | some p ↦ p.size ]

abbrev pub symbols : Dict String TrackedPosition → Dict String TrackedPosition → List String
symbols old new = sorted_set (keys old ++ keys new)

-- The loop over the sorted symbols.
unfoldable pub position_diffs :
    Dict String TrackedPosition → Dict String TrackedPosition → List String → List Text
unfolding size_at
position_diffs old new [] = []
position_diffs old new (s ∷ ss) =
    let rest = position_diffs old new ss in
    if size_at old s =? size_at new s
    then rest
    else (lit "position["
        ∷ lit s
        ∷ lit "]: cached="
        ∷ dec (size_at old s)
        ∷ lit " truth="
        ∷ dec (size_at new s)
        ∷ [])
      ∷ rest

unfoldable pub diff_positions :
    Dict String TrackedPosition → Dict String TrackedPosition → List Text
unfolding position_diffs
diff_positions old new = position_diffs old new (symbols old new)

-- `set(a) - set(b)`, sorted.
unfoldable pub only_in : Dict ℕ TrackedOrder → Dict ℕ TrackedOrder → List ℕ
only_in a b = sorted_set (keep (λ oid. not (is_some (get oid b))) (keys a))

abbrev symbol_at : Dict ℕ TrackedOrder → ℕ → String
symbol_at d oid = elim (get oid d) [ none ↦ "" | some o ↦ o.symbol ]

unfoldable pub diff_orders : Dict ℕ TrackedOrder → Dict ℕ TrackedOrder → List Text
unfolding only_in
diff_orders old new =
    map (λ oid. lit "order[" ∷ int oid ∷ lit "] disappeared: was " ∷ lit (symbol_at old oid) ∷ [])
      (only_in old new)
    ++ map (λ oid. lit "order[" ∷ int oid ∷ lit "] appeared: now " ∷ lit (symbol_at new oid) ∷ [])
        (only_in new old)

-- `"; ".join(diffs)`
abbrev pub join : List Text → Text
join [] = []
join (d ∷ []) = d
join (d ∷ e ∷ ds) = d ++ lit "; " ∷ join (e ∷ ds)

abbrev pub is_empty : List Text → Bool
is_empty [] = true
is_empty (_ ∷ _) = false

-- What the exchange, the journal and the kill switch's services answer in one pass, and its time.
pub record Pass : Type 0 where
  pub user_state : Answer UserState
  pub open_orders : Answer (List OpenOrderRef)
  pub tick : Answer (Unit {0})  -- the journal's answer to "reconciler_tick"
  pub services : Services
  pub ts : String

pub record Reconciled : Type 0 where
  pub tracker : PositionTracker
  pub kill_switch : KillSwitch
  pub raised : Option String

abbrev pub divergences : PositionTracker → PositionTracker → List Text
divergences old new =
    diff_positions old.positions new.positions ++ diff_orders old.orders new.orders

abbrev halting : PositionTracker → Pass → Text → KillSwitch → Reconciled
halting t pass reason k =
    let (k', raised) = halt pass.services reason pass.ts k in
    record { tracker = t; kill_switch = k'; raised = raised }

-- The part of `check_once` after the refresh.
unfoldable pub compare_caches : Pass → PositionTracker → PositionTracker → KillSwitch → Reconciled
compare_caches pass old new k =
    let diffs = divergences old new in
    elim pass.tick [
      | raises exc ↦ record { tracker = new; kill_switch = k; raised = some exc }
      | returns _ ↦
          if is_empty diffs
          then record { tracker = new; kill_switch = k; raised = none }
          else halting new pass (lit "reconciliation divergence: " ∷ join diffs) k
    ]

unfoldable pub check_once : Pass → PositionTracker → KillSwitch → Reconciled
check_once pass t k =
    let (t', exc) = refresh pass.user_state pass.open_orders t in
    if k.halted then record { tracker = t; kill_switch = k; raised = none } else elim exc [
      | none ↦ compare_caches pass t t' k
      | some e ↦ halting t' pass (lit "reconciliation failed: " ∷ plain e) k
    ]
