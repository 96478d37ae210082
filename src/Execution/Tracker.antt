-- ===== src/Execution/Tracker.antt =====
-- src/execution/position_tracker.py: the cache of the exchange's positions and orders. The JSON of
-- `user_state` is what the reader looks at: a field is absent, null, a number, or no number.
pub mod Refresh
use hta.Common.{
  ℕ, String, Bool, true, false, not, ◌||◌, Option, none, some, List, [], ◌∷◌, if◌then◌else◌,
}
use hta.Decimal.{Decimal, nought, ◌⊘◌, ◌=?◌, magnitude}
use hta.Dict.{Dict, get, put, values, string_key, number_key}
use hta.Risk.KillSwitch.{OpenOrderRef, Answer, returns, raises}

pub data Field : Type 0 where
  absent null junk : Field
  number : Decimal → Field

pub record RawPosition : Type 0 where
  pub coin : Option String
  pub szi : Field
  pub entry_px : Field
  pub position_value : Field
  pub liquidation_px : Field

-- An element of `assetPositions`: with a `position` that is a dict, or skipped.
pub data AssetPosition : Type 0 where
  skipped : AssetPosition
  position : RawPosition → AssetPosition

pub record UserState : Type 0 where
  pub asset_positions : List AssetPosition
  pub account_value : Field  -- of `marginSummary`
  pub total_raw_usd : Field

pub record TrackedPosition : Type 0 where
  pub symbol : String
  pub size : Decimal  -- signed
  pub entry_price : Decimal
  pub mark_price : Decimal
  pub liq_price : Option Decimal

pub record TrackedOrder : Type 0 where
  pub symbol : String
  pub oid : ℕ
  pub is_buy : Bool
  pub size : Decimal
  pub price : Decimal

pub record PositionTracker : Type 0 where
  pub positions : Dict String TrackedPosition
  pub orders : Dict ℕ TrackedOrder
  pub equity : Decimal
  pub free_margin : Decimal

abbrev pub empty_tracker : PositionTracker
empty_tracker = record { positions = []; orders = []; equity = nought; free_margin = nought }

unfoldable pub to_decimal : Field → Option Decimal
to_decimal absent = none
to_decimal null = none
to_decimal junk = none
to_decimal (number x) = some x

-- `pos.get("positionValue", 0)`
abbrev or_zero : Field → Field
or_zero absent = number nought
or_zero f = f

-- Python's `x or y`, where `None` and 0 are false.
unfoldable pub or_else : Option Decimal → Decimal → Decimal
or_else none y = y
or_else (some x) y = if x =? nought then y else x

-- The entry for a position of the size `size`, which is not 0. The exceptions are the `TypeError` of
-- `None / size` and the `KeyError` of `pos["coin"]`.
unfoldable pub tracked : RawPosition → Decimal → Answer TrackedPosition
unfolding to_decimal or_else
tracked raw size = elim raw.coin [
  | none ↦ raises "KeyError('coin')"
  | some coin ↦ elim (to_decimal (or_zero raw.position_value)) [
    | none ↦ raises "TypeError"
    | some value ↦ returns (record {
      symbol = coin;
      size = size;
      entry_price = or_else (to_decimal raw.entry_px) nought;
      mark_price = value ⊘ magnitude size;
      liq_price = to_decimal raw.liquidation_px;
    })
  ]
]

-- The size that an entry is read with; `none` where the loop goes on with the next.
unfoldable pub size_of : AssetPosition → Option (RawPosition × Decimal)
unfolding to_decimal
size_of skipped = none
size_of (position raw) = elim (to_decimal raw.szi) [
  | none ↦ none
  | some size ↦ if size =? nought then none else some (raw, size)
]

-- The loop over `assetPositions`: the entries read so far, and the exception that ended it.
unfoldable pub read_positions :
    List AssetPosition → Dict String TrackedPosition → Dict String TrackedPosition × Option String
unfolding size_of tracked put
read_positions [] acc = (acc, none)
read_positions (a ∷ as_) acc = elim (size_of a) [
  | none ↦ read_positions as_ acc
  | some (raw, size) ↦ elim (tracked raw size) [
    | returns p ↦ read_positions as_ (put p.symbol p acc)
    | raises exc ↦ (acc, some exc)
  ]
]

-- The adapter does not carry side, size or price of an order.
abbrev pub tracked_order : OpenOrderRef → TrackedOrder
tracked_order r = record {
  symbol = r.symbol;
  oid = r.oid;
  is_buy = true;
  size = nought;
  price = nought;
}

unfoldable pub read_orders : List OpenOrderRef → Dict ℕ TrackedOrder → Dict ℕ TrackedOrder
unfolding put
read_orders [] acc = acc
read_orders (r ∷ rs) acc = read_orders rs (put r.oid (tracked_order r) acc)

abbrev with_margin : UserState → List OpenOrderRef → Dict String TrackedPosition → PositionTracker
with_margin state orders positions = record {
  positions = positions;
  orders = read_orders orders [];
  equity = or_else (to_decimal state.account_value) nought;
  free_margin =
      or_else (to_decimal state.total_raw_usd) (or_else (to_decimal state.account_value) nought);
}

-- The part of `refresh` under the lock. Where the loop raises, the positions read so far stay, beside the
-- old orders and margins.
unfoldable pub store :
    UserState → List OpenOrderRef → PositionTracker → PositionTracker × Option String
unfolding read_positions read_orders or_else to_decimal
store state orders t =
    let (positions, exc) = read_positions state.asset_positions [] in
    elim exc [
      | none ↦ (with_margin state orders positions, none)
      | some e ↦ (record t { positions = positions }, some e)
    ]

-- The new cache, and the exception that leaves the method.
unfoldable pub refresh :
    Answer UserState
    → Answer (List OpenOrderRef)
    → PositionTracker
    → PositionTracker × Option String
unfolding store
refresh (raises exc) orders t = (t, some exc)
refresh (returns state) (raises exc) t = (t, some exc)
refresh (returns state) (returns orders) t = store state orders t

-- The accessors.
unfoldable pub get_position : PositionTracker → String → Option TrackedPosition
get_position t symbol = get symbol t.positions

unfoldable pub positions_of : PositionTracker → List TrackedPosition
positions_of t = values t.positions

unfoldable pub open_orders_of : PositionTracker → List TrackedOrder
open_orders_of t = values t.orders
