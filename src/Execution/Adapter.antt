-- ===== src/Execution/Adapter.antt =====
-- src/execution/exchange_adapter.py: the answers of the exchange's SDK as the adapter reads them. `str` of an
-- answer and `repr` of an exception are texts; a list of the SDK is a list.
use hta.Common.{
  ℕ, String, Bool, true, false, ◌||◌, Option, none, some, List, [], ◌∷◌, if◌then◌else◌,
}
use hta.Decimal.{Decimal, nought}
use hta.Strings.{lower, contains_text}
use hta.Risk.KillSwitch.{OpenOrderRef, PositionSnapshot, Answer, returns, raises}
use hta.Execution.Tracker.{Field, absent, null, junk, number}
use hta.Execution.RouterState.{OrderResult}

-- A value that `int` is applied to.
pub data IntValue : Type 0 where
  missing : IntValue  -- no key: a KeyError, or the None of `get`
  wrong_type : IntValue  -- a TypeError
  wrong_text : IntValue  -- a ValueError
  an_int : ℕ → IntValue

-- `s["resting"]` and `s["filled"]`.
pub data Leg : Type 0 where
  nothing : Leg  -- no such key, or no dictionary
  leg : IntValue → Leg

pub data Status : Type 0 where
  plain_status : Status  -- no dictionary
  -- `str` of the error, where there is one, and the legs.
  dict_status : Option String → Leg → Leg → Status

pub data Response : Type 0 where
  unreadable : Response  -- the path to the statuses is a KeyError or a TypeError
  statuses : List Status → Response

-- The text of the error, "" where there is none.
abbrev error_of : Status → String
error_of plain_status = ""
error_of (dict_status none resting filled) = ""
error_of (dict_status (some error) resting filled) = error

-- `_is_alo_rejected`
unfoldable pub is_alo_rejected : Response → Bool
unfolding lower contains_text
is_alo_rejected unreadable = false
is_alo_rejected (statuses []) = false
is_alo_rejected (statuses (s ∷ ss)) =
    let error = lower (error_of s) in
    contains_text "post only" error
    || contains_text "post-only" error
    || contains_text "would immediately match" error

-- `int(v)`, which raises for what is no number.
unfoldable pub to_int : IntValue → Answer (Option ℕ)
to_int missing = raises "TypeError"
to_int wrong_type = raises "TypeError"
to_int wrong_text = raises "ValueError"
to_int (an_int n) = returns (some n)

-- `_extract_oid`
unfoldable pub extract_oid : Response → Answer (Option ℕ)
unfolding to_int
extract_oid unreadable = returns none
extract_oid (statuses []) = returns none
extract_oid (statuses (plain_status ∷ ss)) = returns none
extract_oid (statuses (dict_status error (leg oid) filled ∷ ss)) = to_int oid
extract_oid (statuses (dict_status error nothing (leg oid) ∷ ss)) = to_int oid
extract_oid (statuses (dict_status error nothing nothing ∷ ss)) = returns none

abbrev refused : String → String → OrderResult
refused error raw = record { accepted = false; oid = none; error_code = some error; raw = raw }

abbrev result_of : String → Option ℕ → OrderResult
result_of raw none = refused "no_oid" raw
result_of raw (some oid) = record { accepted = true; oid = some oid; error_code = none; raw = raw }

abbrev oid_result : String → Answer (Option ℕ) → Answer OrderResult
oid_result raw (raises error) = raises error
oid_result raw (returns oid) = returns (result_of raw oid)

-- `submit_alo` on the answer of `exchange.order` and its text.
unfoldable pub submit_alo : Answer Response → String → Answer OrderResult
unfolding is_alo_rejected extract_oid
submit_alo (raises error) raw = returns (refused error "None")
submit_alo (returns response) raw =
    if is_alo_rejected response
    then returns (refused "alo_would_take" raw)
    else oid_result raw (extract_oid response)

-- What `list_open_orders` reads of an order: its coin, where it has one, and its oid.
abbrev pub RawOrder : Type 0
RawOrder = Option String × IntValue

-- Ill-formed orders are passed over.
unfoldable pub read_order : RawOrder → List OpenOrderRef → List OpenOrderRef
read_order (none, oid) rest = rest
read_order (some coin, missing) rest = rest
read_order (some coin, wrong_type) rest = rest
read_order (some coin, wrong_text) rest = rest
read_order (some coin, an_int oid) rest = record { symbol = coin; oid = oid } ∷ rest

unfoldable pub list_open_orders : Answer (List RawOrder) → Answer (List OpenOrderRef)
unfolding read_order
list_open_orders (raises error) = raises error
list_open_orders (returns orders) = returns (read_orders orders)
  where
    read_orders : List RawOrder → List OpenOrderRef
    read_orders [] = []
    read_orders (o ∷ os) = read_order o (read_orders os)

-- What `list_positions` reads of a position: its coin and its size; none is no dictionary.
abbrev pub RawPosition : Type 0
RawPosition = Option (Option String × Field)

-- `Decimal(str(pos.get("szi", "0")))`: a text that is no number is an InvalidOperation, which is no ValueError.
abbrev size_of : Field → Answer Decimal
size_of absent = returns nought
size_of null = raises "InvalidOperation"
size_of junk = raises "InvalidOperation"
size_of (number x) = returns x

abbrev with_rest :
    String → Decimal → Answer (List PositionSnapshot) → Answer (List PositionSnapshot)
with_rest coin size (raises error) = raises error
with_rest coin size (returns rest) = returns (record { symbol = coin; size = size } ∷ rest)

-- A position without a coin is passed over, one with an ill-formed size raises.
unfoldable pub read_positions : List RawPosition → Answer (List PositionSnapshot)
read_positions [] = returns []
read_positions (none ∷ ps) = read_positions ps
read_positions (some (none, szi) ∷ ps) = read_positions ps
read_positions (some (some coin, szi) ∷ ps) = elim (size_of szi) [
  | raises error ↦ raises error
  | returns size ↦ with_rest coin size (read_positions ps)
]

unfoldable pub list_positions : Answer (List RawPosition) → Answer (List PositionSnapshot)
unfolding read_positions
list_positions (raises error) = raises error
list_positions (returns positions) = read_positions positions
