-- ===== src/Dashboard/Tables.antt =====
-- src/dashboard_api/queries.py: what its SELECT statements read from the tables of the journal. SQLite
-- leaves the order of rows with equal sort keys open; here the later row comes first.
use Prim.Native.String.{compare}
use package.text.Mathlib.Text.{is_lt}
use hta.Common.{
  ℕ, zero, suc, String, Bool, false, not, Option, none, some, List, [], ◌∷◌, ◌++◌, map, any, keep,
  same, ltb, if◌then◌else◌,
}
use hta.Decimal.{◌<?◌}
use hta.Dict.{Dict, get, keys, string_key}
use hta.Storage.Payloads.{Json, null, number, text, Payload}
use hta.Storage.Journal.{Event, StateRow, StateKey}

abbrev pub max_rows : ℕ
max_rows = 1000

-- A Python int.
pub data ℤ : Type 0 where
  pos : ℕ → ℤ
  negsuc : ℕ → ℤ

-- `_cap`
unfoldable pub cap : Option ℤ → ℕ
cap none = 1
cap (some (negsuc n)) = 1
cap (some (pos n)) = if ltb n 1 then 1 else if ltb max_rows n then max_rows else n

-- `LIMIT` and `OFFSET`
unfoldable pub take {ℓ} : {A : Type ℓ} → ℕ → List A → List A
take zero xs = []
take (suc n) [] = []
take (suc n) (x ∷ xs) = x ∷ take n xs

unfoldable pub drop {ℓ} : {A : Type ℓ} → ℕ → List A → List A
drop zero xs = xs
drop (suc n) [] = []
drop (suc n) (x ∷ xs) = drop n xs

-- `ORDER BY ts_unix DESC`
unfoldable pub insert_event : Event → List Event → List Event
insert_event e [] = e ∷ []
insert_event e (d ∷ ds) =
    let rest = d ∷ insert_event e ds in if e.ts_unix <? d.ts_unix then rest else e ∷ d ∷ ds

unfoldable pub latest_first : List Event → List Event
unfolding insert_event
latest_first [] = []
latest_first (e ∷ es) = insert_event e (latest_first es)

-- `WHERE event_type IN (...)`
abbrev pub of_types : List String → List Event → List Event
of_types types = keep (λ e. any (same e.event_type) types)

-- A row of `SELECT key, value, ts_unix FROM state`.
pub record StateEntry : Type 0 where
  pub key : Option String  -- none where the query leaves the column out
  pub row : StateRow

abbrev key_less : String → Option String → Bool
key_less k none = false
key_less k (some j) = is_lt (compare k j)

-- `WHERE kind=? ORDER BY key`
unfoldable pub insert_state : String → StateRow → List StateEntry → List StateEntry
insert_state k row [] = record { key = some k; row = row } ∷ []
insert_state k row (e ∷ es) =
    let rest = e ∷ insert_state k row es in
    if key_less k e.key then record { key = some k; row = row } ∷ e ∷ es else rest

unfoldable pub states_of : String → Dict StateKey StateRow → List StateEntry
unfolding insert_state
states_of kind [] = []
states_of kind ((k, row) ∷ rows) =
    let rest = states_of kind rows in if same k.0 kind then insert_state k.1 row rest else rest

-- `{**base, **payload}`
abbrev pub with_default : Json → Option Json → Json
with_default v none = v
with_default v (some w) = w

unfoldable pub spread : Payload → Payload → Payload
unfolding get
spread payload base =
    map (λ e. (e.0, with_default e.1 (get e.0 payload))) base
    ++ keep (λ e. not (any (λ j. same j e.0) (keys base))) payload

abbrev key_json : Option String → Json
key_json none = null
key_json (some k) = text k

-- `_state_row_to_dict`
unfoldable pub state_row_to_dict : StateEntry → Payload
unfolding spread
state_row_to_dict e =
    spread e.row.value (("key", key_json e.key) ∷ ("ts", number e.row.ts_unix) ∷ [])
