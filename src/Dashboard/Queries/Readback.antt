-- ===== src/Dashboard/Queries/Readback.antt =====
-- src/storage/journal.py and src/dashboard_api/queries.py: what the trading loop writes is what the dashboard
-- reads.
use hta.Common.{
  String, ◌≡◌, refl, ap, ◌∙◌, Bool, true, false, not, Option, none, some, map_some, List, [], ◌∷◌,
  ◌++◌, map, any, keep, All, arith, same, same_iff, is_some, Bool-cases, inl, inr,
}
use hta.Decimal.{Decimal}
use hta.Dict.{get, string_key, get-put_self, get-put_ne, any-keys, keys}
use hta.Storage.Payloads.{Json, null, number, Payload, dump_value, dumps, get-dumps}
use hta.Storage.Journal.{StateRow, StateKey, state_key, same_key, Journal, append, upsert_state}
use hta.Storage.Journal.Refinement.{Write, event, latest, write}
use hta.Dashboard.Tables.{spread, with_default, state_row_to_dict, StateEntry}
use hta.Dashboard.Queries.{orderbook}

-- A write that leaves the given kind and key alone.
abbrev IsElsewhere : StateKey → Write → Type 0
IsElsewhere k (event _ _ _) = Unit
IsElsewhere k (latest _ kind key _) = same_key (kind, key) k ≡ false

get-write :
    (k : StateKey) (ws : List Write) (journal : Journal)
    → All (IsElsewhere k) ws
    → get k (write ws journal).state ≡ get k journal.state
unfolding write append upsert_state
get-write k [] journal h = refl
get-write k (event now event_type payload ∷ ws) journal h = get-write k ws _ h.1
get-write k (latest now kind key value ∷ ws) journal h =
    get-write k ws (upsert_state now kind key value journal) h.1
    ∙ get-put_ne (kind, key) k (record { value = dumps value; ts_unix = now }) journal.state h.0

get-keep :
    (i : String) (p : String → Bool) (d : Payload)
    → p i ≡ true
    → get i (keep (λ e. p e.0) d) ≡ get i d
unfolding get
get-keep i p [] h = refl
get-keep i p ((k, v) ∷ d) h = ground (arith, get-keep i p d h, h, same_iff k i)

-- The first of two answers that there is.
abbrev pub or_else : {A : Type 0} → Option A → Option A → Option A
or_else none b = b
or_else (some a) b = some a

get_overridden :
    (i : String) (payload tail base : Payload)
    → get i (map (λ e. (e.0, with_default e.1 (get e.0 payload))) base ++ tail)
      ≡ elim (get i base) [ none ↦ get i tail | some v ↦ some (with_default v (get i payload)) ]
unfolding get
get_overridden i payload tail [] = refl
get_overridden i payload tail ((j, v) ∷ base) = elim (Bool-cases (same j i)) [
  | inl e ↦ rw e (ap (λ k. some (with_default v (get k payload))) ((same_iff j i).0 e))
  | inr e ↦ rw e (get_overridden i payload tail base)
]

merged :
    (base value tail : Option Json)
    → (is_some base ≡ false → tail ≡ value)
    → (elim base [ none ↦ tail | some v ↦ some (with_default v value) ]) ≡ or_else value base
merged none none tail h = h refl
merged none (some w) tail h = h refl
merged (some v) none tail h = refl
merged (some v) (some w) tail h = refl

get-spread :
    (i : String) (payload base : Payload)
    → get i (spread payload base) ≡ or_else (get i payload) (get i base)
unfolding spread
get-spread i payload base =
    get_overridden i payload _ base
    ∙ merged (get i base) (get i payload) _ (λ h.
      get-keep i (λ k. not (any (λ j. same j k) (keys base))) payload
        (ap not (any-keys i base ∙ h)))

-- The order book that the dashboard shows for a symbol is the last one that was written for it, whatever was
-- written to the journal since for other kinds and keys: it has the same value under every key but
-- "key" and "ts", a Decimal as the string of its value.
pub orderbook-upsert_state :
    (now : Decimal) (symbol : String) (value : Payload) (journal : Journal) (later : List Write)
    (i : String)
    → All (IsElsewhere ("orderbook", symbol)) later
    → map_some
        (get i)
        (orderbook symbol (write later (upsert_state now "orderbook" symbol value journal)))
      ≡ some (
          or_else
            (map_some dump_value (get i value))
            (get i (("key", null) ∷ ("ts", number now) ∷ [])))
unfolding orderbook upsert_state state_row_to_dict
orderbook-upsert_state now symbol value journal later i h =
    let row : StateRow = record { value = dumps value; ts_unix = now } in
    let entry : StateEntry = record { key = none; row = row } in
    ap
      (λ (r : Option StateRow).
        map_some (get i)
          (map_some (λ (row : StateRow). state_row_to_dict (record { key = none; row = row })) r))
      (get-write ("orderbook", symbol) later (upsert_state now "orderbook" symbol value journal) h
        ∙ get-put_self ("orderbook", symbol) row journal.state)
    ∙ ap (λ o. some o)
        (get-spread i (dumps value) (("key", null) ∷ ("ts", number now) ∷ [])
          ∙ ap (λ v. or_else v (get i (("key", null) ∷ ("ts", number now) ∷ [])))
              (get-dumps i value))
