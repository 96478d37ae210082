-- ===== src/Storage/Journal.antt =====
-- src/storage/journal.py: `Journal` over its two tables, and `InMemoryJournal`, which the tests put in its
-- place. A write goes through: a full or locked disk is left out. `now` is what `time.time()` answers.
pub mod Refinement
use hta.Common.{
  ℕ, suc, ◌+◌, String, ◌&&◌, List, [], ◌∷◌, ◌++◌, same, same_iff, ◌≡◌, ◌↔◌, Bool, true, ap, ap₂,
  arith, &&_iff,
}
use hta.Decimal.{Decimal}
use hta.Dict.{Key, Dict, put, string_key}
use hta.Storage.Payloads.{Payload, dumps}

-- A row of the table `events`; the text of its payload is what `json.loads` reads from it.
pub record Event : Type 0 where
  pub id : ℕ
  pub ts_unix : Decimal
  pub event_type : String
  pub payload : Payload

-- The columns `value` and `ts_unix` of the table `state`.
pub record StateRow : Type 0 where
  pub value : Payload
  pub ts_unix : Decimal

-- `PRIMARY KEY (kind, key)`
abbrev pub StateKey : Type 0
StateKey = String × String

abbrev pub same_key : StateKey → StateKey → Bool
same_key a b = same a.0 b.0 && same a.1 b.1

pub same_key_iff : (a b : StateKey) → (same_key a b ≡ true) ↔ (a ≡ b)
same_key_iff a b = (
  λ h.
      let both = (&&_iff (same a.0 b.0) (same a.1 b.1)).0 h in
      ap₂ (λ (x : String) (y : String). (x, y)) ((same_iff a.0 b.0).0 both.0)
        ((same_iff a.1 b.1).0 both.1),
  λ e.
      (&&_iff (same a.0 b.0) (same a.1 b.1)).1
        ((same_iff a.0 b.0).1 (ap (λ p. p.0) e), (same_iff a.1 b.1).1 (ap (λ p. p.1) e)),
)

instance abbrev pub state_key : Key StateKey
state_key = record { beq = same_key; beq_iff = same_key_iff; less = λ a b. string_key.less a.0 b.0 }

-- Rows are appended and never deleted, so AUTOINCREMENT counts on from the last id.
pub record Journal : Type 0 where
  pub last_id : ℕ
  pub events : List Event
  pub state : Dict StateKey StateRow

-- `executescript(_SCHEMA)` on a new file.
abbrev pub new_journal : Journal
new_journal = record { last_id = 0; events = []; state = [] }

-- `Journal.append`
unfoldable pub append : Decimal → String → Payload → Journal → Journal
append now event_type payload journal = record journal {
  last_id = suc journal.last_id;
  events =
      journal.events
      ++ record {
        id = suc journal.last_id;
        ts_unix = now;
        event_type = event_type;
        payload = dumps payload;
      }
        ∷ [];
}

-- `Journal.upsert_state`: `ON CONFLICT(kind, key) DO UPDATE`.
unfoldable pub upsert_state : Decimal → String → String → Payload → Journal → Journal
unfolding put
upsert_state now kind key value journal = record journal {
  state = put (kind, key) (record { value = dumps value; ts_unix = now }) journal.state;
}

pub record InMemoryJournal : Type 0 where
  pub events : List (Decimal × String × Payload)
  pub state : Dict StateKey (Decimal × Payload)

abbrev pub new_memory : InMemoryJournal
new_memory = record { events = []; state = [] }

-- `InMemoryJournal.append` and `InMemoryJournal.upsert_state`
unfoldable pub append_in_memory : Decimal → String → Payload → InMemoryJournal → InMemoryJournal
append_in_memory now event_type payload memory = record memory {
  events = memory.events ++ (now, event_type, payload) ∷ [];
}

unfoldable pub upsert_in_memory :
    Decimal → String → String → Payload → InMemoryJournal → InMemoryJournal
unfolding put
upsert_in_memory now kind key value memory = record memory {
  state = put (kind, key) (now, value) memory.state;
}
