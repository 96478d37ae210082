-- ===== src/Storage/Journal/Refinement.antt =====
-- src/storage/journal.py: the SQLite journal refines the list and the dictionary of the journal in memory,
-- over every sequence of writes.
use mathlib.Core.Path.{fun_ext}
use hta.Common.{
  ℕ, suc, ◌+◌, String, ◌≡◌, refl, sym, ap, ap₂, subst, ◌∙◌, Option, some, map_some, List, [], ◌∷◌,
  ◌++◌, map, length, arith, Bool-cases, inl, inr,
}
use hta.Decimal.{Decimal}
use hta.Dict.{get, put, string_key, get-put_self, get-put_ne}
use hta.Storage.Payloads.{Json, Payload, dump_value, dumps, get-dumps}
use hta.Storage.Journal.{
  Event, StateRow, StateKey, state_key, Journal, new_journal, append, upsert_state, InMemoryJournal,
  new_memory, append_in_memory, upsert_in_memory,
}

-- A write to either journal, at a time.
pub data Write : Type 0 where
  event : Decimal → String → Payload → Write
  latest : Decimal → String → String → Payload → Write

unfoldable pub write : List Write → Journal → Journal
unfolding append upsert_state
write [] journal = journal
write (event now event_type payload ∷ ws) journal = write ws (append now event_type payload journal)
write (latest now kind key value ∷ ws) journal = write ws (upsert_state now kind key value journal)

unfoldable pub write_in_memory : List Write → InMemoryJournal → InMemoryJournal
unfolding append_in_memory upsert_in_memory
write_in_memory [] memory = memory
write_in_memory (event now event_type payload ∷ ws) memory =
    write_in_memory ws (append_in_memory now event_type payload memory)
write_in_memory (latest now kind key value ∷ ws) memory =
    write_in_memory ws (upsert_in_memory now kind key value memory)

-- What a reader sees of a payload: a value by its key, whatever the order of the keys.
abbrev pub Fields : Type 0
Fields = String → Option Json

abbrev pub fields : Payload → Fields
fields payload key = get key payload

-- The fields that are left of a payload once it is written as JSON.
abbrev pub written : Payload → Fields
written payload key = map_some dump_value (get key payload)

pub fields-dumps : (payload : Payload) → fields (dumps payload) ≡ written payload
fields-dumps payload = fun_ext (λ key. get-dumps key payload)

abbrev pub seen_event : Event → Decimal × String × Fields
seen_event e = (e.ts_unix, e.event_type, fields e.payload)

abbrev pub kept_event : Decimal × String × Payload → Decimal × String × Fields
kept_event e = (e.0, e.1, written e.2)

abbrev pub seen_row : StateRow → Decimal × Fields
seen_row r = (r.ts_unix, fields r.value)

abbrev pub kept_row : Decimal × Payload → Decimal × Fields
kept_row r = (r.0, written r.1)

-- The ids count up from `n`, without a gap.
abbrev pub IsNumbered : ℕ → List Event → Type 0
IsNumbered n [] = Unit
IsNumbered n (e ∷ es) = (e.id ≡ suc n) × IsNumbered (suc n) es

-- The two journals hold the same events in the same order, and the same latest values.
pub record Refines (journal : Journal) (memory : InMemoryJournal) : Type 0 where
  pub events : map seen_event journal.events ≡ map kept_event memory.events
  pub state :
      (k : StateKey)
      → map_some seen_row (get k journal.state) ≡ map_some kept_row (get k memory.state)
  pub numbered : IsNumbered 0 journal.events
  pub counted : journal.last_id ≡ length journal.events

map_last :
    {A B : Type 0} (f : A → B) (xs : List A) (x : A) → map f (xs ++ x ∷ []) ≡ map f xs ++ f x ∷ []
map_last f [] x = refl
map_last f (y ∷ ys) x = ap (λ zs. f y ∷ zs) (map_last f ys x)

length_last : {A : Type 0} (xs : List A) (x : A) → length (xs ++ x ∷ []) ≡ suc (length xs)
length_last [] x = refl
length_last (y ∷ ys) x = ap (λ n. suc n) (length_last ys x)

IsNumbered-last :
    (n : ℕ) (es : List Event) (e : Event)
    → e.id ≡ suc (n + length es)
    → IsNumbered n es
    → IsNumbered n (es ++ e ∷ [])
IsNumbered-last n [] e h hs = (omega (arith, h), tt)
IsNumbered-last n (d ∷ ds) e h hs = (hs.0, IsNumbered-last (suc n) ds e (omega (arith, h)) hs.1)

append-Refines :
    (now : Decimal) (event_type : String) (payload : Payload) (journal : Journal)
    (memory : InMemoryJournal)
    → Refines journal memory
    → Refines
        (append now event_type payload journal)
        (append_in_memory now event_type payload memory)
unfolding append append_in_memory
append-Refines now event_type payload journal memory h = record {
  events =
      map_last seen_event journal.events _
      ∙ ap₂ (λ es f. es ++ (now, event_type, f) ∷ []) h.events (fields-dumps payload)
      ∙ sym (map_last kept_event memory.events (now, event_type, payload));
  state = h.state;
  numbered = IsNumbered-last 0 journal.events _ (omega (arith, h.counted)) h.numbered;
  counted = ap (λ n. suc n) h.counted ∙ sym (length_last journal.events _);
}

upsert_state-Refines :
    (now : Decimal) (kind key : String) (value : Payload) (journal : Journal)
    (memory : InMemoryJournal)
    → Refines journal memory
    → Refines (upsert_state now kind key value journal) (upsert_in_memory now kind key value memory)
unfolding upsert_state upsert_in_memory
upsert_state-Refines now kind key value journal memory h = record {
  events = h.events;
  state =
      let row : StateRow = record { value = dumps value; ts_unix = now } in
      λ k. elim (Bool-cases (state_key.beq (kind, key) k)) [
        | inl e ↦
            subst
              (λ i.
                map_some seen_row (get i (put (kind, key) row journal.state))
                ≡ map_some kept_row (get i (put (kind, key) (now, value) memory.state)))
              ((state_key.beq_iff (kind, key) k).0 e)
              (ap (map_some seen_row) (get-put_self (kind, key) row journal.state)
                ∙ ap (λ f. some (now, f)) (fields-dumps value)
                ∙ sym (ap (map_some kept_row) (get-put_self (kind, key) (now, value) memory.state)))
        | inr e ↦
            ap (map_some seen_row) (get-put_ne (kind, key) k _ journal.state e)
            ∙ h.state k
            ∙ sym (ap (map_some kept_row) (get-put_ne (kind, key) k _ memory.state e))
      ];
  numbered = h.numbered;
  counted = h.counted;
}

pub write-Refines :
    (ws : List Write) (journal : Journal) (memory : InMemoryJournal)
    → Refines journal memory
    → Refines (write ws journal) (write_in_memory ws memory)
unfolding write write_in_memory
write-Refines [] journal memory h = h
write-Refines (event now event_type payload ∷ ws) journal memory h =
    write-Refines ws _ _ (append-Refines now event_type payload journal memory h)
write-Refines (latest now kind key value ∷ ws) journal memory h =
    write-Refines ws _ _ (upsert_state-Refines now kind key value journal memory h)

-- Over any writes to new journals, the SQLite tables hold what the journal in memory holds: the same
-- events in the same order, numbered from 1 without a gap, and under every kind and key the same latest
-- value and time. A payload is seen through its keys, and a Decimal in it as the string of its value.
pub write_new-Refines :
    (ws : List Write) → Refines (write ws new_journal) (write_in_memory ws new_memory)
unfolding get
write_new-Refines ws =
    write-Refines ws new_journal new_memory
      (record { events = refl; state = λ k. refl; numbered = tt; counted = refl })
