-- ===== src/Risk/KillSwitch.antt =====
-- src/risk/kill_switch.py. The exchange adapter, the journal and the notifier answer each call, by a
-- value or by an exception of which `repr` is kept; the calls go into a trace, oldest first. A time is
-- its ISO text.
pub mod Sequence
use hta.Common.{
  ℕ, String, Bool, true, false, Option, none, some, List, [], ◌∷◌, ◌++◌, if◌then◌else◌,
}
use hta.Decimal.{Decimal, nought, ◌=?◌}
use hta.Formatted.{Text, lit, int, plain}

pub record OpenOrderRef : Type 0 where
  pub symbol : String
  pub oid : ℕ

pub record PositionSnapshot : Type 0 where
  pub symbol : String
  pub size : Decimal  -- signed: positive long, negative short

-- What a call returns or raises.
pub data Answer (A : Type 0) : Type 0 where
  returns : A → Answer A
  raises : String → Answer A

-- The payload of the journal's "halt" event.
pub record HaltEntry : Type 0 where
  pub reason : Text
  pub ts : String
  pub cancelled_orders : List OpenOrderRef
  pub closed_positions : List String
  pub cancel_errors : List Text
  pub close_errors : List Text

-- The events that the kill switch appends to the journal.
pub data Event : Type 0 where
  halt_event : HaltEntry → Event
  resume_event : String → Event
  notify_error : String → String → String → Event

pub data Call : Type 0 where
  list_open_orders list_positions : Call
  cancel : String → ℕ → Call
  market_close : String → Call
  append : Event → Call
  send : Text → Call

-- The three components that the kill switch is given.
pub record Services : Type 0 where
  pub open_orders : Answer (List OpenOrderRef)
  pub positions : Answer (List PositionSnapshot)
  pub cancels : String → ℕ → Answer (Unit {0})
  pub closes : String → Answer (Unit {0})
  pub appends : Event → Answer (Unit {0})
  pub sends : Text → Answer (Unit {0})

pub record KillSwitch : Type 0 where
  pub halted : Bool
  pub trace : List Call

abbrev pub initial : KillSwitch
initial = record { halted = false; trace = [] }

abbrev pub or_empty : {A : Type 0} → Answer (List A) → List A
or_empty (returns xs) = xs
or_empty (raises _) = []

abbrev pub failure : {A : Type 0} → List Text → (String → Text) → Answer A → List Text
failure errors text (returns _) = errors
failure errors text (raises exc) = errors ++ text exc ∷ []

abbrev list_failed : String → String → Text
list_failed call exc = lit call ∷ lit " failed: " ∷ lit exc ∷ []

abbrev cancel_failed : OpenOrderRef → String → Text
cancel_failed r exc =
    lit "cancel(" ∷ lit r.symbol ∷ lit "," ∷ int r.oid ∷ lit ") failed: " ∷ lit exc ∷ []

abbrev close_failed : String → String → Text
close_failed symbol exc = lit "market_close(" ∷ lit symbol ∷ lit ") failed: " ∷ lit exc ∷ []

-- The first loop of `halt`, on the trace and `cancel_errors`.
unfoldable pub cancel_all :
    Services → List OpenOrderRef → List Call → List Text → List Call × List Text
cancel_all w [] trace errors = (trace, errors)
cancel_all w (r ∷ rs) trace errors =
    cancel_all w rs (trace ++ cancel r.symbol r.oid ∷ [])
      (failure errors (cancel_failed r) (w.cancels r.symbol r.oid))

abbrev pub success : List String → String → Answer (Unit {0}) → List String
success closed symbol (returns _) = closed ++ symbol ∷ []
success closed symbol (raises _) = closed

-- The second loop, on the trace, `closed_symbols` and `close_errors`.
unfoldable pub close_all :
    Services
    → List PositionSnapshot
    → List Call
    → List String
    → List Text
    → List Call × List String × List Text
close_all w [] trace closed errors = (trace, closed, errors)
close_all w (p ∷ ps) trace closed errors =
    let rest =
      close_all w ps (trace ++ market_close p.symbol ∷ [])
        (success closed p.symbol (w.closes p.symbol))
        (failure errors (close_failed p.symbol) (w.closes p.symbol)) in
    let skip = close_all w ps trace closed errors in if p.size =? nought then skip else rest

-- `await self._journal.append(event)`, which may raise.
unfoldable pub journal : Services → Event → KillSwitch → KillSwitch × Option String
journal w e s = (
  record s { trace = s.trace ++ append e ∷ [] },
  elim (w.appends e) [ returns _ ↦ none | raises exc ↦ some exc ],
)

-- The notification with its handler, at the end of `halt` and of `resume`.
unfoldable pub notify : Services → Text → String → String → KillSwitch → KillSwitch × Option String
notify w message ts place s =
    let s' = record s { trace = s.trace ++ send message ∷ [] } in
    elim (w.sends message) [
      | returns _ ↦ (s', none)
      | raises exc ↦ journal w (notify_error ts place exc) s'
    ]

-- What follows a journal entry: nothing if the journal raised.
abbrev pub and_then :
    KillSwitch × Option String
    → (KillSwitch → KillSwitch × Option String)
    → KillSwitch × Option String
and_then (s, none) next = next s
and_then (s, some exc) next = (s, some exc)

-- What `halt` writes to the journal.
unfoldable pub halt_entry : Services → Text → String → HaltEntry
halt_entry w reason ts =
    let orders = or_empty w.open_orders in
    let listed = failure [] (list_failed "list_open_orders") w.open_orders in
    let listed' = failure [] (list_failed "list_positions") w.positions in
    let (_, closed, close_errors) = close_all w (or_empty w.positions) [] [] listed' in
    record {
      reason = reason;
      ts = ts;
      cancelled_orders = orders;
      closed_positions = closed;
      cancel_errors = (cancel_all w orders [] listed).1;
      close_errors = close_errors;
    }

-- The calls on the exchange, in order.
unfoldable pub exchange_calls : Services → List Call → List Call
exchange_calls w trace =
    let cancelled = (cancel_all w (or_empty w.open_orders) (trace ++ list_open_orders ∷ []) []).0 in
    (close_all w (or_empty w.positions) (cancelled ++ list_positions ∷ []) [] []).0

-- The new state, and the exception that leaves the method. The lock is held only while the flag is
-- tested and set.
unfoldable pub halt : Services → Text → String → KillSwitch → KillSwitch × Option String
halt w reason ts s =
    if s.halted
    then (s, none)
    else and_then
        (journal w (halt_event (halt_entry w reason ts))
          (record { halted = true; trace = exchange_calls w s.trace }))
        (notify w (lit "HALTED: " ∷ reason) ts "halt")

unfoldable pub resume : Services → String → KillSwitch → KillSwitch × Option String
resume w ts s =
    if s.halted
    then and_then (journal w (resume_event ts) (record s { halted = false }))
        (notify w (plain "Resumed") ts "resume")
    else (s, none)
