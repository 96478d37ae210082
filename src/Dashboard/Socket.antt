-- ===== src/Dashboard/Socket.antt =====
-- src/dashboard_api/ws.py: a connection of a client, from its first message to its end. What runs beside each
-- other while it is open is a sequence of steps; a step is what a task does when its await returns.
pub mod Closing
use hta.Common.{
  ℕ, zero, suc, ◌+◌, String, Bool, true, false, not, ◌&&◌, ◌⊎◌, inl, inr, Option, none, some, ◌>>=◌,
  List, [], ◌∷◌, ◌++◌, map, any, keep, same, if◌then◌else◌,
}
use hta.Decimal.{Decimal}
use hta.Dict.{Dict, get, number_key}
use hta.Formatted.{Text, lit, int, plain}
use hta.Dashboard.Bus.{
  Data, Message, Subscription, Bus, all_channels, contains, publish, subscribe, unsubscribe,
  take_message,
}
use hta.Dashboard.Queries.{Snapshot}

-- A field of a message that the protocol reads.
pub data Field : Type 0 where
  null : Field  -- or the key is missing
  falsy : Field  -- "", 0, false or an empty object
  items : List (Option String) → Field  -- a list; none is an item that is no string
  other : Field

-- What `json.loads` makes of a message of the client.
pub data Parsed : Type 0 where
  malformed : Parsed  -- JSONDecodeError
  not_dict : Parsed
  dict : Option String → Field → Field → Parsed  -- the action, if it is a string; channels; symbols

pub data Incoming : Type 0 where
  text : Parsed → Incoming
  disconnect : Incoming

pub data Action : Type 0 where
  accept : Action
  send_snapshot : Snapshot → Action
  send_error : Text → Action
  send_pong : Decimal → Action
  send_heartbeat : Decimal → Action
  send_message : Message → Action
  close : ℕ → Action

-- `msg.get("action") if isinstance(msg, dict) else None`
abbrev pub action_of : Parsed → Option String
action_of malformed = none
action_of not_dict = none
action_of (dict action channels symbols) = action

-- The items, if all of them are strings.
unfoldable pub strings : List (Option String) → Option (List String)
strings [] = some []
strings (none ∷ xs) = none
strings (some x ∷ xs) = strings xs >>= λ ys. some (x ∷ ys)

-- `msg.get("channels") or list(ALL_CHANNELS)`, where none is no list of strings.
unfoldable pub channels_of : Field → Option (List String)
unfolding strings
channels_of null = some all_channels
channels_of falsy = some all_channels
channels_of (items []) = some all_channels
channels_of (items (x ∷ xs)) = strings (x ∷ xs)
channels_of other = none

-- The symbols, where the inner none stands for all, and the outer one is a protocol error.
unfoldable pub symbols_of : Field → Option (Option (List String))
unfolding strings
symbols_of null = some none
symbols_of falsy = none
symbols_of (items xs) = strings xs >>= λ ys. some (some ys)
symbols_of other = none

abbrev pub no_subscribe : Text
no_subscribe = plain "first message must be {'action': 'subscribe', ...}"

-- The channels and symbols of the fields, or the text of a `_BadProtocolError`.
unfoldable pub read_symbols : List String → Field → Text ⊎ (List String × Option (List String))
unfolding symbols_of
read_symbols channels symbols = elim (symbols_of symbols) [
  | none ↦ inl (plain "symbols must be a list of strings or omitted")
  | some wanted ↦ inr (channels, wanted)
]

abbrev check_known : List String → List String → Field → Text ⊎ (List String × Option (List String))
check_known channels [] symbols = read_symbols channels symbols
check_known channels (c ∷ cs) symbols = inl (lit "unknown channels: " ∷ map lit (c ∷ cs))

unfoldable pub read_channels : Field → Field → Text ⊎ (List String × Option (List String))
unfolding channels_of read_symbols
read_channels channels symbols = elim (channels_of channels) [
  | none ↦ inl (plain "channels must be a list of strings")
  | some names ↦ check_known names (keep (λ c. not (contains all_channels c)) names) symbols
]

abbrev pub is_action : String → Option String → Bool
is_action name none = false
is_action name (some a) = same a name

-- `_await_subscribe` on a text: what to subscribe to, or the error.
unfoldable pub read_subscribe : Parsed → Text ⊎ (List String × Option (List String))
unfolding read_channels
read_subscribe malformed = inl (plain "first message must be JSON")
read_subscribe not_dict = inl no_subscribe
read_subscribe (dict action channels symbols) =
    if is_action "subscribe" action then read_channels channels symbols else inl no_subscribe

-- A connection: the subscription's number, what was sent, and whether the handler has returned.
pub record Connection : Type 0 where
  pub bus : Bus
  pub sent : List Action
  pub over : Bool

-- The first task is done: the others are cancelled, the subscription leaves the bus, the socket closes.
unfoldable pub finish : ℕ → Connection → Connection
unfolding unsubscribe
finish i c = record { bus = unsubscribe i c.bus; sent = c.sent ++ close 1000 ∷ []; over = true }

abbrev sending : List Action → Connection → Connection
sending actions c = record c { sent = c.sent ++ actions }

-- An error, and a close with its code.
abbrev pub refusing : String → ℕ → Connection → Connection
refusing error code = sending (send_error (plain error) ∷ close code ∷ [])

abbrev pub read_only : String
read_only = "this is a read-only stream; only subscribe is allowed"

-- `_recv_loop` on one message.
unfoldable pub receive : ℕ → Decimal → Incoming → Connection → Connection
unfolding finish
receive i time disconnect c = finish i c
receive i time (text malformed) c = finish i (refusing "invalid json" 1003 c)
receive i time (text not_dict) c = finish i (refusing read_only 1008 c)
receive i time (text (dict action channels symbols)) c =
    if is_action "ping" action
    then sending (send_pong time ∷ []) c
    else finish i (refusing read_only 1008 c)

-- `_send_loop` takes the oldest message of the queue, if there is one.
abbrev send_first : ℕ → Connection → List Message → Connection
send_first i c [] = c
send_first i c (m ∷ ms) = record c {
  bus = take_message i c.bus;
  sent = c.sent ++ send_message m ∷ [];
}

unfoldable pub send_next : ℕ → Connection → Connection
unfolding take_message get
send_next i c = elim (get i c.bus.subs) [ none ↦ c | some sub ↦ send_first i c sub.queue ]

-- `_slow_client_watchdog` after its sleep.
unfoldable pub check_slow : ℕ → Connection → Connection
unfolding finish get
check_slow i c = elim (get i c.bus.subs) [
  | none ↦ c
  | some sub ↦ if sub.slow then finish i (refusing "slow consumer; disconnecting" 1013 c) else c
]

pub data Step : Type 0 where
  received : Decimal → Incoming → Step
  delivered : Step  -- the send loop has its turn
  beat : Decimal → Step  -- the heartbeat is due
  checked : Step  -- the watchdog has its turn
  published : Decimal → Decimal → String → Data → Step  -- the trading loop publishes
  broken : Step  -- a send raises, so that its task returns

unfoldable pub step : ℕ → Step → Connection → Connection
unfolding receive send_next check_slow finish publish
step i (received time x) c = receive i time x c
step i delivered c = send_next i c
step i (beat time) c = sending (send_heartbeat time ∷ []) c
step i checked c = check_slow i c
step i (published time now channel payload) c = record c {
  bus = publish time now channel payload c.bus;
}
step i broken c = finish i c

-- Once the handler has returned no task of it runs.
unfoldable pub serve : ℕ → List Step → Connection → Connection
unfolding step
serve i [] c = c
serve i (s ∷ ss) c = elim c.over [ true ↦ c | false ↦ serve i ss (step i s c) ]

-- `handle_ws`: none is a snapshot that raises.
unfoldable pub open_connection : ℕ → Option Snapshot → Bus → Incoming → Connection
unfolding read_subscribe subscribe unsubscribe
open_connection i snapshot bus disconnect = record { bus = bus; sent = accept ∷ []; over = true }
open_connection i snapshot bus (text message) = elim (read_subscribe message) [
  | inl error ↦ record {
    bus = bus;
    sent = accept ∷ send_error error ∷ close 1008 ∷ [];
    over = true;
  }
  | inr (channels, symbols) ↦
      let joined = subscribe i channels symbols bus in
      elim snapshot [
        | none ↦ record {
          bus = unsubscribe i joined;
          sent = accept ∷ send_error (plain "snapshot failed") ∷ close 1011 ∷ [];
          over = true;
        }
        | some shown ↦ record {
          bus = joined;
          sent = accept ∷ send_snapshot shown ∷ [];
          over = false;
        }
      ]
]

unfoldable pub handle_ws : ℕ → Option Snapshot → Bus → Incoming → List Step → Connection
unfolding open_connection serve
handle_ws i snapshot bus first steps = serve i steps (open_connection i snapshot bus first)
