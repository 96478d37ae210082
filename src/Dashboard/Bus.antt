-- ===== src/Dashboard/Bus.antt =====
-- src/dashboard_api/bus.py: `Bus` and its subscriptions. A subscription is an object that its consumer
-- and the bus share; the number it is kept under stands for its identity.
pub mod Delivery
use hta.Common.{
  ℕ, zero, suc, ◌+◌, String, Bool, true, false, not, ◌&&◌, ◌||◌, Option, none, some, List, [], ◌∷◌,
  ◌++◌, map, any, keep, length, same, ltb, leb, if◌then◌else◌,
}
use hta.Decimal.{Decimal, ◌⊖◌, ◌≤?◌}
use hta.Dict.{Dict, get, put, pop, values, number_key}
use hta.Formatted.{Text}

-- The data of a message: what the bus reads of it, and the rest.
pub record Data : Type 0 where
  pub symbol : Option String
  pub ts : Option Decimal
  pub rest : Text

pub record Message : Type 0 where
  pub channel : String
  pub payload : Data

pub record Subscription : Type 0 where
  pub channels : List String
  pub symbols : Option (List String)  -- none: all symbols
  pub queue : List Message  -- oldest first
  pub drops : ℕ
  pub drop_timestamps : List Decimal  -- a deque of at most 200, newest first
  pub slow : Bool
  pub closed : Bool

pub record Bus : Type 0 where
  pub queue_size : ℕ
  pub slow_threshold : ℕ
  pub slow_window : Decimal
  pub subs : Dict ℕ Subscription
  pub published_count : ℕ
  pub dropped_count : ℕ

abbrev pub all_channels : List String
all_channels =
    "equity" ∷ "tick" ∷ "position" ∷ "fill" ∷ "signal" ∷ "risk_event" ∷ "orderbook" ∷ "heartbeat"
    ∷ []

-- The constructor, with its defaults for the window and the threshold as arguments.
abbrev pub new_bus : ℕ → ℕ → Decimal → Bus
new_bus queue_size slow_threshold slow_window = record {
  queue_size = queue_size;
  slow_threshold = slow_threshold;
  slow_window = slow_window;
  subs = [];
  published_count = 0;
  dropped_count = 0;
}

-- `channel in channels`
abbrev pub contains : List String → String → Bool
contains xs x = any (same x) xs

unfoldable pub matches : Subscription → String → Option String → Bool
matches sub channel symbol = contains sub.channels channel && elim sub.symbols [
  | none ↦ true
  | some wanted ↦ elim symbol [ none ↦ true | some s ↦ contains wanted s ]
]

-- `put_nowait` raises `QueueFull`; a queue of `maxsize` 0 is never full.
abbrev pub is_full : ℕ → List Message → Bool
is_full maxsize queue = ltb 0 maxsize && leb maxsize (length queue)

-- A deque with `maxlen`, kept from its right end.
unfoldable pub newest : ℕ → List Decimal → List Decimal
newest zero ts = []
newest (suc n) [] = []
newest (suc n) (t ∷ ts) = t ∷ newest n ts

abbrev pub without_oldest : List Message → List Message
without_oldest [] = []
without_oldest (m ∷ ms) = ms

-- The counters of a subscription that has just lost its oldest message.
unfoldable pub drop_oldest : Bus → Decimal → Subscription → Subscription
unfolding newest
drop_oldest bus now sub =
    let timestamps = newest 200 (now ∷ sub.drop_timestamps) in
    let cutoff = now ⊖ bus.slow_window in
    let recent_drops = length (keep (λ t. cutoff ≤? t) timestamps) in
    record sub {
      queue = without_oldest sub.queue;
      drops = suc sub.drops;
      drop_timestamps = timestamps;
      slow = leb bus.slow_threshold recent_drops || sub.slow;
    }

abbrev put_last : Message → Subscription → Subscription
put_last message sub = record sub { queue = sub.queue ++ message ∷ [] }

-- `_deliver`: the subscription, and by how much `_dropped_count` grows. Only an empty queue that is full
-- would raise `QueueEmpty`, and there is none.
unfoldable pub deliver : Bus → Decimal → Message → Subscription → Subscription × ℕ
unfolding drop_oldest
deliver bus now message sub =
    let sub' = drop_oldest bus now sub in
    if not (is_full bus.queue_size sub.queue)
    then (put_last message sub, 0)
    else if is_full bus.queue_size sub'.queue
    then (sub', 2)
    else (put_last message sub', 1)

-- One turn of the loop in `publish`.
unfoldable pub offer : Bus → Decimal → Message → Subscription → Subscription × ℕ
unfolding deliver matches
offer bus now message sub =
    if sub.closed || not (matches sub message.channel message.payload.symbol)
    then (sub, 0)
    else deliver bus now message sub

-- The loop over the subscriptions, which do not see each other.
unfoldable pub offer_all : Bus → Decimal → Message → Dict ℕ Subscription → Dict ℕ Subscription × ℕ
unfolding offer
offer_all bus now message [] = ([], 0)
offer_all bus now message ((i, sub) ∷ subs) =
    let (subs', dropped) = offer_all bus now message subs in
    let (sub', lost) = offer bus now message sub in ((i, sub') ∷ subs', lost + dropped)

-- The data with the time of the server, where it has none.
abbrev pub stamped : Decimal → Data → Data
stamped time payload = record payload {
  ts = elim payload.ts [ none ↦ some time | some t ↦ some t ];
}

-- `publish`, at the time `time` and with the clock at `now`.
unfoldable pub publish : Decimal → Decimal → String → Data → Bus → Bus
unfolding offer_all
publish time now channel payload bus =
    let message : Message = record { channel = channel; payload = stamped time payload } in
    let (subs, dropped) = offer_all bus now message bus.subs in
    if not (contains all_channels channel) then bus else record bus {
      subs = subs;
      published_count = suc bus.published_count;
      dropped_count = bus.dropped_count + dropped;
    }

-- `subscribe`, under a number that is new to the bus.
unfoldable pub subscribe : ℕ → List String → Option (List String) → Bus → Bus
subscribe i channels symbols bus = record bus {
  subs =
      bus.subs
      ++ (
        i,
        record {
          channels = channels;
          symbols = symbols;
          queue = [];
          drops = 0;
          drop_timestamps = [];
          slow = false;
          closed = false;
        },
      )
        ∷ [];
}

-- `unsubscribe`: what the bus no longer knows gets nothing more.
unfoldable pub unsubscribe : ℕ → Bus → Bus
unfolding pop
unsubscribe i bus = record bus { subs = pop i bus.subs }

unfoldable pub subscriber_count : Bus → ℕ
subscriber_count bus = length (keep (λ s. not s.closed) (values bus.subs))

-- `Subscription.get` on a queue that is not empty: the oldest message leaves it.
unfoldable pub take_message : ℕ → Bus → Bus
unfolding get put
take_message i bus = elim (get i bus.subs) [
  | none ↦ bus
  | some sub ↦ record bus {
    subs = put i (record sub { queue = without_oldest sub.queue }) bus.subs;
  }
]
