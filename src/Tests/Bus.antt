-- ===== src/Tests/Bus.antt =====
-- src/dashboard_api/bus.py: a bus with queues of two messages.
use hta.Common.{◌<◌, String, ◌≡◌, refl, false, not, ◌||◌, some, [], ◌∷◌, ◌++◌, arith, if◌then◌else◌}
use hta.Decimal.{whole, nought, ◌⊕◌, ◌<?◌}
use hta.Dict.{get, number_key}
use hta.Formatted.{plain}
use hta.Dashboard.Bus.{
  Data, Message, Subscription, Bus, new_bus, matches, newest, drop_oldest, deliver, offer,
  offer_all, publish, stamped,
}
use hta.Dashboard.Bus.Delivery.{IsBounded, last_messages, publish_queue}

abbrev news : String → Data
news text = record { symbol = some "BTC"; ts = some nought; rest = plain text }

abbrev message : String → Message
message text = record { channel = "fill"; payload = news text }

-- A consumer of the fills of BTC that reads nothing.
abbrev sleeper : Subscription
sleeper = record {
  channels = "fill" ∷ [];
  symbols = some ("BTC" ∷ []);
  queue = message "first" ∷ message "second" ∷ [];
  drops = 0;
  drop_timestamps = [];
  slow = false;
  closed = false;
}

abbrev bus : Bus
bus = record (new_bus 2 100 (whole 10)) { subs = (1, sleeper) ∷ [] }

oldest_lost :
    (publish (whole 5) (whole 5) "fill" (news "third") bus).subs
    ≡ (
      1,
      record sleeper {
        queue = message "second" ∷ message "third" ∷ [];
        drops = 1;
        drop_timestamps = whole 5 ∷ [];
      },
    )
      ∷ []
unfolding publish offer_all offer deliver drop_oldest newest matches ◌⊕◌ ◌<?◌
oldest_lost = refl

room : 0 < bus.queue_size
room = omega arith

within : IsBounded bus.queue_size sleeper
within = omega arith

sleeping : get 1 bus.subs ≡ some sleeper
unfolding get
sleeping = refl

publish_queue_example :
    (sub' : Subscription) × (get 1 (publish (whole 5) (whole 5) "fill" (news "third") bus).subs
      ≡ some sub')
    × (sub'.queue ≡ (
        if sleeper.closed || not (matches sleeper "fill" (some "BTC"))
        then sleeper.queue
        else last_messages bus.queue_size (
            sleeper.queue
            ++ record { channel = "fill"; payload = stamped (whole 5) (news "third") } ∷ [])))
publish_queue_example =
    publish_queue (whole 5) (whole 5) "fill" (news "third") bus 1 sleeper room within refl sleeping
