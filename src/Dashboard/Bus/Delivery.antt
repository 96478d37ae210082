-- ===== src/Dashboard/Bus/Delivery.antt =====
-- src/dashboard_api/bus.py: what a message does to the queues.
use hta.Common.{
  ℕ, suc, ◌≤◌, ◌<◌, String, ◌≡◌, refl, sym, ap, ◌∙◌, ◌⊎◌, true, not, ◌||◌, none, some, List, [],
  ◌∷◌, ◌++◌, All, length, length-append, leb, ◌==◌, arith, if◌then◌else◌, inl, inr, Bool-cases,
}
use hta.Decimal.{Decimal}
use hta.Dict.{Dict, get, number_key}
use hta.Dashboard.Bus.{
  Data, Message, Subscription, Bus, matches, drop_oldest, deliver, offer, offer_all, publish,
  stamped, contains, all_channels,
}

-- No queue is longer than the size that the bus allows.
abbrev pub IsBounded : ℕ → Subscription → Type 0
IsBounded size sub = length sub.queue ≤ size

-- The last n messages of a list.
abbrev pub last_messages : ℕ → List Message → List Message
last_messages n [] = []
last_messages n (m ∷ ms) =
    let rest = last_messages n ms in if leb (suc (length ms)) n then m ∷ ms else rest

last_messages_all : (n : ℕ) (ms : List Message) → length ms ≤ n → last_messages n ms ≡ ms
last_messages_all n [] h = refl
last_messages_all n (m ∷ ms) h = ground arith

last_messages_tail :
    (n : ℕ) (m : Message) (ms : List Message) → length ms ≡ n → last_messages n (m ∷ ms) ≡ ms
last_messages_tail n m ms h = ground (arith, last_messages_all n ms)

last_messages_full :
    (n : ℕ) (m : Message) (ms : List Message) (message : Message)
    → length (m ∷ ms) ≡ n
    → last_messages n ((m ∷ ms) ++ message ∷ []) ≡ ms ++ message ∷ []
last_messages_full n m ms message h =
    last_messages_tail n m (ms ++ message ∷ []) (omega (arith, length-append ms (message ∷ []), h))

last_messages_free :
    (n : ℕ) (ms : List Message) (message : Message)
    → length ms < n
    → last_messages n (ms ++ message ∷ []) ≡ ms ++ message ∷ []
last_messages_free n ms message h =
    last_messages_all n (ms ++ message ∷ []) (omega (arith, length-append ms (message ∷ []), h))

List-cases :
    (ms : List Message) → (ms ≡ []) ⊎ ((m : Message) × (rest : List Message) × (ms ≡ m ∷ rest))
List-cases [] = inl refl
List-cases (m ∷ ms) = inr (m, ms, refl)

deliver_queue :
    (bus : Bus) (now : Decimal) (message : Message) (sub : Subscription)
    → 0 < bus.queue_size
    → IsBounded bus.queue_size sub
    → (deliver bus now message sub).0.queue
      ≡ last_messages bus.queue_size (sub.queue ++ message ∷ [])
unfolding deliver drop_oldest
deliver_queue bus now message sub pos h =
    elim (Bool-cases (leb bus.queue_size (length sub.queue))) [
      | inr free ↦
          (let e : (deliver bus now message sub).0.queue ≡ sub.queue ++ message ∷ [] =
              ground arith in
            e)
          ∙ sym (last_messages_free bus.queue_size sub.queue message (ground arith))
      | inl full ↦ elim (List-cases sub.queue) [
        | inl e ↦ absurd (ground arith)
        | inr (m, ms, e) ↦
            (let e' : (deliver bus now message sub).0.queue ≡ ms ++ message ∷ [] = ground arith in
              e')
            ∙ sym (last_messages_full bus.queue_size m ms message (ground arith))
            ∙ ap (λ q. last_messages bus.queue_size (q ++ message ∷ [])) (sym e)
      ]
    ]

length-last_messages : (n : ℕ) (ms : List Message) → length (last_messages n ms) ≤ n
length-last_messages n [] = omega arith
length-last_messages n (m ∷ ms) = ground (arith, length-last_messages n ms)

offer-IsBounded :
    (bus : Bus) (now : Decimal) (message : Message) (sub : Subscription)
    → 0 < bus.queue_size
    → IsBounded bus.queue_size sub
    → IsBounded bus.queue_size (offer bus now message sub).0
unfolding offer
offer-IsBounded bus now message sub pos h =
    elim (Bool-cases (sub.closed || not (matches sub message.channel message.payload.symbol))) [
      | inl e ↦ rw (e, offer) h
      | inr e ↦
          rw (e, offer)
            (rw (deliver_queue bus now message sub pos h)
              (length-last_messages bus.queue_size (sub.queue ++ message ∷ [])))
    ]

offer_all-IsBounded :
    (bus : Bus) (now : Decimal) (message : Message) (subs : Dict ℕ Subscription)
    → 0 < bus.queue_size
    → All (λ e. IsBounded bus.queue_size e.1) subs
    → All (λ e. IsBounded bus.queue_size e.1) (offer_all bus now message subs).0
unfolding offer_all
offer_all-IsBounded bus now message [] pos h = tt
offer_all-IsBounded bus now message ((i, sub) ∷ subs) pos h =
    (offer-IsBounded bus now message sub pos h.0, offer_all-IsBounded bus now message subs pos h.1)

-- However slow its consumers are, publishing keeps every queue within the size that the bus allows.
pub publish-IsBounded :
    (time now : Decimal) (channel : String) (payload : Data) (bus : Bus)
    → 0 < bus.queue_size
    → All (λ e. IsBounded bus.queue_size e.1) bus.subs
    → All (λ e. IsBounded bus.queue_size e.1) (publish time now channel payload bus).subs
unfolding publish
publish-IsBounded time now channel payload bus pos h =
    let kept =
      offer_all-IsBounded bus now (record { channel = channel; payload = stamped time payload })
        bus.subs pos h in
    elim (Bool-cases (contains all_channels channel)) [
      | inl e ↦ rw (e, publish) kept
      | inr e ↦ rw (e, publish) h
    ]

get-offer_all :
    (bus : Bus) (now : Decimal) (message : Message) (i : ℕ) (subs : Dict ℕ Subscription)
    (sub : Subscription)
    → get i subs ≡ some sub
    → get i (offer_all bus now message subs).0 ≡ some (offer bus now message sub).0
unfolding offer_all get
get-offer_all bus now message i [] sub h = cc
get-offer_all bus now message i ((j, s) ∷ subs) sub h = elim (Bool-cases (j == i)) [
  | inl e ↦ rw e (
      let found : some s ≡ some sub = rw e at h in
      ap (λ o. elim o [ none ↦ none | some x ↦ some (offer bus now message x).0 ]) found)
  | inr e ↦ rw e (get-offer_all bus now message i subs sub (rw e at h))
]

offer_queue :
    (bus : Bus) (now : Decimal) (message : Message) (sub : Subscription)
    → 0 < bus.queue_size
    → IsBounded bus.queue_size sub
    → (offer bus now message sub).0.queue ≡ (
        if sub.closed || not (matches sub message.channel message.payload.symbol)
        then sub.queue
        else last_messages bus.queue_size (sub.queue ++ message ∷ []))
unfolding offer
offer_queue bus now message sub pos h =
    elim (Bool-cases (sub.closed || not (matches sub message.channel message.payload.symbol))) [
      | inl e ↦ rw (e, offer) refl
      | inr e ↦ rw (e, offer) (deliver_queue bus now message sub pos h)
    ]

get-publish :
    (time now : Decimal) (channel : String) (payload : Data) (bus : Bus) (i : ℕ)
    (sub : Subscription)
    → contains all_channels channel ≡ true
    → get i bus.subs ≡ some sub
    → get i (publish time now channel payload bus).subs
      ≡ some (offer bus now (record { channel = channel; payload = stamped time payload }) sub).0
unfolding publish
get-publish time now channel payload bus i sub known found =
    rw (known, publish)
      (get-offer_all bus now (record { channel = channel; payload = stamped time payload }) i
        bus.subs sub found)

-- A message on a channel of the bus reaches each open subscription that matches it: it is the newest in
-- the queue after the messages that were there, of which the oldest is lost if the queue was full. Every
-- other subscription keeps its queue.
pub publish_queue :
    (time now : Decimal) (channel : String) (payload : Data) (bus : Bus) (i : ℕ)
    (sub : Subscription)
    → 0 < bus.queue_size
    → IsBounded bus.queue_size sub
    → contains all_channels channel ≡ true
    → get i bus.subs ≡ some sub
    → (sub' : Subscription) × (get i (publish time now channel payload bus).subs ≡ some sub')
      × (sub'.queue ≡ (
          if sub.closed || not (matches sub channel payload.symbol)
          then sub.queue
          else last_messages bus.queue_size
              (sub.queue ++ record { channel = channel; payload = stamped time payload } ∷ [])))
publish_queue time now channel payload bus i sub pos h known found =
    let message : Message = record { channel = channel; payload = stamped time payload } in
    (
      (offer bus now message sub).0,
      get-publish time now channel payload bus i sub known found,
      offer_queue bus now message sub pos h,
    )
