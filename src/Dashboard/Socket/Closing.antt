-- ===== src/Dashboard/Socket/Closing.antt =====
-- src/dashboard_api/ws.py: how a connection ends.
use hta.Common.{
  ℕ, String, ◌≡◌, refl, sym, ap, subst, ◌∙◌, Bool, true, false, Option, none, some, List, [], ◌∷◌,
  any, arith, Bool-cases, Option-cases, inl, inr,
}
use hta.Decimal.{Decimal}
use hta.Dict.{Dict, get, number_key, get-put_self, get-pop_self}
use hta.Dashboard.Bus.{
  Data, Message, Subscription, Bus, drop_oldest, deliver, offer, offer_all, publish, unsubscribe,
  take_message, contains, all_channels,
}
use hta.Dashboard.Socket.{
  malformed, not_dict, dict, text, disconnect, Connection, finish, receive, send_first, send_next,
  refusing, read_only, check_slow, Step, received, delivered, beat, checked, published, broken,
  step, serve, is_action,
}

abbrev slow_sub : Option Subscription → Bool
slow_sub none = false
slow_sub (some sub) = sub.slow

-- The bus knows the subscription, and it has lost too many messages.
abbrev pub is_slow : ℕ → Bus → Bool
is_slow i bus = slow_sub (get i bus.subs)

abbrev pub is_checked : Step → Bool
is_checked (received _ _) = false
is_checked delivered = false
is_checked (beat _) = false
is_checked checked = true
is_checked (published _ _ _ _) = false
is_checked broken = false

-- The connection is over and its subscription has left the bus.
abbrev pub IsGone : ℕ → Connection → Type 0
IsGone i c = (c.over ≡ true) × (get i c.bus.subs ≡ none)

finish-IsGone : (i : ℕ) (c : Connection) → IsGone i (finish i c)
unfolding finish unsubscribe
finish-IsGone i c = (refl, get-pop_self i c.bus.subs)

-- Delivery does not make a slow subscription fast.
offer_slow :
    (bus : Bus) (now : Decimal) (message : Message) (sub : Subscription)
    → sub.slow ≡ true
    → (offer bus now message sub).0.slow ≡ true
unfolding offer deliver drop_oldest
offer_slow bus now message sub h = ground (arith, h)

offer_all_slow :
    (i : ℕ) (bus : Bus) (now : Decimal) (message : Message) (subs : Dict ℕ Subscription)
    → slow_sub (get i subs) ≡ true
    → slow_sub (get i (offer_all bus now message subs).0) ≡ true
unfolding offer_all get
offer_all_slow i bus now message [] h = h
offer_all_slow i bus now message ((j, sub) ∷ subs) h =
    ground (arith, h, offer_slow bus now message sub, offer_all_slow i bus now message subs)

publish_slow :
    (i : ℕ) (time now : Decimal) (channel : String) (payload : Data) (bus : Bus)
    → is_slow i bus ≡ true
    → is_slow i (publish time now channel payload bus) ≡ true
unfolding publish
publish_slow i time now channel payload bus h = elim (Bool-cases (contains all_channels channel)) [
  | inl e ↦ rw (e, publish) (offer_all_slow i bus now _ bus.subs h)
  | inr e ↦ rw (e, publish) h
]

-- After a step a slow connection is gone, or it is still slow and nobody has looked.
data Remains (i : ℕ) (s : Step) (c : Connection) : Type 0 where
  gone : IsGone i c → Remains i s c
  slow : is_slow i c.bus ≡ true → is_checked s ≡ false → c.over ≡ false → Remains i s c

send_first_slow :
    (i : ℕ) (c : Connection) (sub : Subscription) (ms : List Message)
    → get i c.bus.subs ≡ some sub
    → sub.slow ≡ true
    → is_slow i (send_first i c ms).bus ≡ true
unfolding take_message
send_first_slow i c sub [] e h = ap slow_sub e ∙ h
send_first_slow i c sub (m ∷ ms) e h =
    rw (e, take_message) (ap slow_sub (get-put_self i _ c.bus.subs) ∙ h)

send_first_over : (i : ℕ) (c : Connection) (ms : List Message) → (send_first i c ms).over ≡ c.over
send_first_over i c [] = refl
send_first_over i c (m ∷ ms) = refl

send_next_slow :
    (i : ℕ) (c : Connection)
    → is_slow i c.bus ≡ true
    → c.over ≡ false
    → Remains i delivered (send_next i c)
unfolding send_next
send_next_slow i c h o = elim (Option-cases (get i c.bus.subs)) [
  | inl e ↦ absurd (ground (arith, sym (ap slow_sub e) ∙ h))
  | inr (sub, e) ↦
      rw (e, send_next)
        (slow (send_first_slow i c sub sub.queue e (sym (ap slow_sub e) ∙ h)) refl
          (send_first_over i c sub.queue ∙ o))
]

check_slow-IsGone : (i : ℕ) (c : Connection) → is_slow i c.bus ≡ true → IsGone i (check_slow i c)
unfolding check_slow
check_slow-IsGone i c h = elim (Option-cases (get i c.bus.subs)) [
  | inl e ↦ absurd (ground (arith, sym (ap slow_sub e) ∙ h))
  | inr (sub, e) ↦
      rw (e, check_slow)
        (rw (sym (ap slow_sub e) ∙ h)
          (finish-IsGone i (refusing "slow consumer; disconnecting" 1013 c)))
]

step-Remains :
    (i : ℕ) (s : Step) (c : Connection)
    → is_slow i c.bus ≡ true
    → c.over ≡ false
    → Remains i s (step i s c)
unfolding step receive check_slow
step-Remains i (received time disconnect) c h o = gone (finish-IsGone i c)
step-Remains i (received time (text malformed)) c h o =
    gone (finish-IsGone i (refusing "invalid json" 1003 c))
step-Remains i (received time (text not_dict)) c h o =
    gone (finish-IsGone i (refusing read_only 1008 c))
step-Remains i (received time (text (dict action channels symbols))) c h o =
    elim (Bool-cases (is_action "ping" action)) [
      | inl e ↦ rw (e, receive) (slow h refl o)
      | inr e ↦ rw (e, receive) (gone (finish-IsGone i (refusing read_only 1008 c)))
    ]
step-Remains i delivered c h o = send_next_slow i c h o
step-Remains i (beat time) c h o = slow h refl o
step-Remains i checked c h o = gone (check_slow-IsGone i c h)
step-Remains i (published time now channel payload) c h o =
    slow (publish_slow i time now channel payload c.bus h) refl o
step-Remains i broken c h o = gone (finish-IsGone i c)

serve_over : (i : ℕ) (ss : List Step) (c : Connection) → c.over ≡ true → serve i ss c ≡ c
unfolding serve
serve_over i [] c h = refl
serve_over i (s ∷ ss) c h = ground (arith, h)

-- A connection whose client is too slow ends as soon as the watchdog has its next turn: in every sequence of
-- steps with such a turn the handler returns, and its subscription has left the bus.
pub serve_slow :
    (i : ℕ) (ss : List Step) (c : Connection)
    → is_slow i c.bus ≡ true
    → c.over ≡ false
    → any is_checked ss ≡ true
    → IsGone i (serve i ss c)
unfolding serve
serve_slow i [] c h o a = absurd (ground (arith, a))
serve_slow i (s ∷ ss) c h o a =
    rw (o, serve)
      (elim (step-Remains i s c h o) [
        | gone g ↦ subst (IsGone i) (sym (serve_over i ss (step i s c) g.0)) g
        | slow h' k o' ↦ serve_slow i ss (step i s c) h' o' (ground (arith, a, k))
      ])

-- If the connection is over, its subscription has left the bus.
abbrev pub IsDetached : ℕ → Connection → Type 0
IsDetached i c = c.over ≡ true → get i c.bus.subs ≡ none
