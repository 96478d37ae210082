-- ===== src/Marketdata/Handlers/Delivery.antt =====
-- src/marketdata/ws_client.py: whom a registered handler hears, and in which order.
use mathlib.Core.List.{append-nil}
use hta.Common.{
  String, ◌≡◌, refl, sym, ap, subst, ◌∙◌, false, Option, none, some, List, [], ◌∷◌, ◌++◌, map, same,
  same_iff, if◌then◌else◌, Bool-cases, inl, inr,
}
use hta.Dict.{get, put, get-put_self, get-put_ne, string_key}
use hta.Strings.{is_empty_text}
use hta.Marketdata.Handlers.{Handlers, HandlerCall, message, on, emit, dispatch}

-- The handlers that are registered for a channel.
abbrev registered : Option (List String) → List String
registered none = []
registered (some hs) = hs

emit-registered :
    (hs : Handlers) (c payload : String)
    → emit hs c payload ≡ map {B = HandlerCall} (λ h. (h, payload)) (registered (get c hs))
unfolding emit
emit-registered hs c payload = go (get c hs)
  where
    go :
        (found : Option (List String))
        → (elim found [ none ↦ [] | some hs ↦ map {B = HandlerCall} (λ h. (h, payload)) hs ])
          ≡ map {B = HandlerCall} (λ h. (h, payload)) (registered found)
    go none = refl
    go (some hs) = refl

registered-on_self :
    (channel handler : String) (hs : Handlers)
    → registered (get channel (on channel handler hs)) ≡ registered (get channel hs) ++ handler ∷ []
unfolding on
registered-on_self channel handler hs = go (get channel hs)
  where
    go :
        (found : Option (List String))
        → registered (
            get channel (elim found [
              | none ↦ put channel (handler ∷ []) hs
              | some gs ↦ put channel (gs ++ handler ∷ []) hs
            ]))
          ≡ registered found ++ handler ∷ []
    go none = ap registered (get-put_self channel _ hs)
    go (some gs) = ap registered (get-put_self channel _ hs)

get-on_ne :
    (channel handler c : String) (hs : Handlers)
    → same channel c ≡ false
    → get c (on channel handler hs) ≡ get c hs
unfolding on
get-on_ne channel handler c hs h = go (get channel hs)
  where
    go :
        (found : Option (List String))
        → get c (elim found [
          | none ↦ put channel (handler ∷ []) hs
          | some gs ↦ put channel (gs ++ handler ∷ []) hs
        ])
          ≡ get c hs
    go none = get-put_ne channel c _ hs h
    go (some gs) = get-put_ne channel c _ hs h

map_last :
    (payload h : String) (hs : List String)
    → map {B = HandlerCall} (λ g. (g, payload)) (hs ++ h ∷ [])
      ≡ map (λ g. (g, payload)) hs ++ (h, payload) ∷ []
map_last payload h [] = refl
map_last payload h (g ∷ hs) = ap (λ cs. (g, payload) ∷ cs) (map_last payload h hs)

-- A handler that has been registered is called last, with every message of its channel, and with no other.
pub dispatch-on :
    (channel handler c payload : String) (hs : Handlers)
    → is_empty_text c ≡ false
    → dispatch (on channel handler hs) (message (some c) payload)
      ≡ dispatch hs (message (some c) payload)
        ++ (if same channel c then (handler, payload) ∷ [] else [])
unfolding dispatch
dispatch-on channel handler c payload hs h = elim (Bool-cases (same channel c)) [
  | inl e ↦
      rw (h, e)
        (emit-registered (on channel handler hs) c payload
          ∙ ap (map {B = HandlerCall} (λ g. (g, payload))) (
              subst
                (λ k.
                  registered (get k (on channel handler hs))
                  ≡ registered (get k hs) ++ handler ∷ [])
                ((same_iff channel c).0 e) (registered-on_self channel handler hs))
          ∙ map_last payload handler (registered (get c hs))
          ∙ ap (λ cs. cs ++ (handler, payload) ∷ []) (sym (emit-registered hs c payload)))
  | inr e ↦
      rw (h, e)
        (emit-registered (on channel handler hs) c payload
          ∙ ap (λ found. map {B = HandlerCall} (λ g. (g, payload)) (registered found))
              (get-on_ne channel handler c hs e)
          ∙ sym (emit-registered hs c payload)
          ∙ sym (append-nil (emit hs c payload)))
]
