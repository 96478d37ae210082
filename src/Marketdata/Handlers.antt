-- ===== src/Marketdata/Handlers.antt =====
-- src/marketdata/ws_client.py: the handlers of `HyperliquidWsClient` and the subscriptions of a connection. A
-- handler is a function that answers or raises; what it does is its own, so the calls are listed.
pub mod Delivery
use hta.Common.{String, Option, none, some, List, [], ◌∷◌, ◌++◌, map, if◌then◌else◌}
use hta.Dict.{Dict, get, put, string_key}
use hta.Strings.{is_empty_text}

-- The registered handlers of each channel, by their names.
abbrev pub Handlers : Type 0
Handlers = Dict String (List String)

-- `on`
unfoldable pub on : String → String → Handlers → Handlers
unfolding get put
on channel handler handlers = elim (get channel handlers) [
  | none ↦ put channel (handler ∷ []) handlers
  | some hs ↦ put channel (hs ++ handler ∷ []) handlers
]

-- A call of a handler with the data of a message, which stay opaque.
abbrev pub HandlerCall : Type 0
HandlerCall = String × String

-- `_emit`: every handler of the channel is called, whether those before it raise or not.
unfoldable pub emit : Handlers → String → String → List HandlerCall
unfolding get
emit handlers channel payload = elim (get channel handlers) [
  | none ↦ []
  | some hs ↦ map (λ h. (h, payload)) hs
]

-- What `json.loads` reads of a message: its channel, if it has one, and its data.
pub data Raw : Type 0 where
  invalid_json : Raw
  message : Option String → String → Raw

-- `_dispatch`
unfoldable pub dispatch : Handlers → Raw → List HandlerCall
unfolding emit is_empty_text
dispatch handlers invalid_json = []
dispatch handlers (message none payload) = []
dispatch handlers (message (some channel) payload) =
    if is_empty_text channel then [] else emit handlers channel payload

-- The subscriptions that a connection sends: the type and the coin.
unfoldable pub subscriptions : List String → List (String × String)
subscriptions [] = []
subscriptions (symbol ∷ symbols) = ("l2Book", symbol) ∷ ("trades", symbol) ∷ subscriptions symbols
