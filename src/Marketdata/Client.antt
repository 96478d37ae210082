-- ===== src/Marketdata/Client.antt =====
-- src/marketdata/ws_client.py: the watchdog and the reconnection of `HyperliquidWsClient`. Times are
-- exact numbers; the socket, the JSON and the handlers are what drives the steps.
pub mod Silence
use hta.Common.{
  ℕ, suc, ◌+◌, ◌<◌, String, Bool, true, false, not, ◌&&◌, Option, none, some, List, [], ◌∷◌, ◌++◌,
  if◌then◌else◌,
}
use hta.Decimal.{Decimal, whole, nought, ◌⊖◌, ◌⊗◌, ◌≤?◌, lesser}

-- What the client emits on its own channels.
pub data Emission : Type 0 where
  connected : Emission
  stale : Decimal → Emission
  disconnected : String → Emission

-- The attributes that a connection and its watchdog change; `messages` counts what has arrived.
pub record Client : Type 0 where
  pub stale_seconds : Decimal
  pub last_msg_at : Decimal
  pub stale_emitted : Bool
  pub connection_count : ℕ
  pub messages : ℕ
  pub emissions : List Emission

abbrev pub new_client : Decimal → Client
new_client stale_seconds = record {
  stale_seconds = stale_seconds;
  last_msg_at = nought;
  stale_emitted = false;
  connection_count = 0;
  messages = 0;
  emissions = [];
}

-- The head of `_run_once`, when the socket has opened.
unfoldable pub on_connect : Decimal → Client → Client
on_connect now c = record c {
  last_msg_at = now;
  stale_emitted = false;
  connection_count = suc c.connection_count;
  emissions = c.emissions ++ connected ∷ [];
}

-- The loop over the socket's messages, up to the dispatch.
unfoldable pub on_message : Decimal → Client → Client
on_message now c = record c {
  last_msg_at = now;
  stale_emitted = if c.stale_emitted then false else c.stale_emitted;
  messages = suc c.messages;
}

-- One turn of `_watchdog`.
unfoldable pub check_stale : Decimal → Client → Client
check_stale now c =
    let elapsed = now ⊖ c.last_msg_at in
    if c.stale_seconds ≤? elapsed && not c.stale_emitted
    then record c { stale_emitted = true; emissions = c.emissions ++ stale elapsed ∷ [] }
    else c

-- The steps of a client: the watchdog runs beside an open connection.
infix 50 ◌⇒◌
pub data ◌⇒◌ : Client → Client → Type 0 where
  connects : (now : Decimal) (c : Client) → c ⇒ on_connect now c
  receives : (now : Decimal) (c : Client) → 0 < c.connection_count → c ⇒ on_message now c
  watches : (now : Decimal) (c : Client) → 0 < c.connection_count → c ⇒ check_stale now c

-- The clients that steps lead to.
pub data Reaches (stale_seconds : Decimal) : Client → Type 0 where
  starts : Reaches stale_seconds (new_client stale_seconds)
  steps : (c d : Client) → Reaches stale_seconds c → c ⇒ d → Reaches stale_seconds d

-- How a connection ended: the stream was closed, or with an exception.
pub data Ending : Type 0 where
  clean : Ending
  error : String → Ending

-- The loop in `run`, over the endings of its connections: the waits of `backoff_history`.
unfoldable pub backoffs : Decimal → List Ending → Decimal → List Decimal
backoffs max_backoff [] backoff = []
backoffs max_backoff (clean ∷ endings) backoff = backoffs max_backoff endings (whole 1)
backoffs max_backoff (error exc ∷ endings) backoff =
    backoff ∷ backoffs max_backoff endings (lesser (backoff ⊗ whole 2) max_backoff)
