-- ===== src/Tests/Socket.antt =====
-- src/dashboard_api/auth.py and src/dashboard_api/ws.py: a client that does not keep up.
use Prim.Native.String.{◌++◌}
use hta.Common.{String, ◌≡◌, ◌↔◌, refl, true, false, none, some, [], ◌∷◌}
use hta.Decimal.{whole}
use hta.Dict.{get, number_key}
use hta.Formatted.{lit}
use hta.Strings.{after_prefix, is_empty_text}
use hta.Dashboard.Bus.{Subscription, new_bus}
use hta.Dashboard.Auth.{
  require_token, bearer_token, constant_time_match, get_expected_token, validate_token_or_raise,
}
use hta.Dashboard.Auth.Gate.{IsToken, gate_iff}
use hta.Dashboard.Socket.{
  null, items, dict, text, accept, send_error, close, Connection, Step, received, delivered,
  checked, read_subscribe, read_channels, channels_of, strings, open_connection, serve,
}
use hta.Dashboard.Socket.Closing.{IsGone, serve_slow}

-- Without a token in the environment nobody gets in.
closed : require_token (some "") (some "Bearer ") ≡ some "invalid bearer token"
unfolding require_token bearer_token after_prefix constant_time_match get_expected_token
    is_empty_text
closed = refl

admitted : require_token (some "secret") (some "Bearer secret") ≡ none
unfolding require_token bearer_token after_prefix constant_time_match get_expected_token
    is_empty_text
admitted = refl

gate_iff_example :
    ((require_token (some "secret") (some "Bearer secret") ≡ none) ↔ (
      (token : String) × IsToken (some "secret") token
      × (some "Bearer secret" ≡ some ("Bearer " ++ token))))
    × ((validate_token_or_raise (some "secret") (some "guess") ≡ none)
        ↔ ((token : String) × IsToken (some "secret") token × (some "guess" ≡ some token)))
gate_iff_example = gate_iff (some "secret") (some "Bearer secret") (some "guess")

-- A channel that does not exist is refused, and the bus is as before.
unknown_channel :
    open_connection 1 none
      (new_bus 2 100 (whole 10))
      (text (dict (some "subscribe") (items (some "fill" ∷ some "gossip" ∷ [])) null))
    ≡ record {
      bus = new_bus 2 100 (whole 10);
      sent = accept ∷ send_error (lit "unknown channels: " ∷ lit "gossip" ∷ []) ∷ close 1008 ∷ [];
      over = true;
    }
unfolding open_connection read_subscribe read_channels channels_of strings
unknown_channel = refl

abbrev sluggish : Subscription
sluggish = record {
  channels = "fill" ∷ [];
  symbols = none;
  queue = [];
  drops = 120;
  drop_timestamps = [];
  slow = true;
  closed = false;
}

abbrev connection : Connection
connection = record {
  bus = record (new_bus 2 100 (whole 10)) { subs = (1, sluggish) ∷ [] };
  sent = [];
  over = false;
}

abbrev ping : Step
ping = received (whole 7) (text (dict (some "ping") null null))

serve_slow_example : IsGone 1 (serve 1 (ping ∷ delivered ∷ checked ∷ ping ∷ []) connection)
unfolding get
serve_slow_example = serve_slow 1 (ping ∷ delivered ∷ checked ∷ ping ∷ []) connection refl refl refl
