-- ===== src/Tests/Cache.antt =====
-- The position tracker and the reconciler on concrete answers of the exchange.
use hta.Common.{ℕ, ◌≡◌, refl, subst, inr, ◌↔◌, true, false, none, some, [], ◌∷◌}
use hta.Decimal.{whole, ◌⊗◌, inverse, ◌<?◌, ◌=?◌, magnitude}
use hta.Decimal.Order.{=?_cross}
use hta.Dict.{Dict, number_key, get, put, keys}
use hta.Risk.KillSwitch.{returns, raises, Services, initial}
use hta.Execution.Tracker.{
  absent, number, RawPosition, position, skipped, UserState, PositionTracker, TrackedOrder,
  empty_tracker, to_decimal, or_else, tracked, size_of, read_positions, read_orders, store, refresh,
}
use hta.Execution.Tracker.Refresh.{Refreshed, refresh-Refreshed}
use hta.Execution.Reconciler.{size_at, Pass, check_once, divergences, is_empty}
use hta.Execution.Reconciler.Divergence.{Agrees, refreshed, divergences_iff, check_once_halts}

abbrev services : Services
services = record {
  open_orders = returns [];
  positions = returns [];
  cancels = λ symbol oid. returns tt;
  closes = λ symbol. returns tt;
  appends = λ event. returns tt;
  sends = λ message. returns tt;
}

-- The exchange reports 2 BTC, worth $60000, and an entry that is no position.
abbrev btc : RawPosition
btc = record {
  coin = some "BTC";
  szi = number (whole 2);
  entry_px = absent;
  position_value = number (whole 60000);
  liquidation_px = absent;
}

abbrev state : UserState
state = record {
  asset_positions = skipped ∷ position btc ∷ [];
  account_value = number (whole 1500);
  total_raw_usd = absent;
}

abbrev pass : Pass
pass = record {
  user_state = returns state;
  open_orders = returns (record { symbol = "BTC"; oid = 1 } ∷ []);
  tick = returns tt;
  services = services;
  ts = "12:00";
}

-- The cache of an earlier refresh, and an empty one.
abbrev cached : PositionTracker
cached = (refreshed pass empty_tracker).0

cached_keys : (keys cached.positions ≡ "BTC" ∷ []) × (keys cached.orders ≡ 1 ∷ [])
unfolding refresh store read_positions read_orders size_of tracked to_decimal or_else put ◌=?◌
cached_keys = (refl, refl)

refresh-Refreshed_example :
    Refreshed empty_tracker
      (refresh (returns state) (returns (record { symbol = "BTC"; oid = 1 } ∷ [])) empty_tracker)
refresh-Refreshed_example =
    refresh-Refreshed (returns state) (returns (record { symbol = "BTC"; oid = 1 } ∷ []))
      empty_tracker

abbrev no_orders : Dict ℕ TrackedOrder
no_orders = []

divergences_iff_example :
    (is_empty (divergences empty_tracker cached) ≡ true) ↔ Agrees empty_tracker cached
divergences_iff_example = divergences_iff empty_tracker cached

-- The empty cache has no BTC, so it does not agree with the exchange.
btc_sizes : (size_at empty_tracker.positions "BTC" =? size_at cached.positions "BTC") ≡ false
unfolding refresh store read_positions size_of tracked to_decimal or_else put size_at get ◌=?◌ ◌<?◌
    magnitude ◌⊗◌ inverse
btc_sizes = refl

drifted : ¬ Agrees empty_tracker cached
drifted h = let same_size = h.sizes "BTC" in let other_size = btc_sizes in cc

check_once_halts_example : (check_once pass empty_tracker initial).kill_switch.halted ≡ true
check_once_halts_example = check_once_halts pass empty_tracker initial refl refl (inr drifted)

settled : (refreshed pass cached).1 ≡ none
unfolding refresh store read_positions read_orders size_of tracked to_decimal or_else put ◌=?◌
settled = refl

Agrees-refl : (t : PositionTracker) → Agrees t t
Agrees-refl t = record {
  sizes = λ s. (=?_cross (size_at t.positions s) (size_at t.positions s)).1 refl;
  orders = λ oid. refl;
}

repeated : cached ≡ (refreshed pass cached).0
unfolding refresh store read_positions read_orders size_of tracked to_decimal or_else put ◌=?◌
repeated = refl

agreed : Agrees cached (refreshed pass cached).0
agreed = subst (Agrees cached) repeated (Agrees-refl cached)

-- The journal's disk is full when the exchange has drifted from the cache.
abbrev unjournaled : Pass
unjournaled = record pass { tick = raises "OSError()" }

drifting : (refreshed unjournaled empty_tracker).1 ≡ none
unfolding refresh store read_positions read_orders size_of tracked to_decimal or_else put ◌=?◌
drifting = refl
