-- ===== src/Tests/Client.antt =====
-- src/marketdata/ws_client.py: a silence of two minutes, and a socket that fails.
use hta.Common.{◌<◌, ◌≡◌, refl, List, [], ◌∷◌, arith}
use hta.Decimal.{whole, ◌⊕◌, ◌⊗◌, ◌<?◌, lesser}
use hta.Decimal.Order.{◌≼◌}
use hta.Marketdata.Client.{
  Client, new_client, on_connect, check_stale, connects, watches, Reaches, starts, steps, Ending,
  clean, error, backoffs,
}
use hta.Marketdata.Client.Silence.{stale_count}

abbrev after_connect : Client
after_connect = on_connect (whole 0) (new_client (whole 30))

abbrev after_minute : Client
after_minute = check_stale (whole 60) after_connect

abbrev silent : Client
silent = check_stale (whole 120) after_minute

one_report : stale_count silent.emissions ≡ 1
unfolding check_stale on_connect ◌⊕◌ ◌<?◌
one_report = refl

opened : 0 < after_connect.connection_count
unfolding on_connect
opened = omega arith

still_open : 0 < after_minute.connection_count
unfolding check_stale on_connect ◌⊕◌ ◌<?◌
still_open = omega arith

silence : Reaches (whole 30) silent
silence =
    steps after_minute silent
      (steps after_connect after_minute
        (steps (new_client (whole 30)) after_connect starts
          (connects (whole 0) (new_client (whole 30))))
        (watches (whole 60) after_connect opened))
      (watches (whole 120) after_minute still_open)

abbrev failures : List Ending
failures = error "a" ∷ error "b" ∷ error "c" ∷ clean ∷ error "d" ∷ []

waits : backoffs (whole 3) failures (whole 1) ≡ whole 1 ∷ whole 2 ∷ whole 3 ∷ whole 1 ∷ []
unfolding backoffs ◌⊗◌ ◌<?◌ lesser
waits = refl

one_three : whole 1 ≼ whole 3
unfolding ◌<?◌
one_three = refl

one_one : whole 1 ≼ whole 1
unfolding ◌<?◌
one_one = refl
