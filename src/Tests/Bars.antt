-- ===== src/Tests/Bars.antt =====
-- src/marketdata on a concrete stream of trades.
use hta.Common.{◌≡◌, refl, Option, none, some, List, [], ◌∷◌}
use hta.Decimal.{whole, ◌⊕◌, ◌<?◌, lesser, greater}
use hta.Dict.{get, put}
use hta.Marketdata.Candles.{
  CandleStore, Trade, bars_of, take, add_trade, on_trade, on_trades_message,
}
use hta.Marketdata.Candles.Bars.{IsStore, on_trades_message-IsStore}

abbrev store : CandleStore
store = record { history = 2; bar_seconds = 300; bars = [] }

-- Two trades of one bar, one of the next, one that is late, and an element that does not parse.
abbrev message : List (Option Trade)
message =
    some (record { coin = "BTC"; px = whole 30000; sz = whole 1; time_ms = 300000 })
    ∷ some (record { coin = "BTC"; px = whole 29000; sz = whole 2; time_ms = 400000 })
    ∷ some (record { coin = "BTC"; px = whole 31000; sz = whole 1; time_ms = 700000 })
    ∷ some (record { coin = "BTC"; px = whole 1; sz = whole 1; time_ms = 299999 })
    ∷ none
    ∷ []

two_bars :
    bars_of (on_trades_message (λ t. t) message store).0 "BTC"
    ≡ record {
      open_time_ms = 600000;
      open_price = whole 31000;
      high = whole 31000;
      low = whole 31000;
      close = whole 31000;
      volume = whole 1;
    }
      ∷ record {
        open_time_ms = 300000;
        open_price = whole 30000;
        high = whole 30000;
        low = whole 29000;
        close = whole 29000;
        volume = whole 3;
      }
      ∷ []
unfolding on_trades_message on_trade add_trade take bars_of put get ◌⊕◌ ◌<?◌ lesser greater
two_bars = refl

on_trades_message-IsStore_example : IsStore (on_trades_message (λ t. t) message store).0
on_trades_message-IsStore_example = on_trades_message-IsStore (λ t. t) message store tt
