-- ===== src/Marketdata/Candles.antt =====
-- src/marketdata/candle_store.py: `CandleStore`. The floats of a trade are exact numbers, and a deque is
-- kept from its right end, so the newest bar comes first.
pub mod Bars
use hta.Common.{
  ℕ, zero, suc, ◌*◌, ◌/◌, String, Bool, true, false, Option, none, some, List, [], ◌∷◌, ◌++◌, map,
  keep, ltb, ◌==◌, if◌then◌else◌,
}
use hta.Decimal.{Decimal, ◌⊕◌, greater, lesser}
use hta.Dict.{Dict, get, put, keys, string_key}

pub record Bar : Type 0 where
  pub open_time_ms : ℕ
  pub open_price : Decimal
  pub high : Decimal
  pub low : Decimal
  pub close : Decimal
  pub volume : Decimal

pub record CandleStore : Type 0 where
  pub history : ℕ
  pub bar_seconds : ℕ
  pub bars : Dict String (List Bar)

-- The arguments of `on_trade`.
pub record Trade : Type 0 where
  pub coin : String
  pub px : Decimal
  pub sz : Decimal
  pub time_ms : ℕ

-- `CandleStore(history, bar_seconds)`, where none is the `ValueError`.
unfoldable pub candle_store : ℕ → ℕ → Option CandleStore
candle_store history bar_seconds =
    if bar_seconds == 0
    then none
    else if history == 0
    then none
    else some (record { history = history; bar_seconds = bar_seconds; bars = [] })

abbrev pub bar_ms : CandleStore → ℕ
bar_ms s = s.bar_seconds * 1000

-- The deque of a coin, which the `defaultdict` makes empty.
unfoldable pub bars_of : CandleStore → String → List Bar
unfolding get
bars_of s coin = elim (get coin s.bars) [ none ↦ [] | some bars ↦ bars ]

-- `deque.append` drops from the left what `maxlen` leaves no room for.
unfoldable pub take {ℓ} : {A : Type ℓ} → ℕ → List A → List A
take zero xs = []
take (suc n) [] = []
take (suc n) (x ∷ xs) = x ∷ take n xs

abbrev pub new_bar : ℕ → Trade → Bar
new_bar bar_open t = record {
  open_time_ms = bar_open;
  open_price = t.px;
  high = t.px;
  low = t.px;
  close = t.px;
  volume = t.sz;
}

abbrev pub merge : Bar → Trade → Bar
merge last t = record {
  open_time_ms = last.open_time_ms;
  open_price = last.open_price;
  high = greater last.high t.px;
  low = lesser last.low t.px;
  close = t.px;
  volume = last.volume ⊕ t.sz;
}

-- The trade in the deque of its coin; a trade for an older bar is ignored.
unfoldable pub add_trade : ℕ → ℕ → Trade → List Bar → List Bar
unfolding take
add_trade history bar_open t [] = take history (new_bar bar_open t ∷ [])
add_trade history bar_open t (last ∷ older) =
    if ltb last.open_time_ms bar_open
    then take history (new_bar bar_open t ∷ last ∷ older)
    else if last.open_time_ms == bar_open
    then merge last t ∷ older
    else last ∷ older

unfoldable pub on_trade : Trade → CandleStore → CandleStore
unfolding put bars_of add_trade
on_trade t s = record s {
  bars =
      put t.coin (add_trade s.history (t.time_ms / bar_ms s * bar_ms s) t (bars_of s t.coin))
        s.bars;
}

-- `on_trades_message`, where `read` takes the fields of an element, or none where a key is missing or a
-- number does not parse. The Boolean says whether the call returned: it raises at the first such element.
unfoldable pub on_trades_message :
    {Raw : Type 0} → (Raw → Option Trade) → List Raw → CandleStore → CandleStore × Bool
unfolding on_trade
on_trades_message read [] s = (s, true)
on_trades_message read (x ∷ xs) s = elim (read x) [
  | none ↦ (s, false)
  | some t ↦ on_trades_message read xs (on_trade t s)
]

abbrev reverse {ℓ} : {A : Type ℓ} → List A → List A
reverse [] = []
reverse (x ∷ xs) = reverse xs ++ x ∷ []

-- `get_candles`, the rows of the frame: bars from the oldest to the newest.
unfoldable pub get_candles : CandleStore → String → List Bar
unfolding bars_of
get_candles s symbol = reverse (bars_of s symbol)

abbrev has_bars : String × List Bar → Bool
has_bars (_, []) = false
has_bars (_, _ ∷ _) = true

unfoldable pub symbols : CandleStore → List String
symbols s = keys (keep has_bars s.bars)
