-- ===== src/Dashboard/Stats.antt =====
-- src/dashboard_api/queries.py: `Queries.stats`. The strategy of a fill is a string: another value counts
-- here as one that raises, which for lists and dictionaries it does.
pub mod Balance
use hta.Common.{
  ℕ, suc, ◌+◌, String, Bool, true, false, ◌&&◌, Option, none, some, ◌>>=◌, List, [], ◌∷◌, map, keep,
  same, ltb, if◌then◌else◌,
}
use hta.Decimal.{Decimal, whole, nought, ◌⊕◌, ◌⊖◌, opposite, ◌⊘◌, ◌<?◌, ◌≤?◌, lesser, greater}
use hta.Dict.{Dict, get, put, string_key}
use hta.Storage.Payloads.{Json, null, boolean, number, text, decimal, shown, nested, Payload}
use hta.Storage.Journal.{Event}

-- Seconds; none for "all".
abbrev pub rolling_windows_seconds : Dict String (Option ℕ)
rolling_windows_seconds =
    ("1h", some 3600)
    ∷ ("24h", some 86400)
    ∷ ("7d", some 604800)
    ∷ ("30d", some 2592000)
    ∷ ("all", none)
    ∷ []

-- `float(v)`, where none is the TypeError or ValueError. A string that shows a number is `shown`.
unfoldable pub float : Json → Option Decimal
float null = none
float (boolean true) = some (whole 1)
float (boolean false) = some nought
float (number x) = some x
float (text s) = none
float (decimal x) = some x
float (shown x) = some x
float (nested s) = none

abbrev pub is_text : String → Option Json → Bool
is_text s (some (text t)) = same t s
is_text s _ = false

-- `float(p.get(key, 0.0))`
unfoldable pub amount : String → Payload → Option Decimal
unfolding get float
amount key p = elim (get key p) [ none ↦ some nought | some v ↦ float v ]

-- `p.get("strategy", "unknown")`
abbrev pub strategy_name : Option Json → Option String
strategy_name none = some "unknown"
strategy_name (some (text s)) = some s
strategy_name (some _) = none

-- What the loop reads of a closing fill.
pub record Close : Type 0 where
  pub pnl : Decimal
  pub fee : Decimal
  pub strategy : String

unfoldable pub read_close : Payload → Option Close
unfolding amount get
read_close p = amount "pnl" p >>= λ pnl. amount "fee" p >>= λ fee.
    strategy_name (get "strategy" p) >>= λ strategy.
    some (record { pnl = pnl; fee = fee; strategy = strategy })

-- One more close, unless an exception got there before.
unfoldable pub prepend : Option Close → Option (List Close) → Option (List Close)
prepend c rest = c >>= λ c'. rest >>= λ cs. some (c' ∷ cs)

-- The fills that are no close are passed over; a value that does not convert raises.
unfoldable pub read_closes : List Payload → Option (List Close)
unfolding read_close prepend get
read_closes [] = some []
read_closes (p ∷ ps) =
    let rest = read_closes ps in
    if is_text "close" (get "opens_or_closes" p) then prepend (read_close p) rest else rest

pub record Bucket : Type 0 where
  pub trades : ℕ
  pub pnl : Decimal
  pub fees : Decimal

-- The variables of the loop; no best or worst trade stands for an infinity.
pub record Tally : Type 0 where
  pub wins : ℕ
  pub losses : ℕ
  pub gross_pnl : Decimal
  pub fees : Decimal
  pub best : Option Decimal
  pub worst : Option Decimal
  pub per_strategy : Dict String Bucket

abbrev pub no_trades : Tally
no_trades = record {
  wins = 0;
  losses = 0;
  gross_pnl = nought;
  fees = nought;
  best = none;
  worst = none;
  per_strategy = [];
}

abbrev pub empty_bucket : Bucket
empty_bucket = record { trades = 0; pnl = nought; fees = nought }

-- `per_strategy.setdefault(...)`, and the three additions.
unfoldable pub add_to_bucket : Close → Dict String Bucket → Dict String Bucket
unfolding get put
add_to_bucket c buckets =
    let b : Bucket = elim (get c.strategy buckets) [ none ↦ empty_bucket | some b ↦ b ] in
    put c.strategy (record { trades = suc b.trades; pnl = b.pnl ⊕ c.pnl; fees = b.fees ⊕ c.fee })
      buckets

abbrev pub best_of : Option Decimal → Decimal → Decimal
best_of none x = x
best_of (some b) x = greater b x

abbrev pub worst_of : Option Decimal → Decimal → Decimal
worst_of none x = x
worst_of (some w) x = lesser w x

unfoldable pub add_close : Close → Tally → Tally
unfolding add_to_bucket
add_close c t = record {
  wins = if nought <? c.pnl then suc t.wins else t.wins;
  losses = if nought <? c.pnl then t.losses else if c.pnl <? nought then suc t.losses else t.losses;
  gross_pnl = t.gross_pnl ⊕ c.pnl;
  fees = t.fees ⊕ c.fee;
  best = some (best_of t.best c.pnl);
  worst = some (worst_of t.worst c.pnl);
  per_strategy = add_to_bucket c t.per_strategy;
}

unfoldable pub tally : List Close → Tally → Tally
unfolding add_close
tally [] t = t
tally (c ∷ cs) t = tally cs (add_close c t)

-- `sum`
unfoldable pub sum_from : Decimal → List Decimal → Decimal
sum_from acc [] = acc
sum_from acc (x ∷ xs) = sum_from (acc ⊕ x) xs

abbrev pub pnls : List Close → List Decimal
pnls = map (λ (c : Close). c.pnl)

unfoldable pub profits : List Close → Decimal
unfolding sum_from
profits cs = sum_from nought (keep (λ x. nought <? x) (pnls cs))

unfoldable pub loss_sum : List Close → Decimal
unfolding sum_from
loss_sum cs = opposite (sum_from nought (keep (λ x. x <? nought) (pnls cs)))

pub record Stats : Type 0 where
  pub window : String
  pub trades : ℕ
  pub win_rate : Decimal
  pub profit_factor : Option Decimal
  pub gross_pnl : Decimal
  pub fees : Decimal
  pub net_pnl : Decimal
  pub best_trade : Option Decimal
  pub worst_trade : Option Decimal
  pub per_strategy : Dict String Bucket

unfoldable pub summary : String → List Close → Stats
unfolding tally profits loss_sum
summary window cs =
    let t = tally cs no_trades in
    let total = t.wins + t.losses in
    record {
      window = window;
      trades = total;
      win_rate = if ltb 0 total then whole t.wins ⊘ whole total else nought;
      profit_factor = if nought <? loss_sum cs then some (profits cs ⊘ loss_sum cs) else none;
      gross_pnl = t.gross_pnl;
      fees = t.fees;
      net_pnl = t.gross_pnl ⊖ t.fees;
      best_trade = t.best;
      worst_trade = t.worst;
      per_strategy = t.per_strategy;
    }

-- The cutoff; an unknown window is as "all".
unfoldable pub in_window : Decimal → String → Event → Bool
unfolding get
in_window now window e = elim (get window rolling_windows_seconds) [
  | none ↦ true
  | some none ↦ true
  | some (some seconds) ↦ now ⊖ whole seconds ≤? e.ts_unix
]

-- The payloads of the fills of the window.
unfoldable pub fills_of : Decimal → String → List Event → List Payload
unfolding in_window
fills_of now window events =
    map (λ (e : Event). e.payload)
      (keep (λ e. same e.event_type "fill" && in_window now window e) events)

-- `Queries.stats`, where none is the exception of a conversion.
unfoldable pub stats : Decimal → String → List Event → Option Stats
unfolding fills_of read_closes summary
stats now window events =
    read_closes (fills_of now window events) >>= λ closes. some (summary window closes)
