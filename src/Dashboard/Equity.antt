-- ===== src/Dashboard/Equity.antt =====
-- src/dashboard_api/queries.py: `Queries.equity_series`. A time is not before 1970.
pub mod Rows
pub mod Buckets
pub mod Series
use hta.Common.{
  ℕ, zero, suc, ◌-◌, ◌*◌, ◌/◌, String, Bool, true, false, ◌&&◌, Option, none, some, List, [], ◌∷◌,
  ◌++◌, any, keep, same, ltb, ◌==◌, if◌then◌else◌,
}
use hta.Decimal.{Decimal, ◌≤?◌}
use hta.Dict.{Dict, get, string_key}
use hta.Storage.Payloads.{Json, Payload}
use hta.Storage.Journal.{Event}
use hta.Dashboard.Tables.{ℤ, cap, take, latest_first}

abbrev pub equity_granularity_seconds : Dict String ℕ
equity_granularity_seconds = ("1m", 60) ∷ ("5m", 300) ∷ ("1h", 3600) ∷ []

pub record EquityPoint : Type 0 where
  pub ts : Decimal
  pub equity : Option Json
  pub realized : Option Json
  pub unrealized : Option Json

-- `EQUITY_GRANULARITY_SECONDS.get(granularity, 300)`
unfoldable pub bucket_seconds : String → ℕ
unfolding get
bucket_seconds granularity = elim (get granularity equity_granularity_seconds) [
  | none ↦ 300
  | some seconds ↦ seconds
]

-- `int(ts // bucket)`
unfoldable pub bucket_of : ℕ → Decimal → ℕ
bucket_of bucket ts = (ts.plus - ts.minus) / (suc ts.less * bucket)

unfoldable pub point : Event → EquityPoint
unfolding get
point e = record {
  ts = e.ts_unix;
  equity = get "equity" e.payload;
  realized = get "realized" e.payload;
  unrealized = get "unrealized" e.payload;
}

abbrev pub since_ok : Option Decimal → Event → Bool
since_ok none e = true
since_ok (some since) e = since ≤? e.ts_unix

-- `WHERE event_type='equity_tick' AND ts_unix >= ?`
abbrev pub equity_ticks : Option Decimal → List Event → List Event
equity_ticks since = keep (λ e. same e.event_type "equity_tick" && since_ok since e)

-- The rows that the query fetches.
unfoldable pub equity_rows : ℕ → Option Decimal → ℕ → List Event → List Event
unfolding take latest_first
equity_rows bucket since limit events =
    take (if ltb 60 bucket then limit * 4 else limit) (latest_first (equity_ticks since events))

-- The loop over the rows, with the points that it may still take.
unfoldable pub first_of_buckets : ℕ → ℕ → List ℕ → List Event → List EquityPoint
unfolding bucket_of point
first_of_buckets bucket zero seen rows = []
first_of_buckets bucket (suc left) seen [] = []
first_of_buckets bucket (suc left) seen (r ∷ rows) =
    elim (any (◌==◌ (bucket_of bucket r.ts_unix)) seen) [
      | true ↦ first_of_buckets bucket (suc left) seen rows
      | false ↦ point r ∷ first_of_buckets bucket left (bucket_of bucket r.ts_unix ∷ seen) rows
    ]

-- `out.reverse()`
unfoldable pub reverse {ℓ} : {A : Type ℓ} → List A → List A
reverse [] = []
reverse (x ∷ xs) = reverse xs ++ x ∷ []

unfoldable pub equity_series : String → Option Decimal → Option ℤ → List Event → List EquityPoint
unfolding bucket_seconds equity_rows first_of_buckets cap reverse
equity_series granularity since limit events =
    let bucket = bucket_seconds granularity in
    reverse (first_of_buckets bucket (cap limit) [] (equity_rows bucket since (cap limit) events))
