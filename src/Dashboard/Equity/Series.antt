-- ===== src/Dashboard/Equity/Series.antt =====
-- src/dashboard_api/queries.py: what a series of equity points is.
use hta.Common.{
  ℕ, ◌≤◌, ◌<◌, ◌≡◌, refl, String, Option, List, [], ◌∷◌, ◌++◌, length, All, All-append,
  length-append, arith,
}
use hta.Decimal.{Decimal}
use hta.Dict.{get}
use hta.Storage.Journal.{Event}
use hta.Dashboard.Tables.{ℤ, cap}
use hta.Dashboard.Equity.{
  EquityPoint, bucket_seconds, equity_rows, first_of_buckets, reverse, equity_series,
}
use hta.Dashboard.Equity.Rows.{equity_rows-IsLatestFirst}
use hta.Dashboard.Equity.Buckets.{
  point_bucket, IsDescending, IsLatest, length-first_of_buckets, first_of_buckets-IsDescending,
  first_of_buckets-IsLatest,
}

-- Each point of a list is in an earlier bucket than those after it.
abbrev pub IsAscending : ℕ → List EquityPoint → Type 0
IsAscending n [] = Unit
IsAscending n (p ∷ ps) = All (λ q. point_bucket n p < point_bucket n q) ps × IsAscending n ps

IsAscending-last :
    (n : ℕ) (ps : List EquityPoint) (x : EquityPoint)
    → IsAscending n ps
    → All (λ q. point_bucket n q < point_bucket n x) ps
    → IsAscending n (ps ++ x ∷ [])
IsAscending-last n [] x h hs = (tt, tt)
IsAscending-last n (p ∷ ps) x h hs = (
  All-append (λ q. point_bucket n p < point_bucket n q) ps (x ∷ []) h.0 (hs.0, tt),
  IsAscending-last n ps x h.1 hs.1,
)

All-reverse : {A : Type 0} (P : A → Type 0) (xs : List A) → All P xs → All P (reverse xs)
unfolding reverse
All-reverse P [] hs = tt
All-reverse P (x ∷ xs) hs = All-append P (reverse xs) (x ∷ []) (All-reverse P xs hs.1) (hs.0, tt)

length-reverse : {A : Type 0} (xs : List A) → length (reverse xs) ≡ length xs
unfolding reverse
length-reverse [] = refl
length-reverse (x ∷ xs) = omega (arith, length-append (reverse xs) (x ∷ []), length-reverse xs)

reverse-IsAscending :
    (n : ℕ) (ps : List EquityPoint) → IsDescending n ps → IsAscending n (reverse ps)
unfolding reverse
reverse-IsAscending n [] h = tt
reverse-IsAscending n (p ∷ ps) h =
    IsAscending-last n (reverse ps) p (reverse-IsAscending n ps h.1)
      (All-reverse (λ q. point_bucket n q < point_bucket n p) ps h.0)

bucket_seconds_pos : (granularity : String) → 0 < bucket_seconds granularity
unfolding bucket_seconds get
bucket_seconds_pos granularity = ground arith

-- A series has at most as many points as the capped limit; their buckets strictly increase, so there is one
-- point to a bucket and they are in the order of time; and no fetched row of a point's bucket is later
-- than the point.
pub equity_series-IsSeries :
    (granularity : String) (since : Option Decimal) (limit : Option ℤ) (events : List Event)
    → (length (equity_series granularity since limit events) ≤ cap limit)
      × IsAscending (bucket_seconds granularity) (equity_series granularity since limit events)
      × All
          (IsLatest
            (bucket_seconds granularity)
            (equity_rows (bucket_seconds granularity) since (cap limit) events))
          (equity_series granularity since limit events)
unfolding equity_series
equity_series-IsSeries granularity since limit events =
    let n = bucket_seconds granularity in
    let rows = equity_rows n since (cap limit) events in
    let sorted = equity_rows-IsLatestFirst n since (cap limit) events in
    let points = first_of_buckets n (cap limit) [] rows in
    (
      omega (arith, length-reverse points, length-first_of_buckets n (cap limit) [] rows),
      reverse-IsAscending n points (
          first_of_buckets-IsDescending n (cap limit) [] rows (bucket_seconds_pos granularity)
            sorted),
      All-reverse (IsLatest n rows) points (first_of_buckets-IsLatest n (cap limit) [] rows sorted),
    )
