-- ===== src/Dashboard/Equity/Buckets.antt =====
-- src/dashboard_api/queries.py: the loop of `equity_series` takes the latest row of each bucket.
use hta.Common.{
  ℕ, zero, suc, ◌≤◌, ◌<◌, ◌≡◌, sym, ap, ◌∙◌, Bool, true, false, List, [], ◌∷◌, any, length, All,
  All-weaken, All-zip, arith, ◌==◌, ==_iff, Bool-cases, inl, inr,
}
use hta.Decimal.{Decimal}
use hta.Decimal.Order.{◌≼◌, ≼_refl}
use hta.Storage.Journal.{Event}
use hta.Dashboard.Equity.{EquityPoint, bucket_of, point, first_of_buckets}
use hta.Dashboard.Equity.Rows.{IsLatestFirst, bucket_of_mono}

-- The bucket of a row and of a point.
abbrev pub row_bucket : ℕ → Event → ℕ
row_bucket n r = bucket_of n r.ts_unix

abbrev pub point_bucket : ℕ → EquityPoint → ℕ
point_bucket n p = bucket_of n p.ts

abbrev pub is_in : ℕ → List ℕ → Bool
is_in b seen = any (◌==◌ b) seen

pub length-first_of_buckets :
    (n left : ℕ) (seen : List ℕ) (rows : List Event)
    → length (first_of_buckets n left seen rows) ≤ left
unfolding first_of_buckets
length-first_of_buckets n zero seen rows = omega arith
length-first_of_buckets n (suc left) seen [] = omega arith
length-first_of_buckets n (suc left) seen (r ∷ rows) =
    elim (Bool-cases (is_in (row_bucket n r) seen)) [
      | inl e ↦ rw (e, first_of_buckets) (length-first_of_buckets n (suc left) seen rows)
      | inr e ↦
          rw (e, first_of_buckets)
            (omega (arith, length-first_of_buckets n left (row_bucket n r ∷ seen) rows))
    ]

-- What holds of every row's time holds of every point's.
pub All-first_of_buckets :
    (P : Decimal → Type 0) (n left : ℕ) (seen : List ℕ) (rows : List Event)
    → All (λ r. P r.ts_unix) rows
    → All (λ p. P p.ts) (first_of_buckets n left seen rows)
unfolding first_of_buckets point
All-first_of_buckets P n zero seen rows h = tt
All-first_of_buckets P n (suc left) seen [] h = tt
All-first_of_buckets P n (suc left) seen (r ∷ rows) h =
    elim (Bool-cases (is_in (row_bucket n r) seen)) [
      | inl e ↦ rw (e, first_of_buckets) (All-first_of_buckets P n (suc left) seen rows h.1)
      | inr e ↦
          rw (e, first_of_buckets)
            (h.0, All-first_of_buckets P n left (row_bucket n r ∷ seen) rows h.1)
    ]

-- A bucket that is seen gives no point.
pub first_of_buckets_unseen :
    (n left : ℕ) (seen : List ℕ) (rows : List Event)
    → All (λ p. is_in (point_bucket n p) seen ≡ false) (first_of_buckets n left seen rows)
unfolding first_of_buckets point
first_of_buckets_unseen n zero seen rows = tt
first_of_buckets_unseen n (suc left) seen [] = tt
first_of_buckets_unseen n (suc left) seen (r ∷ rows) =
    elim (Bool-cases (is_in (row_bucket n r) seen)) [
      | inl e ↦ rw (e, first_of_buckets) (first_of_buckets_unseen n (suc left) seen rows)
      | inr e ↦
          rw (e, first_of_buckets)
            (
              e,
              All-weaken (λ p. is_in (point_bucket n p) (row_bucket n r ∷ seen) ≡ false)
                  (λ p. is_in (point_bucket n p) seen ≡ false)
                  (first_of_buckets n left (row_bucket n r ∷ seen) rows) (λ p h. ground (arith, h))
                  (first_of_buckets_unseen n left (row_bucket n r ∷ seen) rows),
            )
    ]

-- Each point of a list is in a later bucket than those after it.
abbrev pub IsDescending : ℕ → List EquityPoint → Type 0
IsDescending n [] = Unit
IsDescending n (p ∷ ps) = All (λ q. point_bucket n q < point_bucket n p) ps × IsDescending n ps

pub below :
    (n b : ℕ) (seen : List ℕ) (p : EquityPoint)
    → point_bucket n p ≤ b
    → is_in (point_bucket n p) (b ∷ seen) ≡ false
    → point_bucket n p < b
below n b seen p h k = ground (arith, h, k, ==_iff (point_bucket n p) b)

pub first_of_buckets-IsDescending :
    (n left : ℕ) (seen : List ℕ) (rows : List Event)
    → 0 < n
    → IsLatestFirst rows
    → IsDescending n (first_of_buckets n left seen rows)
unfolding first_of_buckets point
first_of_buckets-IsDescending n zero seen rows hn h = tt
first_of_buckets-IsDescending n (suc left) seen [] hn h = tt
first_of_buckets-IsDescending n (suc left) seen (r ∷ rows) hn h =
    elim (Bool-cases (is_in (row_bucket n r) seen)) [
      | inl e ↦
          rw (e, first_of_buckets) (first_of_buckets-IsDescending n (suc left) seen rows hn h.1)
      | inr e ↦
          rw (e, first_of_buckets)
            (
              All-zip (λ p. point_bucket n p ≤ row_bucket n r)
                  (λ p. is_in (point_bucket n p) (row_bucket n r ∷ seen) ≡ false)
                  (λ p. point_bucket n p < row_bucket n r)
                  (first_of_buckets n left (row_bucket n r ∷ seen) rows)
                  (below n (row_bucket n r) seen)
                  (All-first_of_buckets (λ t. bucket_of n t ≤ row_bucket n r) n left _ rows
                    (All-weaken (λ d. d.ts_unix ≼ r.ts_unix) (λ d. row_bucket n d ≤ row_bucket n r)
                      rows (λ d. bucket_of_mono n d.ts_unix r.ts_unix hn) h.0))
                  (first_of_buckets_unseen n left (row_bucket n r ∷ seen) rows),
              first_of_buckets-IsDescending n left (row_bucket n r ∷ seen) rows hn h.1,
            )
    ]

-- No row in the bucket of the point is later than the point.
abbrev pub IsLatest : ℕ → List Event → EquityPoint → Type 0
IsLatest n rows p = All (λ r. row_bucket n r ≡ point_bucket n p → r.ts_unix ≼ p.ts) rows

-- A row in a bucket that is seen cannot share the bucket of a point.
pub clash :
    (b c : ℕ) (seen : List ℕ) (a d : Decimal)
    → is_in b seen ≡ true
    → is_in c seen ≡ false
    → b ≡ c
    → a ≼ d
clash b c seen a d h k e = absurd (ground (arith, sym h ∙ ap (λ i. is_in i seen) e ∙ k))

pub seen_first : (b : ℕ) (seen : List ℕ) → is_in b (b ∷ seen) ≡ true
seen_first b seen = ground (arith, ==_iff b b)

pub first_of_buckets-IsLatest :
    (n left : ℕ) (seen : List ℕ) (rows : List Event)
    → IsLatestFirst rows
    → All (IsLatest n rows) (first_of_buckets n left seen rows)
unfolding first_of_buckets point
first_of_buckets-IsLatest n zero seen rows h = tt
first_of_buckets-IsLatest n (suc left) seen [] h = tt
first_of_buckets-IsLatest n (suc left) seen (r ∷ rows) h =
    elim (Bool-cases (is_in (row_bucket n r) seen)) [
      | inl e ↦
          rw (e, first_of_buckets)
            (All-zip (λ p. is_in (point_bucket n p) seen ≡ false) (IsLatest n rows)
              (IsLatest n (r ∷ rows)) (first_of_buckets n (suc left) seen rows)
              (λ p u l. (clash (row_bucket n r) (point_bucket n p) seen r.ts_unix p.ts e u, l))
              (first_of_buckets_unseen n (suc left) seen rows)
              (first_of_buckets-IsLatest n (suc left) seen rows h.1))
      | inr e ↦
          rw (e, first_of_buckets)
            (
              (
                λ _. ≼_refl r.ts_unix,
                All-weaken (λ d. d.ts_unix ≼ r.ts_unix)
                    (λ d. row_bucket n d ≡ row_bucket n r → d.ts_unix ≼ r.ts_unix) rows (λ d k _. k)
                    h.0,
              ),
              All-zip (λ p. is_in (point_bucket n p) (row_bucket n r ∷ seen) ≡ false)
                  (IsLatest n rows) (IsLatest n (r ∷ rows))
                  (first_of_buckets n left (row_bucket n r ∷ seen) rows)
                  (λ p u l. (
                    clash (row_bucket n r) (point_bucket n p) (row_bucket n r ∷ seen) r.ts_unix p.ts
                        (seen_first (row_bucket n r) seen) u,
                    l,
                  ))
                  (first_of_buckets_unseen n left (row_bucket n r ∷ seen) rows)
                  (first_of_buckets-IsLatest n left (row_bucket n r ∷ seen) rows h.1),
            )
    ]
