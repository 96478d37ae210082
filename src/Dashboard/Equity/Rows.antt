-- ===== src/Dashboard/Equity/Rows.antt =====
-- src/dashboard_api/queries.py: the rows of a query in order, and the grid of buckets.
use native.Mathlib.Nat.{
  mul-sub, le-div_iff_mul-le, div-mul-le_self, le_of_mul-le-mul_right, mul-le-mul_right,
}
use hta.Common.{
  ℕ, zero, suc, ◌+◌, ◌-◌, ◌*◌, ◌/◌, ◌≤◌, ◌<◌, Option, none, some, List, [], ◌∷◌, All, All-weaken,
  arith, Bool-cases, inl, inr,
}
use hta.Decimal.{Decimal, ◌<?◌}
use hta.Decimal.Order.{◌≼◌, ≼_cross, ≼_trans, ≼_of_≺}
use hta.Storage.Journal.{Event}
use hta.Dashboard.Tables.{ℤ, pos, negsuc, cap, max_rows, take, insert_event, latest_first}
use hta.Dashboard.Equity.{bucket_of, equity_ticks, equity_rows}

pub cap-le : (limit : Option ℤ) → (1 ≤ cap limit) × (cap limit ≤ max_rows)
unfolding cap
cap-le none = (omega arith, omega arith)
cap-le (some (pos n)) = ground arith
cap-le (some (negsuc n)) = (omega arith, omega arith)

-- The rows from the latest to the earliest.
abbrev pub IsLatestFirst : List Event → Type 0
IsLatestFirst [] = Unit
IsLatestFirst (e ∷ es) = All (λ d. d.ts_unix ≼ e.ts_unix) es × IsLatestFirst es

pub All-insert_event :
    (P : Event → Type 0) (e : Event) (es : List Event) → P e → All P es → All P (insert_event e es)
unfolding insert_event
All-insert_event P e [] h hs = (h, tt)
All-insert_event P e (d ∷ ds) h hs = ground (arith, All-insert_event P e ds h hs.1, hs)

pub insert_event-IsLatestFirst :
    (e : Event) (es : List Event) → IsLatestFirst es → IsLatestFirst (insert_event e es)
unfolding insert_event
insert_event-IsLatestFirst e [] h = (tt, tt)
insert_event-IsLatestFirst e (d ∷ ds) h = elim (Bool-cases (e.ts_unix <? d.ts_unix)) [
  | inl b ↦ rw b (
    All-insert_event (λ c. c.ts_unix ≼ d.ts_unix) e ds (≼_of_≺ e.ts_unix d.ts_unix b) h.0,
    insert_event-IsLatestFirst e ds h.1,
  )
  | inr b ↦ rw b (
    (
      b,
      All-weaken (λ c. c.ts_unix ≼ d.ts_unix) (λ c. c.ts_unix ≼ e.ts_unix) ds
          (λ c k. ≼_trans c.ts_unix d.ts_unix e.ts_unix k b) h.0,
    ),
    h,
  )
]

pub latest_first-IsLatestFirst : (es : List Event) → IsLatestFirst (latest_first es)
unfolding latest_first
latest_first-IsLatestFirst [] = tt
latest_first-IsLatestFirst (e ∷ es) =
    insert_event-IsLatestFirst e (latest_first es) (latest_first-IsLatestFirst es)

pub All-take : {A : Type 0} (P : A → Type 0) (n : ℕ) (xs : List A) → All P xs → All P (take n xs)
unfolding take
All-take P zero xs hs = tt
All-take P (suc n) [] hs = tt
All-take P (suc n) (x ∷ xs) hs = (hs.0, All-take P n xs hs.1)

pub take-IsLatestFirst : (n : ℕ) (es : List Event) → IsLatestFirst es → IsLatestFirst (take n es)
unfolding take
take-IsLatestFirst zero es h = tt
take-IsLatestFirst (suc n) [] h = tt
take-IsLatestFirst (suc n) (e ∷ es) h =
    (All-take (λ d. d.ts_unix ≼ e.ts_unix) n es h.0, take-IsLatestFirst n es h.1)

pub equity_rows-IsLatestFirst :
    (bucket : ℕ) (since : Option Decimal) (limit : ℕ) (events : List Event)
    → IsLatestFirst (equity_rows bucket since limit events)
unfolding equity_rows
equity_rows-IsLatestFirst bucket since limit events =
    take-IsLatestFirst _ _ (latest_first-IsLatestFirst (equity_ticks since events))

pub scaled :
    (q x y k l c : ℕ)
    → q * (suc k * c) ≤ x
    → x * suc l ≤ y * suc k
    → q * (suc l * c) * suc k ≤ y * suc k
scaled q x y k l c h e = omega (arith, e, mul-le-mul_right (suc l) h)

pub quotient_mono :
    (x y k l c : ℕ) → 0 < c → x * suc l ≤ y * suc k → x / (suc k * c) ≤ y / (suc l * c)
quotient_mono x y k l c h e =
    let d : 0 < suc l * c = grind (arith, h) in
    (le-div_iff_mul-le d).1 (
      le_of_mul-le-mul_right (scaled (x / (suc k * c)) x y k l c (div-mul-le_self x (suc k * c)) e)
        (omega arith))

pub differences :
    (pa ma pb mb k l : ℕ)
    → pa * suc l + mb * suc k ≤ pb * suc k + ma * suc l
    → (pa - ma) * suc l ≤ (pb - mb) * suc k
differences pa ma pb mb k l h = omega (arith, h, mul-sub (suc l) pa ma, mul-sub (suc k) pb mb)

-- Later times fall into later buckets.
pub bucket_of_mono : (n : ℕ) (a b : Decimal) → 0 < n → a ≼ b → bucket_of n a ≤ bucket_of n b
unfolding bucket_of
bucket_of_mono n a b h e =
    quotient_mono (a.plus - a.minus) (b.plus - b.minus) a.less b.less n h
      (differences a.plus a.minus b.plus b.minus a.less b.less ((≼_cross a b).0 e))
