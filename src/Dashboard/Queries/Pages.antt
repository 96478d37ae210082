-- ===== src/Dashboard/Queries/Pages.antt =====
-- src/dashboard_api/queries.py: limits and pages of the list queries.
use native.Mathlib.Numerals.{unary_clauses}
use hta.Common.{
  ℕ, zero, suc, ◌+◌, ◌≤◌, ◌≡◌, String, refl, sym, ap, ap₂, ◌∙◌, Bool, Option, some, List, [], ◌∷◌,
  ◌++◌, map, length, arith,
}
use hta.Decimal.{Decimal}
use hta.Storage.Payloads.{Payload}
use hta.Storage.Journal.{Event, Journal}
use hta.Dashboard.Tables.{ℤ, pos, cap, max_rows, take, drop, latest_first, states_of}
use hta.Dashboard.Equity.{equity_series}
use hta.Dashboard.Equity.Rows.{cap-le}
use hta.Dashboard.Equity.Series.{equity_series-IsSeries}
use hta.Dashboard.Queries.{matching, trade_row, trades, signals, risk_events, positions}

length-map : {A B : Type 0} (f : A → B) (xs : List A) → length (map f xs) ≡ length xs
length-map f [] = refl
length-map f (x ∷ xs) = ap (λ n. suc n) (length-map f xs)

length-take : {A : Type 0} (n : ℕ) (xs : List A) → length (take n xs) ≤ n
unfolding take
length-take zero xs = omega arith
length-take (suc n) [] = omega arith
length-take (suc n) (x ∷ xs) = omega (arith, length-take n xs)

map-append : {A B : Type 0} (f : A → B) (xs ys : List A) → map f (xs ++ ys) ≡ map f xs ++ map f ys
map-append f [] ys = refl
map-append f (x ∷ xs) ys = ap (λ zs. f x ∷ zs) (map-append f xs ys)

-- A longer prefix is a shorter one and the start of the rest.
take_add : {A : Type 0} (n m : ℕ) (xs : List A) → take (n + m) xs ≡ take n xs ++ take m (drop n xs)
unfolding take drop
take_add zero m xs = ap (λ k. take k xs) (omega arith)
take_add (suc n) zero [] = simp unary_clauses refl
take_add (suc n) (suc m) [] = simp unary_clauses refl
take_add (suc n) m (x ∷ xs) =
    let e : suc n + m ≡ suc (n + m) = omega arith in rw e (ap (λ zs. x ∷ zs) (take_add n m xs))

drop_add : {A : Type 0} (k n : ℕ) (xs : List A) → drop n (drop k xs) ≡ drop (k + n) xs
unfolding drop
drop_add zero n xs = ap (λ k. drop k xs) (omega arith)
drop_add (suc k) zero [] = simp unary_clauses refl
drop_add (suc k) (suc n) [] = simp unary_clauses refl
drop_add (suc k) n (x ∷ xs) =
    let e : suc k + n ≡ suc (k + n) = omega arith in rw e (drop_add k n xs)

cap_within : (n : ℕ) → 1 ≤ n → n ≤ max_rows → cap (some (pos n)) ≡ n
unfolding cap
cap_within n h k = ground arith

-- Two pages of trades one after the other are the page of both lengths, as long as that is within the cap.
pub trades-append :
    (like : String → String → Payload → Bool) (strategy symbol : Option String) (n m offset : ℕ)
    (events : List Event)
    → 1 ≤ n
    → 1 ≤ m
    → n + m ≤ max_rows
    → trades like strategy symbol (some (pos n)) offset events
        ++ trades like strategy symbol (some (pos m)) (offset + n) events
      ≡ trades like strategy symbol (some (pos (n + m))) offset events
unfolding trades
trades-append like strategy symbol n m offset events hn hm h =
    let rows = latest_first (matching like ("fill" ∷ []) strategy symbol events) in
    let rest = drop offset rows in
    rw
      (
        cap_within n hn (omega arith),
        cap_within m hm (omega arith),
        cap_within (n + m) (omega arith) h,
      )
      (ap₂ (λ (p : List Payload) (q : List Event). p ++ map trade_row (take m q)) refl
          (sym (drop_add offset n rows))
        ∙ sym (map-append trade_row (take n rest) (take m (drop n rest)))
        ∙ ap (map trade_row) (sym (take_add n m rest)))

page_length :
    (f : Event → Payload) (limit : Option ℤ) (rows : List Event)
    → length (map f (take (cap limit) rows)) ≤ max_rows
page_length f limit rows =
    omega (arith, length-map f (take (cap limit) rows), length-take (cap limit) rows, cap-le limit)

-- Whatever limit a caller gives, no list of trades, signals, risk events, positions or equity points has more
-- than 1000 rows.
pub queries-le :
    (like : String → String → Payload → Bool) (strategy symbol : Option String) (limit : Option ℤ)
    (offset : ℕ) (granularity : String) (since : Option Decimal) (journal : Journal)
    → (length (trades like strategy symbol limit offset journal.events) ≤ max_rows)
      × (length (signals like strategy symbol limit journal.events) ≤ max_rows)
      × (length (risk_events limit journal.events) ≤ max_rows)
      × (length (positions journal) ≤ max_rows)
      × (length (equity_series granularity since limit journal.events) ≤ max_rows)
unfolding trades signals risk_events positions
queries-le like strategy symbol limit offset granularity since journal = (
  page_length _ limit _,
  page_length _ limit _,
  page_length _ limit _,
  omega (
    arith,
    length-map _ (take max_rows (states_of "position" journal.state)),
    length-take max_rows (states_of "position" journal.state),
  ),
  omega (arith, (equity_series-IsSeries granularity since limit journal.events).0, cap-le limit),
)
