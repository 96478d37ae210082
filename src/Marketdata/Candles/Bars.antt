-- ===== src/Marketdata/Candles/Bars.antt =====
-- src/marketdata/candle_store.py: what every message of trades keeps of the bars.
use hta.Common.{
  ℕ, zero, suc, ◌*◌, ◌/◌, ◌<◌, ◌≤◌, String, ◌≡◌, refl, Option, some, List, [], ◌∷◌, All, length,
  arith, ltb, ltb_iff, ◌==◌, Bool-cases, Option-cases, inl, inr, same, subst,
}
use hta.Decimal.{greater, lesser}
use hta.Decimal.Order.{
  ◌≼◌, ≼_refl, ≼_trans, lesser-≼_left, lesser-≼_right, ≼-greater_left, ≼-greater_right,
}
use hta.Dict.{Dict, All-put, get, string_key}
use hta.Marketdata.Candles.{
  Bar, CandleStore, Trade, bar_ms, bars_of, take, new_bar, merge, add_trade, on_trade,
  on_trades_message,
}

-- A bar opens on the grid, and its prices are ordered.
pub record IsBar (width : ℕ) (b : Bar) : Type 0 where
  pub on_grid : (k : ℕ) × (b.open_time_ms ≡ k * width)
  pub low_open : b.low ≼ b.open_price
  pub open_high : b.open_price ≼ b.high
  pub low_close : b.low ≼ b.close
  pub close_high : b.close ≼ b.high

-- Each bar opens later than all the bars after it in the list.
abbrev pub IsDescending : List Bar → Type 0
IsDescending [] = Unit
IsDescending (b ∷ bs) = All (λ o. o.open_time_ms < b.open_time_ms) bs × IsDescending bs

pub record IsSeries (history width : ℕ) (bars : List Bar) : Type 0 where
  pub bounded : length bars ≤ history
  pub descending : IsDescending bars
  pub formed : All (IsBar width) bars

-- Every coin's bars are a series.
abbrev pub IsStore : CandleStore → Type 0
IsStore s = All (λ e. IsSeries s.history (bar_ms s) e.1) s.bars

length-take {ℓ} : {A : Type ℓ} (n : ℕ) (xs : List A) → length (take n xs) ≤ n
unfolding take
length-take zero xs = omega arith
length-take (suc n) [] = omega arith
length-take (suc n) (x ∷ xs) = omega (arith, length-take n xs)

All-take {ℓ κ} : {A : Type ℓ} (P : A → Type κ) (n : ℕ) (xs : List A) → All P xs → All P (take n xs)
unfolding take
All-take P zero xs h = tt
All-take P (suc n) [] h = tt
All-take P (suc n) (x ∷ xs) h = (h.0, All-take P n xs h.1)

take-IsDescending : (n : ℕ) (bs : List Bar) → IsDescending bs → IsDescending (take n bs)
unfolding take
take-IsDescending zero bs h = tt
take-IsDescending (suc n) [] h = tt
take-IsDescending (suc n) (b ∷ bs) h =
    (All-take (λ o. o.open_time_ms < b.open_time_ms) n bs h.0, take-IsDescending n bs h.1)

take-IsSeries :
    (history width : ℕ) (bs : List Bar)
    → IsDescending bs
    → All (IsBar width) bs
    → IsSeries history width (take history bs)
take-IsSeries history width bs hd hf = record {
  bounded = length-take history bs;
  descending = take-IsDescending history bs hd;
  formed = All-take (IsBar width) history bs hf;
}

new_bar-IsBar : (width time : ℕ) (t : Trade) → IsBar width (new_bar (time / width * width) t)
new_bar-IsBar width time t = record {
  on_grid = (time / width, refl);
  low_open = ≼_refl t.px;
  open_high = ≼_refl t.px;
  low_close = ≼_refl t.px;
  close_high = ≼_refl t.px;
}

merge-IsBar : (width : ℕ) (b : Bar) (t : Trade) → IsBar width b → IsBar width (merge b t)
merge-IsBar width b t h = record {
  on_grid = h.on_grid;
  low_open = ≼_trans (lesser b.low t.px) b.low b.open_price (lesser-≼_left b.low t.px) h.low_open;
  open_high =
      ≼_trans b.open_price b.high (greater b.high t.px) h.open_high (≼-greater_left b.high t.px);
  low_close = lesser-≼_right b.low t.px;
  close_high = ≼-greater_right b.high t.px;
}

-- Bars below one bar are below every later time.
bars_below_trans :
    (a b : ℕ) (bs : List Bar)
    → a < b
    → All (λ o. o.open_time_ms < a) bs
    → All (λ o. o.open_time_ms < b) bs
bars_below_trans a b [] h hs = tt
bars_below_trans a b (o ∷ bs) h hs = (omega (arith, hs.0), bars_below_trans a b bs h hs.1)

add_trade-IsSeries :
    (history width time : ℕ) (t : Trade) (bs : List Bar)
    → IsSeries history width bs
    → IsSeries history width (add_trade history (time / width * width) t bs)
unfolding add_trade
add_trade-IsSeries history width time t [] h =
    take-IsSeries history width (new_bar (time / width * width) t ∷ []) (tt, tt)
      (new_bar-IsBar width time t, tt)
add_trade-IsSeries history width time t (b ∷ bs) h =
    let bar_open = time / width * width in
    elim (Bool-cases (ltb b.open_time_ms bar_open)) [
      | inl e ↦ rw e (
          let later = (ltb_iff b.open_time_ms bar_open).0 e in
          take-IsSeries history width (new_bar bar_open t ∷ b ∷ bs)
            (
              ((later, bars_below_trans b.open_time_ms bar_open bs later h.descending.0)),
              h.descending,
            )
            (new_bar-IsBar width time t, h.formed))
      | inr e ↦ rw e (elim (Bool-cases (b.open_time_ms == bar_open)) [
        | inl e' ↦ rw e' (record {
          bounded = h.bounded;
          descending = h.descending;
          formed = (merge-IsBar width b t h.formed.0, h.formed.1);
        })
        | inr e' ↦ rw e' h
      ])
    ]

get-All :
    (P : String × List Bar → Type 0) (k : String) (d : Dict String (List Bar)) (v : List Bar)
    → get k d ≡ some v
    → All P d
    → (j : String) × P (j, v)
unfolding get
get-All P k [] v e h = cc
get-All P k ((j, w) ∷ d) v e h = elim (Bool-cases (same j k)) [
  | inl b ↦ (j, subst (λ u. P (j, u)) (let found : some w ≡ some v = rw b at e in cc) h.0)
  | inr b ↦ get-All P k d v (rw b at e) h.1
]

bars_of-IsSeries :
    (history width : ℕ) (coin : String) (s : CandleStore)
    → All (λ e. IsSeries history width e.1) s.bars
    → IsSeries history width (bars_of s coin)
unfolding bars_of
bars_of-IsSeries history width coin s h = elim (Option-cases (get coin s.bars)) [
  | inl e ↦ rw (e, bars_of) (record { bounded = omega arith; descending = tt; formed = tt })
  | inr (bars, e) ↦
      rw (e, bars_of) (get-All (λ e. IsSeries history width e.1) coin s.bars bars e h).1
]

on_trade-IsStore : (t : Trade) (s : CandleStore) → IsStore s → IsStore (on_trade t s)
unfolding on_trade
on_trade-IsStore t s h =
    All-put (λ e. IsSeries s.history (bar_ms s) e.1) t.coin _ s.bars
      (add_trade-IsSeries s.history (bar_ms s) t.time_ms t (bars_of s t.coin)
        (bars_of-IsSeries s.history (bar_ms s) t.coin s h))
      h

-- Every message of trades, whole or cut short by an error, and whatever the order of its trades, keeps
-- the bars of every coin: at most `history` of them, opening at ever later points of the grid of
-- `bar_seconds`, each with its open and close between its low and its high.
pub on_trades_message-IsStore :
    {Raw : Type 0} (read : Raw → Option Trade) (xs : List Raw) (s : CandleStore)
    → IsStore s
    → IsStore (on_trades_message read xs s).0
unfolding on_trades_message
on_trades_message-IsStore read [] s h = h
on_trades_message-IsStore read (x ∷ xs) s h = elim (Option-cases (read x)) [
  | inl e ↦ rw (e, on_trades_message) h
  | inr (t, e) ↦
      rw (e, on_trades_message)
        (on_trades_message-IsStore read xs (on_trade t s) (on_trade-IsStore t s h))
]
