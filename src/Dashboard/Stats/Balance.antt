-- ===== src/Dashboard/Stats/Balance.antt =====
-- src/dashboard_api/queries.py: the sums of `stats` over the strategies are its totals.
use mathlib.Core.Option.{some_inj}
use hta.Common.{
  ℕ, suc, ◌+◌, ◌≤◌, String, ◌≡◌, refl, sym, ap, subst, ◌∙◌, true, false, Option, none, some, List,
  [], ◌∷◌, length, All, arith, Bool-cases, Option-cases, inl, inr, same,
}
use hta.Decimal.{Decimal, nought, ◌⊕◌, ◌⊖◌, lesser, greater}
use hta.Decimal.Order.{
  ◌≼◌, ≼_refl, ≼_trans, ≼-greater_left, ≼-greater_right, lesser-≼_left, lesser-≼_right,
}
use hta.Decimal.Sums.{⊕_assoc, ⊕-nought, ⊕_right_comm}
use hta.Dict.{Dict, get, put, values, string_key}
use hta.Storage.Journal.{Event}
use hta.Dashboard.Stats.{
  Bucket, Close, Tally, Stats, no_trades, empty_bucket, add_to_bucket, best_of, worst_of, add_close,
  tally, summary, read_closes, fills_of, stats,
}

-- The sum of a column over the buckets, and of their numbers of trades.
unfoldable pub total : (Bucket → Decimal) → List Bucket → Decimal
total f [] = nought
total f (b ∷ bs) = f b ⊕ total f bs

unfoldable pub total_trades : List Bucket → ℕ
total_trades [] = 0
total_trades (b ∷ bs) = b.trades + total_trades bs

abbrev bucket_at : String → Dict String Bucket → Bucket
bucket_at k d = elim (get k d) [ none ↦ empty_bucket | some b ↦ b ]

bucket_at_hit :
    (k j : String) (w : Bucket) (d : Dict String Bucket)
    → same j k ≡ true
    → bucket_at k ((j, w) ∷ d) ≡ w
unfolding get
bucket_at_hit k j w d s = ground (arith, s)

bucket_at_miss :
    (k j : String) (w : Bucket) (d : Dict String Bucket)
    → same j k ≡ false
    → bucket_at k ((j, w) ∷ d) ≡ bucket_at k d
unfolding get
bucket_at_miss k j w d s = ground (arith, s)

total-put :
    (f : Bucket → Decimal) (k : String) (b : Bucket) (x : Decimal) (d : Dict String Bucket)
    → f empty_bucket ≡ nought
    → f b ≡ f (bucket_at k d) ⊕ x
    → total f (values (put k b d)) ≡ total f (values d) ⊕ x
unfolding total get put
total-put f k b x [] h e = ⊕-nought (f b) ∙ e ∙ ap (λ y. y ⊕ x) h
total-put f k b x ((j, w) ∷ d) h e = elim (Bool-cases (same j k)) [
  | inl s ↦
      rw (s, put)
        (ap (λ y. y ⊕ total f (values d)) (e ∙ ap (λ y. f y ⊕ x) (bucket_at_hit k j w d s))
          ∙ ⊕_right_comm (f w) x (total f (values d)))
  | inr s ↦
      rw (s, put)
        (ap (λ y. f w ⊕ y)
            (total-put f k b x d h (e ∙ ap (λ y. f y ⊕ x) (bucket_at_miss k j w d s)))
          ∙ sym (⊕_assoc (f w) (total f (values d)) x))
]

total_trades-put :
    (k : String) (b : Bucket) (d : Dict String Bucket)
    → b.trades ≡ suc (bucket_at k d).trades
    → total_trades (values (put k b d)) ≡ suc (total_trades (values d))
unfolding total_trades get put
total_trades-put k b [] e = omega (arith, e)
total_trades-put k b ((j, w) ∷ d) e = elim (Bool-cases (same j k)) [
  | inl s ↦ rw (s, put) (omega (arith, e ∙ ap (λ y. suc y.trades) (bucket_at_hit k j w d s)))
  | inr s ↦
      rw (s, put)
        (omega
          (arith, total_trades-put k b d (e ∙ ap (λ y. suc y.trades) (bucket_at_miss k j w d s))))
]

total_nil : (f : Bucket → Decimal) → total f [] ≡ nought
unfolding total
total_nil f = refl

total_trades_nil : total_trades [] ≡ 0
unfolding total_trades
total_trades_nil = refl

-- After `n` closes.
record IsTallied (n : ℕ) (t : Tally) : Type 0 where
  pub pnl : total (λ b. b.pnl) (values t.per_strategy) ≡ t.gross_pnl
  pub fees : total (λ b. b.fees) (values t.per_strategy) ≡ t.fees
  pub trades : total_trades (values t.per_strategy) ≡ n
  pub decided : t.wins + t.losses ≤ n

add_close-IsTallied :
    (n : ℕ) (c : Close) (t : Tally) → IsTallied n t → IsTallied (suc n) (add_close c t)
unfolding add_close add_to_bucket
add_close-IsTallied n c t h = record {
  pnl =
      total-put (λ b. b.pnl) c.strategy _ c.pnl t.per_strategy refl refl
      ∙ ap (λ y. y ⊕ c.pnl) h.pnl;
  fees =
      total-put (λ b. b.fees) c.strategy _ c.fee t.per_strategy refl refl
      ∙ ap (λ y. y ⊕ c.fee) h.fees;
  trades = total_trades-put c.strategy _ t.per_strategy refl ∙ ap (λ y. suc y) h.trades;
  decided = ground (arith, h.decided);
}

tally-IsTallied :
    (n m : ℕ) (cs : List Close) (t : Tally)
    → n + length cs ≡ m
    → IsTallied n t
    → IsTallied m (tally cs t)
unfolding tally
tally-IsTallied n m [] t e h = subst (λ k. IsTallied k t) (omega (arith, e)) h
tally-IsTallied n m (c ∷ cs) t e h =
    tally-IsTallied (suc n) m cs (add_close c t) (omega (arith, e)) (add_close-IsTallied n c t h)

-- A number is at most the best of the trades so far, and at least the worst.
abbrev pub AtMost : Option Decimal → Decimal → Type 0
AtMost none x = true ≡ false
AtMost (some b) x = x ≼ b

abbrev pub AtLeast : Option Decimal → Decimal → Type 0
AtLeast none x = true ≡ false
AtLeast (some w) x = w ≼ x

abbrev pub IsBetween : Tally → Decimal → Type 0
IsBetween t x = AtMost t.best x × AtLeast t.worst x

best_of_keeps : (b : Option Decimal) (x y : Decimal) → AtMost b y → y ≼ best_of b x
best_of_keeps none x y h = absurd (ground (arith, h))
best_of_keeps (some b) x y h = ≼_trans y b (greater b x) h (≼-greater_left b x)

best_of_new : (b : Option Decimal) (x : Decimal) → x ≼ best_of b x
best_of_new none x = ≼_refl x
best_of_new (some b) x = ≼-greater_right b x

worst_of_keeps : (w : Option Decimal) (x y : Decimal) → AtLeast w y → worst_of w x ≼ y
worst_of_keeps none x y h = absurd (ground (arith, h))
worst_of_keeps (some w) x y h = ≼_trans (lesser w x) w y (lesser-≼_left w x) h

worst_of_new : (w : Option Decimal) (x : Decimal) → worst_of w x ≼ x
worst_of_new none x = ≼_refl x
worst_of_new (some w) x = lesser-≼_right w x

tally_keeps : (cs : List Close) (t : Tally) (y : Decimal) → IsBetween t y → IsBetween (tally cs t) y
unfolding tally add_close
tally_keeps [] t y h = h
tally_keeps (c ∷ cs) t y h =
    tally_keeps cs (add_close c t) y
      (best_of_keeps t.best c.pnl y h.0, worst_of_keeps t.worst c.pnl y h.1)

tally-IsBetween : (cs : List Close) (t : Tally) → All (λ c. IsBetween (tally cs t) c.pnl) cs
unfolding tally add_close
tally-IsBetween [] t = tt
tally-IsBetween (c ∷ cs) t = (
  tally_keeps cs (add_close c t) c.pnl (best_of_new t.best c.pnl, worst_of_new t.worst c.pnl),
  tally-IsBetween cs (add_close c t),
)

-- The answer is that of the closes: its totals are the sums over the strategies, whose trades are all the
-- closes and no fewer than those won or lost, and every close lies between the worst and the best trade.
pub record IsBalanced (cs : List Close) (s : Stats) : Type 0 where
  pub gross : total (λ b. b.pnl) (values s.per_strategy) ≡ s.gross_pnl
  pub fees : total (λ b. b.fees) (values s.per_strategy) ≡ s.fees
  pub net : s.net_pnl ≡ s.gross_pnl ⊖ s.fees
  pub counted : total_trades (values s.per_strategy) ≡ length cs
  pub decided : s.trades ≤ length cs
  pub between : All (λ c. AtMost s.best_trade c.pnl × AtLeast s.worst_trade c.pnl) cs

summary-IsBalanced : (window : String) (cs : List Close) → IsBalanced cs (summary window cs)
unfolding summary
summary-IsBalanced window cs =
    let h = tally-IsTallied 0 (length cs) cs no_trades (omega arith) (record {
      pnl = total_nil (λ b. b.pnl);
      fees = total_nil (λ b. b.fees);
      trades = total_trades_nil;
      decided = omega arith;
    }) in
    record {
      gross = h.pnl;
      fees = h.fees;
      net = refl;
      counted = h.trades;
      decided = h.decided;
      between = tally-IsBetween cs no_trades;
    }

-- If stats answers, every value of a closing fill converted, the gross and the fees are the sums over the
-- strategies, the net is their difference, the trades of the strategies are all the closing fills of the
-- window and no fewer than the trades counted, and every close lies between the worst and the best.
pub stats-IsBalanced :
    (now : Decimal) (window : String) (events : List Event) (s : Stats)
    → stats now window events ≡ some s
    → (cs : List Close) × (read_closes (fills_of now window events) ≡ some cs) × IsBalanced cs s
unfolding stats
stats-IsBalanced now window events s e =
    elim (Option-cases (read_closes (fills_of now window events))) [
      | inl r ↦ absurd (ground (arith, rw r at e))
      | inr (cs, r) ↦ (
        cs,
        r,
        subst (λ a. IsBalanced cs a) (some_inj.0 (rw r at e)) (summary-IsBalanced window cs),
      )
    ]
