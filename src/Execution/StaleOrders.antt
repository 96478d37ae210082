-- ===== src/Execution/StaleOrders.antt =====
-- src/execution/order_router.py: `cancel_stale_orders`.
use hta.Common.{
  ℕ, ◌≡◌, refl, ◌∙◌, ap, subst, Bool, true, false, not, ◌&&◌, ◌||◌, Option, none, List, [], ◌∷◌,
  arith, any, Bool-cases, inl, inr, if◌then◌else◌, ◌==◌, ==_iff,
}
use hta.Decimal.{Decimal, ◌⊖◌, ◌≤?◌}
use hta.Dict.{Dict, get, pop, get-pop_self, get-pop_ne, number_key}
use hta.Risk.KillSwitch.{Answer, returns, raises}
use hta.Execution.RouterState.{
  SubmittedOrder, Market, Router, cancel_failed, order_cancelled_stale, logs,
}

abbrev pub age : Market → SubmittedOrder → Decimal
age m o = m.clock ⊖ o.submitted_at_monotonic

-- What follows the exchange's answer to a cancellation.
unfoldable pub settle : Market → ℕ → SubmittedOrder → Answer (Unit {0}) → Router → Router
unfolding pop
settle m oid o (raises exc) r = logs r (cancel_failed o.symbol oid exc)
settle m oid o (returns _) r = record (logs r (order_cancelled_stale o.symbol oid (age m o))) {
  submitted = pop oid r.submitted;
}

-- The loop over a copy of the items.
unfoldable pub cancel_each : Market → List (ℕ × SubmittedOrder) → Router → Router
unfolding settle
cancel_each m [] r = r
cancel_each m ((oid, o) ∷ items) r =
    cancel_each m items
      (if age m o ≤? m.stale_seconds then r else settle m oid o (m.cancels o.symbol oid) r)

unfoldable pub cancel_stale_orders : Market → Router → Router
unfolding cancel_each
cancel_stale_orders m r = cancel_each m r.submitted r

abbrev pub went_through : Answer (Unit {0}) → Bool
went_through (returns _) = true
went_through (raises _) = false

-- The order is older than `stale_seconds` and the exchange took its cancellation.
abbrev pub is_cancelled : Market → ℕ → ℕ × SubmittedOrder → Bool
is_cancelled m oid (j, o) =
    (j == oid) && not (age m o ≤? m.stale_seconds) && went_through (m.cancels o.symbol j)

get-pop :
    (oid j : ℕ) (d : Dict ℕ SubmittedOrder)
    → get oid (pop j d) ≡ (if j == oid then none else get oid d)
get-pop oid j d = elim (Bool-cases (j == oid)) [
  | inl e ↦ rw e (subst (λ k. get k (pop j d) ≡ none) ((==_iff j oid).0 e) (get-pop_self j d))
  | inr e ↦ rw e (get-pop_ne j oid d e)
]

get-settle :
    (m : Market) (oid j : ℕ) (o : SubmittedOrder) (a : Answer (Unit {0})) (r : Router)
    → get oid (settle m j o a r).submitted
      ≡ (if (j == oid) && true && went_through a then none else get oid r.submitted)
unfolding settle
get-settle m oid j o (raises exc) r = ground arith
get-settle m oid j o (returns u) r = get-pop oid j r.submitted ∙ ground arith

get-step :
    (m : Market) (oid j : ℕ) (o : SubmittedOrder) (r : Router)
    → get oid
        (if age m o ≤? m.stale_seconds then r else settle m j o (m.cancels o.symbol j) r).submitted
      ≡ (if is_cancelled m oid (j, o) then none else get oid r.submitted)
get-step m oid j o r = elim (Bool-cases (age m o ≤? m.stale_seconds)) [
  | inl e ↦ rw e (ground arith)
  | inr e ↦ rw e (get-settle m oid j o (m.cancels o.symbol j) r)
]

regroup :
    (a b : Bool) (g : Option SubmittedOrder)
    → (if b then none else if a then none else g) ≡ (if a || b then none else g)
regroup a b g = ground arith

get-cancel_each :
    (m : Market) (oid : ℕ) (items : List (ℕ × SubmittedOrder)) (r : Router)
    → get oid (cancel_each m items r).submitted
      ≡ (if any (is_cancelled m oid) items then none else get oid r.submitted)
unfolding cancel_each
get-cancel_each m oid [] r = refl
get-cancel_each m oid ((j, o) ∷ items) r =
    get-cancel_each m oid items _
    ∙ ap (λ g. if any (is_cancelled m oid) items then none else g) (get-step m oid j o r)
    ∙ regroup (is_cancelled m oid (j, o)) (any (is_cancelled m oid) items) (get oid r.submitted)

-- A pass over the submitted orders forgets exactly those that are older than `stale_seconds` and whose
-- cancellation the exchange took; it keeps the young ones, and those whose cancellation raised.
pub get-cancel_stale_orders :
    (m : Market) (oid : ℕ) (r : Router)
    → get oid (cancel_stale_orders m r).submitted
      ≡ (if any (is_cancelled m oid) r.submitted then none else get oid r.submitted)
unfolding cancel_stale_orders
get-cancel_stale_orders m oid r = get-cancel_each m oid r.submitted r
