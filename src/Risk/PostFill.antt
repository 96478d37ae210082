-- ===== src/Risk/PostFill.antt =====
-- src/risk/manager.py: the helpers of `check_order`, and what it computes of the account after a fill.
pub mod Book
pub mod Reduce
use hta.Common.{
  ℕ, String, Bool, true, false, not, ◌&&◌, ◌||◌, Option, none, some, List, [], ◌∷◌, same,
  if◌then◌else◌, length, keep, any,
}
use hta.Decimal.{Decimal, whole, nought, opposite, ◌⊕◌, ◌⊖◌, ◌⊗◌, ◌⊘◌, ◌<?◌, ◌≤?◌, ◌=?◌, magnitude}
use hta.Formatted.{lit, dec}
use hta.Risk.Types.{Side, buy, sell, Decision, approved, rejected, OrderIntent, Position, RiskCaps}

abbrev pub is_buy : Side → Bool
is_buy buy = true
is_buy sell = false

unfoldable pub signed_size_delta : OrderIntent → Decimal
signed_size_delta i = if is_buy i.side then i.size else opposite i.size

unfoldable pub position_for : List Position → String → Option Position
position_for [] symbol = none
position_for (p ∷ ps) symbol = if same p.symbol symbol then some p else position_for ps symbol

-- What a reduce-only order leaves of `current`, where `next` is what a full fill would leave.
unfoldable pub reduced_size : Decimal → Decimal → Decimal
reduced_size current next =
    if current =? nought
    then nought
    else if (nought <? current && next <? nought) || (current <? nought && nought <? next)
    then nought
    else if magnitude current <? magnitude next
    then current
    else next

unfoldable pub post_fill_size : OrderIntent → Decimal → Decimal
unfolding signed_size_delta reduced_size
post_fill_size i current =
    let next = current ⊕ signed_size_delta i in
    if not i.reduce_only then next else reduced_size current next

-- Python's `sum` adds from the left.
unfoldable pub add_notionals : Decimal → List Position → Decimal
add_notionals total [] = total
add_notionals total (p ∷ ps) = add_notionals (total ⊕ magnitude p.size ⊗ p.mark_price) ps

unfoldable pub account_notional : List Position → Decimal
unfolding add_notionals
account_notional ps = add_notionals nought ps

unfoldable pub count_within_last_minute : List Decimal → Decimal → ℕ
count_within_last_minute timestamps now =
    let cutoff = now ⊖ whole 60 in length (keep (λ t. cutoff ≤? t) timestamps)

abbrev pub current_size_of : Option Position → Decimal
current_size_of none = nought
current_size_of (some p) = p.size

-- `set.add`
unfoldable pub add_symbol : String → List String → List String
add_symbol s seen = if any (same s) seen then seen else s ∷ seen

-- The loop that collects `post_fill_symbols`.
unfoldable pub collect_symbols : String → Decimal → List String → List Position → List String
unfolding add_symbol
collect_symbols symbol new_size seen [] = seen
collect_symbols symbol new_size seen (p ∷ ps) =
    collect_symbols symbol new_size
      (if same p.symbol symbol
        then (if new_size =? nought then seen else add_symbol p.symbol seen)
        else if p.size =? nought
        then seen
        else add_symbol p.symbol seen)
      ps

-- The loop that sums `post_fill_notional`.
unfoldable pub sum_notionals : String → Decimal → Decimal → Decimal → List Position → Decimal
sum_notionals symbol new_size price total [] = total
sum_notionals symbol new_size price total (p ∷ ps) =
    sum_notionals symbol new_size price
      (if same p.symbol symbol
        then total ⊕ magnitude new_size ⊗ price
        else total ⊕ magnitude p.size ⊗ p.mark_price)
      ps

abbrev is_none : {A : Type 0} → Option A → Bool
is_none none = true
is_none (some _) = false

unfoldable pub post_fill_symbols : OrderIntent → List Position → Decimal → List String
unfolding collect_symbols position_for
post_fill_symbols i ps new_size =
    let seen = collect_symbols i.symbol new_size [] ps in
    if is_none (position_for ps i.symbol) && not (new_size =? nought)
    then add_symbol i.symbol seen
    else seen

unfoldable pub post_fill_notional : OrderIntent → List Position → Decimal → Decimal
unfolding sum_notionals position_for
post_fill_notional i ps new_size =
    let total = sum_notionals i.symbol new_size i.price nought ps in
    if is_none (position_for ps i.symbol) then total ⊕ magnitude new_size ⊗ i.price else total

-- The share of the mark price that parts it from the liquidation price.
abbrev pub buffer : Decimal → Decimal → Decimal
buffer mark liq = magnitude (mark ⊖ liq) ⊘ mark

unfoldable pub check_buffers : RiskCaps → List Position → Decision
check_buffers caps [] = approved
check_buffers caps (p ∷ ps) =
    let rest = check_buffers caps ps in
    elim p.liq_price [
      | none ↦ rest
      | some liq ↦
          if p.size =? nought || p.mark_price =? nought
          then rest
          else if buffer p.mark_price liq <? caps.liquidation_buffer_pct
          then rejected "liquidation_buffer" (
              lit p.symbol
              ∷ lit " liq buffer "
              ∷ dec (buffer p.mark_price liq)
              ∷ lit " < cap "
              ∷ dec caps.liquidation_buffer_pct
              ∷ lit "."
              ∷ [])
          else rest
    ]
