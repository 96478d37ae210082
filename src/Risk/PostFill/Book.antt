-- ===== src/Risk/PostFill/Book.antt =====
-- The account after a fill as a list of positions, which `check_order` computes with and never builds.
use hta.Common.{
  String, ◌≡◌, refl, Option, none, some, List, [], ◌∷◌, ◌++◌, arith, same, if◌then◌else◌,
  Bool-cases, Option-cases, inl, inr,
}
use hta.Decimal.{Decimal, nought, ◌=?◌}
use hta.Risk.Types.{OrderIntent, Position}
use hta.Risk.PostFill.{
  position_for, add_notionals, account_notional, add_symbol, collect_symbols, sum_notionals,
  post_fill_symbols, post_fill_notional,
}

-- Every position in the symbol takes the new size, valued at the order's price.
abbrev pub replace : OrderIntent → Decimal → List Position → List Position
replace i n [] = []
replace i n (p ∷ ps) =
    (if same p.symbol i.symbol then record p { size = n; mark_price = i.price } else p)
    ∷ replace i n ps

abbrev pub opened : OrderIntent → Decimal → Option Position → List Position
opened i n (some _) = []
opened i n none =
    record {
      symbol = i.symbol;
      size = n;
      mark_price = i.price;
      liq_price = none;
      strategy = some i.strategy;
    }
    ∷ []

-- The book once the order has left the symbol at the size n.
abbrev pub after_fill : OrderIntent → List Position → Decimal → List Position
after_fill i ps n = replace i n ps ++ opened i n (position_for ps i.symbol)

-- The distinct symbols of the positions that are not flat.
unfoldable pub open_symbols : List String → List Position → List String
open_symbols seen [] = seen
open_symbols seen (p ∷ ps) =
    open_symbols (if p.size =? nought then seen else add_symbol p.symbol seen) ps

add_notionals-append :
    (ps qs : List Position) (t : Decimal)
    → add_notionals t (ps ++ qs) ≡ add_notionals (add_notionals t ps) qs
unfolding add_notionals
add_notionals-append [] qs t = refl
add_notionals-append (p ∷ ps) qs t = add_notionals-append ps qs _

open_symbols-append :
    (ps qs : List Position) (seen : List String)
    → open_symbols seen (ps ++ qs) ≡ open_symbols (open_symbols seen ps) qs
unfolding open_symbols
open_symbols-append [] qs seen = refl
open_symbols-append (p ∷ ps) qs seen = open_symbols-append ps qs _

sum_notionals-replace :
    (i : OrderIntent) (n : Decimal) (ps : List Position) (t : Decimal)
    → sum_notionals i.symbol n i.price t ps ≡ add_notionals t (replace i n ps)
unfolding sum_notionals add_notionals
sum_notionals-replace i n [] t = refl
sum_notionals-replace i n (p ∷ ps) t = elim (Bool-cases (same p.symbol i.symbol)) [
  | inl e ↦ rw e (sum_notionals-replace i n ps _)
  | inr e ↦ rw e (sum_notionals-replace i n ps _)
]

collect_symbols-replace :
    (i : OrderIntent) (n : Decimal) (ps : List Position) (seen : List String)
    → collect_symbols i.symbol n seen ps ≡ open_symbols seen (replace i n ps)
unfolding collect_symbols open_symbols
collect_symbols-replace i n [] seen = refl
collect_symbols-replace i n (p ∷ ps) seen = elim (Bool-cases (same p.symbol i.symbol)) [
  | inl e ↦ rw e (collect_symbols-replace i n ps _)
  | inr e ↦ rw e (collect_symbols-replace i n ps _)
]

-- The sum that the leverage is taken of is the notional of the book after the fill.
pub post_fill_notional-after_fill :
    (i : OrderIntent) (ps : List Position) (n : Decimal)
    → post_fill_notional i ps n ≡ account_notional (after_fill i ps n)
unfolding post_fill_notional account_notional
post_fill_notional-after_fill i ps n =
    rw (add_notionals-append (replace i n ps), ← sum_notionals-replace i n ps nought)
      (elim (Option-cases (position_for ps i.symbol)) [ inl e ↦ rw e | inr (p, e) ↦ rw e ])

-- The symbols that are counted are those of the book after the fill.
pub post_fill_symbols-after_fill :
    (i : OrderIntent) (ps : List Position) (n : Decimal)
    → post_fill_symbols i ps n ≡ open_symbols [] (after_fill i ps n)
unfolding post_fill_symbols open_symbols
post_fill_symbols-after_fill i ps n =
    rw (open_symbols-append (replace i n ps), ← collect_symbols-replace i n ps []) (ground arith)
