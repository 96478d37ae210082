-- ===== src/Execution/Tracker/Refresh.antt =====
-- What `refresh` leaves in the cache.
use hta.Common.{
  ℕ, String, ◌≡◌, subst, refl, ◌⊎◌, inl, inr, Bool, true, false, Option, none, some, List, [], ◌∷◌,
  arith, All, Bool-cases, Option-cases, ◌||◌, is_some, ap, ◌∙◌, any, ◌==◌, ==_iff,
}
use hta.Decimal.{Decimal, nought, ◌=?◌}
use hta.Dict.{Dict, get, put, All-put, get-put_self, get-put_ne, string_key, number_key}
use hta.Risk.KillSwitch.{OpenOrderRef, Answer, returns, raises}
use hta.Execution.Tracker.{
  AssetPosition, RawPosition, UserState, TrackedPosition, TrackedOrder, PositionTracker, size_of,
  tracked, read_positions, read_orders, tracked_order, store, refresh,
}

-- An entry stands under its own symbol, and is not flat.
abbrev pub IsHeld : String × TrackedPosition → Type 0
IsHeld (symbol, p) = (p.symbol ≡ symbol) × ((p.size =? nought) ≡ false)

size_of_ne :
    (a : AssetPosition) (raw : RawPosition) (size : Decimal)
    → size_of a ≡ some (raw, size)
    → (size =? nought) ≡ false
unfolding size_of
size_of_ne a raw size h = ground arith

tracked_size :
    (raw : RawPosition) (size : Decimal) (p : TrackedPosition)
    → tracked raw size ≡ returns p
    → p.size ≡ size
unfolding tracked
tracked_size raw size p h = ground arith

Tracked-cases :
    (a : Answer TrackedPosition)
    → ((p : TrackedPosition) × (a ≡ returns p)) ⊎ ((exc : String) × (a ≡ raises exc))
Tracked-cases (returns p) = inl (p, refl)
Tracked-cases (raises exc) = inr (exc, refl)

read_positions-IsHeld :
    (ps : List AssetPosition) (acc : Dict String TrackedPosition)
    → All IsHeld acc
    → All IsHeld (read_positions ps acc).0
unfolding read_positions
read_positions-IsHeld [] acc h = h
read_positions-IsHeld (a ∷ ps) acc h = elim (Option-cases (size_of a)) [
  | inl e ↦ rw (e, read_positions) (read_positions-IsHeld ps acc h)
  | inr ((raw, size), e) ↦ elim (Tracked-cases (tracked raw size)) [
    | inl (p, r) ↦
        rw (e, r, read_positions)
          (read_positions-IsHeld ps (put p.symbol p acc) (
            All-put IsHeld p.symbol p acc
              (refl, rw (tracked_size raw size p r) (size_of_ne a raw size e)) h))
    | inr (exc, r) ↦ rw (e, r, read_positions) h
  ]
]

-- What a refresh does to the cache, by how it ends. After a success every cached position stands under
-- its symbol and is not flat.
abbrev pub Refreshed : PositionTracker → PositionTracker × Option String → Type 0
Refreshed t (t', none) = All IsHeld t'.positions
Refreshed t (t', some exc) =
    (t'.orders ≡ t.orders) × (t'.equity ≡ t.equity) × (t'.free_margin ≡ t.free_margin)

store-Refreshed :
    (state : UserState) (orders : List OpenOrderRef) (t : PositionTracker)
    → Refreshed t (store state orders t)
unfolding store
store-Refreshed state orders t =
    let held = read_positions-IsHeld state.asset_positions [] tt in
    elim (Option-cases (read_positions state.asset_positions []).1) [
      | inl e ↦ rw (e, store) held
      | inr (exc, e) ↦ rw (e, store) (refl, refl, refl)
    ]

-- A refresh that succeeds caches only positions that are not flat, each under its own symbol; one that
-- raises leaves the cached orders, equity and free margin as they were.
pub refresh-Refreshed :
    (state : Answer UserState) (orders : Answer (List OpenOrderRef)) (t : PositionTracker)
    → Refreshed t (refresh state orders t)
unfolding refresh
refresh-Refreshed (raises exc) orders t = (refl, refl, refl)
refresh-Refreshed (returns state) (raises exc) t = (refl, refl, refl)
refresh-Refreshed (returns state) (returns orders) t = store-Refreshed state orders t

cached :
    (b : Bool) (o : Option TrackedOrder) {x : TrackedOrder} → o ≡ some x → (b || is_some o) ≡ true
cached b o h = ground arith

-- An order is cached exactly if the exchange lists its id, on top of those cached before.
pub get-read_orders :
    (oid : ℕ) (rs : List OpenOrderRef) (acc : Dict ℕ TrackedOrder)
    → (is_some (get oid (read_orders rs acc)))
      ≡ (any (λ r. r.oid == oid) rs || is_some (get oid acc))
unfolding read_orders
get-read_orders oid [] acc = refl
get-read_orders oid (r ∷ rs) acc = elim (Bool-cases (r.oid == oid)) [
  | inl e ↦ rw e (
      get-read_orders oid rs _
      ∙ cached (any (λ s. s.oid == oid) rs) _ (
          subst (λ k. get k (put r.oid (tracked_order r) acc) ≡ some (tracked_order r))
            ((==_iff r.oid oid).0 e) (get-put_self r.oid (tracked_order r) acc)))
  | inr e ↦ rw e (
      get-read_orders oid rs _
      ∙ ap (λ o. any (λ s. s.oid == oid) rs || is_some o)
          (get-put_ne r.oid oid (tracked_order r) acc e))
]
