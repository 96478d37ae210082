-- ===== src/Execution/Reconciler/Divergence.antt =====
-- What the reconciler reports, and when it halts.
use hta.Common.{
  ℕ, String, ◌≡◌, refl, sym, ◌∙◌, ap, ap₂, any-append, any-keep, ◌↔◌, ◌≢◌, ◌⊎◌, inl, inr, Bool,
  true, false, not, ◌||◌, ◌&&◌, Option, none, some, List, [], ◌∷◌, ◌++◌, map, arith, is_some, any,
  Bool-cases, Option-cases, same, same_iff, ◌==◌,
}
use hta.Decimal.{nought, ◌=?◌}
use hta.Formatted.{Text}
use hta.Dict.{Dict, get, keys, any-keys, any-sorted_set, string_key, number_key}
use hta.Risk.KillSwitch.{KillSwitch, returns, raises}
use hta.Risk.KillSwitch.Sequence.{halt-halted}
use hta.Execution.Tracker.{TrackedPosition, TrackedOrder, PositionTracker, refresh}
use hta.Execution.Reconciler.{
  size_at, symbols, position_diffs, diff_positions, only_in, diff_orders, is_empty, divergences,
  Pass, compare_caches, check_once,
}

-- The two caches hold the same sizes and the same orders.
pub record Agrees (old new : PositionTracker) : Type 0 where
  pub sizes : (s : String) → (size_at old.positions s =? size_at new.positions s) ≡ true
  pub orders : (oid : ℕ) → is_some (get oid old.orders) ≡ is_some (get oid new.orders)

module _ (old new : Dict String TrackedPosition) where
  position_diffs_sound :
      (ss : List String) (s : String)
      → position_diffs old new ss ≡ []
      → any (λ j. same j s) ss ≡ true
      → (size_at old s =? size_at new s) ≡ true
  unfolding position_diffs
  position_diffs_sound [] s h m = cc
  position_diffs_sound (x ∷ ss) s h m = ground (arith, position_diffs_sound ss s, same_iff x s)

  position_diffs_complete :
      (ss : List String)
      → ((s : String) → (size_at old s =? size_at new s) ≡ true)
      → position_diffs old new ss ≡ []
  unfolding position_diffs
  position_diffs_complete [] h = refl
  position_diffs_complete (x ∷ ss) h = rw (h x, position_diffs_complete ss h)

  listed :
      (s : String)
      → any (λ j. same j s) (symbols old new) ≡ (is_some (get s old) || is_some (get s new))
  listed s =
      any-sorted_set (λ j. same j s) (keys old ++ keys new)
      ∙ any-append (λ j. same j s) (keys old) (keys new)
      ∙ ap₂ ◌||◌ (any-keys s old) (any-keys s new)

  size_at-none :
      (d : Dict String TrackedPosition) (s : String) → get s d ≡ none → size_at d s ≡ nought
  unfolding size_at
  size_at-none d s h = rw (h, size_at)

  -- A symbol that neither cache holds has the size 0 in both.
  unlisted :
      (s : String)
      → any (λ j. same j s) (symbols old new) ≡ false
      → (size_at old s =? size_at new s) ≡ true
  unlisted s h =
      rw
        (
          size_at-none old s (ground (arith, listed s)),
          size_at-none new s (ground (arith, listed s)),
        )
        (unfold ◌=?◌ in refl)

  diff_positions_iff :
      (diff_positions old new ≡ []) ↔ ((s : String) → (size_at old s =? size_at new s) ≡ true)
  unfolding diff_positions
  diff_positions_iff = (
    λ h s. elim (Bool-cases (any (λ j. same j s) (symbols old new))) [
      | inl m ↦ position_diffs_sound (symbols old new) s h m
      | inr m ↦ unlisted s m
    ],
    position_diffs_complete (symbols old new),
  )

any-guard :
    (q : ℕ → Bool) (oid : ℕ) (xs : List ℕ)
    → any (λ x. q x && (x == oid)) xs ≡ (q oid && any (λ x. x == oid) xs)
any-guard q oid [] = ground arith
any-guard q oid (x ∷ xs) = ground (arith, any-guard q oid xs, ap q {x = x} {y = oid})

nil_of_any : (xs : List ℕ) → ((oid : ℕ) → any (λ x. x == oid) xs ≡ false) → xs ≡ []
nil_of_any [] h = refl
nil_of_any (x ∷ xs) h = ground (arith, h x)

module _ (a b : Dict ℕ TrackedOrder) where
  any-only_in :
      (oid : ℕ)
      → any (λ x. x == oid) (only_in a b) ≡ (not (is_some (get oid b)) && is_some (get oid a))
  unfolding only_in
  any-only_in oid =
      any-sorted_set (λ x. x == oid) _
      ∙ any-keep (λ x. x == oid) (λ x. not (is_some (get x b))) (keys a)
      ∙ any-guard (λ x. not (is_some (get x b))) oid (keys a)
      ∙ ap (λ m. not (is_some (get oid b)) && m) (any-keys oid a)

  only_in-nil :
      (only_in a b ≡ []) ↔ ((oid : ℕ) → is_some (get oid a) ≡ true → is_some (get oid b) ≡ true)
  only_in-nil = (
    λ h oid m. ground (arith, any-only_in oid, ap (any (λ x. x == oid)) h),
    λ h. nil_of_any (only_in a b) (λ oid. ground (arith, any-only_in oid, h oid)),
  )

nil_of_maps :
    {B : Type 0} (f g : ℕ → B) (xs ys : List ℕ) → map f xs ++ map g ys ≡ [] → (xs ≡ []) × (ys ≡ [])
nil_of_maps f g [] [] h = (refl, refl)
nil_of_maps f g [] (y ∷ ys) h = cc
nil_of_maps f g (x ∷ xs) ys h = cc

same_of_implied : (a b : Bool) → (a ≡ true → b ≡ true) → (b ≡ true → a ≡ true) → a ≡ b
same_of_implied a b h k = ground arith

diff_orders_iff :
    (old new : Dict ℕ TrackedOrder)
    → (diff_orders old new ≡ []) ↔ ((oid : ℕ) → is_some (get oid old) ≡ is_some (get oid new))
unfolding diff_orders
diff_orders_iff old new = (
  λ h oid.
      let (gone, fresh) = nil_of_maps _ _ (only_in old new) (only_in new old) h in
      same_of_implied _ _ ((only_in-nil old new).0 gone oid) ((only_in-nil new old).0 fresh oid),
  λ h. rw (
    (only_in-nil old new).1 (λ oid m. sym (h oid) ∙ m),
    (only_in-nil new old).1 (λ oid m. h oid ∙ m),
  ),
)

nil_of_append : {A : Type 0} (xs ys : List A) → xs ++ ys ≡ [] → (xs ≡ []) × (ys ≡ [])
nil_of_append [] ys h = (refl, h)
nil_of_append (x ∷ xs) ys h = cc

is_empty_iff : (ds : List Text) → (is_empty ds ≡ true) ↔ (ds ≡ [])
is_empty_iff ds = ground arith

-- The pass finds nothing to report exactly when the caches agree: on the size in every symbol, and on
-- which orders are open.
pub divergences_iff :
    (old new : PositionTracker) → (is_empty (divergences old new) ≡ true) ↔ Agrees old new
divergences_iff old new = (
  λ h.
      let (ps, os) =
        nil_of_append (diff_positions old.positions new.positions) _
          ((is_empty_iff (divergences old new)).0 h) in
      record {
        sizes = (diff_positions_iff old.positions new.positions).0 ps;
        orders = (diff_orders_iff old.orders new.orders).0 os;
      },
  λ h. rw (
    (diff_positions_iff old.positions new.positions).1 h.sizes,
    (diff_orders_iff old.orders new.orders).1 h.orders,
  ),
)

-- The cache that the refresh of a pass leaves, and what the refresh raised.
abbrev pub refreshed : Pass → PositionTracker → PositionTracker × Option String
refreshed pass t = refresh pass.user_state pass.open_orders t

divergent : (old new : PositionTracker) → ¬ Agrees old new → is_empty (divergences old new) ≡ false
divergent old new h = elim (Bool-cases (is_empty (divergences old new))) [
  | inl e ↦ absurd (h ((divergences_iff old new).0 e))
  | inr e ↦ e
]

compare_caches_halts :
    (pass : Pass) (old new : PositionTracker) (k : KillSwitch)
    → pass.tick ≡ returns tt
    → ¬ Agrees old new
    → (compare_caches pass old new k).kill_switch.halted ≡ true
unfolding compare_caches
compare_caches_halts pass old new k kept h =
    rw (kept, compare_caches, divergent old new h) (halt-halted pass.services _ pass.ts k)

-- A pass that finds the system running halts it when the refresh raises, and when the caches before and
-- after the refresh disagree, provided that the journal took the entry of the pass.
pub check_once_halts :
    (pass : Pass) (t : PositionTracker) (k : KillSwitch)
    → k.halted ≡ false
    → pass.tick ≡ returns tt
    → ((refreshed pass t).1 ≢ none) ⊎ ¬ Agrees t (refreshed pass t).0
    → (check_once pass t k).kill_switch.halted ≡ true
unfolding check_once
check_once_halts pass t k running kept h = elim (Option-cases (refreshed pass t).1) [
  | inr (exc, e) ↦ rw (running, e, check_once) (halt-halted pass.services _ pass.ts k)
  | inl e ↦
      rw (running, e, check_once)
        (elim h [
          | inl raised ↦ absurd (raised e)
          | inr differ ↦ compare_caches_halts pass t (refreshed pass t).0 k kept differ
        ])
]

-- A pass that finds the caches in agreement leaves the kill switch alone, and keeps the refreshed cache.
pub check_once-Agrees :
    (pass : Pass) (t : PositionTracker) (k : KillSwitch)
    → k.halted ≡ false
    → (refreshed pass t).1 ≡ none
    → pass.tick ≡ returns tt
    → Agrees t (refreshed pass t).0
    → check_once pass t k
      ≡ record { tracker = (refreshed pass t).0; kill_switch = k; raised = none }
unfolding check_once compare_caches
check_once-Agrees pass t k running ok kept h =
    ground (arith, (divergences_iff t (refreshed pass t).0).1 h)

-- If the journal refuses the entry of a pass, no halt follows, whatever the divergence.
pub check_once_unjournaled :
    (pass : Pass) (t : PositionTracker) (k : KillSwitch) (refused : String)
    → k.halted ≡ false
    → (refreshed pass t).1 ≡ none
    → pass.tick ≡ raises refused
    → check_once pass t k
      ≡ record { tracker = (refreshed pass t).0; kill_switch = k; raised = some refused }
unfolding check_once compare_caches
check_once_unjournaled pass t k refused running ok e = ground arith
