-- ===== src/Dict/Groups.antt =====
-- Grouping by a key: `sorted(set(xs))` is ascending, and the sums of the groups add up to the sum of all.
use mathlib.Core.Bool.{false≢true}
use hta.Common.{
  ◌≡◌, refl, sym, ap, ap₂, ◌∙◌, ◌||◌, Bool, true, false, List, [], ◌∷◌, map, All, All-weaken,
  All-every, any, subst, keep, arith, if◌then◌else◌, Bool-cases, inl, inr,
}
use hta.Dict.{Key, beq_refl, sorted_set, insert_sorted, any-sorted_set}
use hta.Dict.Order.{IsStrict}

module _ {K : Type 0} ⦃key : Key K⦄ where
  abbrev pub IsAscending : List K → Type 0
  IsAscending [] = Unit
  IsAscending (k ∷ ks) = All (λ j. key.less k j ≡ true) ks × IsAscending ks

  All-insert_sorted :
      (P : K → Type 0) (x : K) (ys : List K) → P x → All P ys → All P (insert_sorted x ys)
  unfolding insert_sorted
  All-insert_sorted P x [] h hs = (h, tt)
  All-insert_sorted P x (y ∷ ys) h hs = elim (Bool-cases (key.beq x y)) [
    | inl e ↦ rw e hs
    | inr e ↦ elim (Bool-cases (key.less x y)) [
      | inl l ↦ rw (e, l) (h, hs)
      | inr l ↦ rw (e, l) (hs.0, All-insert_sorted P x ys h hs.1)
    ]
  ]

module _ {K : Type 0} ⦃key : Key K⦄ ⦃order : IsStrict K⦄ where
  insert_sorted-IsAscending :
      (x : K) (ys : List K) → IsAscending ys → IsAscending (insert_sorted x ys)
  unfolding insert_sorted
  insert_sorted-IsAscending x [] h = (tt, tt)
  insert_sorted-IsAscending x (y ∷ ys) h = elim (Bool-cases (key.beq x y)) [
    | inl e ↦ rw e h
    | inr e ↦ elim (Bool-cases (key.less x y)) [
      | inl l ↦ rw (e, l) ((l, All-weaken _ _ ys (λ z hz. order.transitive x y z l hz) h.0), h)
      | inr l ↦
          rw (e, l)
            (
              All-insert_sorted _ x ys (order.connected x y e l) h.0,
              insert_sorted-IsAscending x ys h.1,
            )
    ]
  ]

  pub sorted_set-IsAscending : (xs : List K) → IsAscending (sorted_set xs)
  unfolding sorted_set
  sorted_set-IsAscending [] = tt
  sorted_set-IsAscending (x ∷ xs) =
      insert_sorted-IsAscending x (sorted_set xs) (sorted_set-IsAscending xs)

  -- What lies above a key is another key.
  not_above : (x z : K) → key.less x z ≡ true → key.beq x z ≡ false
  not_above x z h = elim (Bool-cases (key.beq x z)) [
    | inl e ↦
        absurd
          (false≢true (sym (order.irreflexive x) ∙ ap (key.less x) ((key.beq_iff x z).0 e) ∙ h))
    | inr e ↦ e
  ]

  any_above :
      (x : K) (ks : List K) → All (λ k. key.less x k ≡ true) ks → any (λ k. key.beq x k) ks ≡ false
  any_above x [] h = refl
  any_above x (k ∷ ks) h = rw (not_above x k h.0, any_above x ks h.1) refl

  above_same :
      (x y : K) (ks : List K)
      → x ≡ y
      → All (λ k. key.less y k ≡ true) ks
      → All (λ k. key.less x k ≡ true) ks
  above_same x y ks e = subst (λ z. All (λ k. key.less z k ≡ true) ks) (sym e)

neither : (a b : Bool) → (a || b) ≡ false → (a ≡ false) × (b ≡ false)
neither a b h = ground arith

beq_comm : {K : Type 0} ⦃key : Key K⦄ (a b : K) → key.beq a b ≡ key.beq b a
beq_comm ⦃key⦄ a b = ground (arith, key.beq_iff a b, key.beq_iff b a)

-- Numbers that can be added in any order.
pub record Adding (M : Type 0) : Type 0 where
  pub zero : M
  pub add : M → M → M
  pub zero_add : (a : M) → add zero a ≡ a
  pub add_assoc : (a b c : M) → add (add a b) c ≡ add a (add b c)
  pub add_left_comm : (a b c : M) → add a (add b c) ≡ add b (add a c)

module _ {M : Type 0} (adding : Adding M) where
  abbrev pub sum_by : {A : Type 0} → (A → M) → List A → M
  sum_by f [] = adding.zero
  sum_by f (x ∷ xs) = adding.add (f x) (sum_by f xs)

  pub sum_by-same :
      {A : Type 0} (f g : A → M) (xs : List A) → All (λ x. f x ≡ g x) xs → sum_by f xs ≡ sum_by g xs
  sum_by-same f g [] h = refl
  sum_by-same f g (x ∷ xs) h = ap₂ adding.add h.0 (sum_by-same f g xs h.1)

  sum_by-if :
      {A : Type 0} (f : A → M) (b : Bool) (x : A) (xs : List A)
      → sum_by f (if b then x ∷ xs else xs)
        ≡ (if b then adding.add (f x) (sum_by f xs) else sum_by f xs)
  sum_by-if f true x xs = refl
  sum_by-if f false x xs = refl

  pub sum_by-map :
      {A B : Type 0} (f : B → M) (g : A → B) (xs : List A)
      → sum_by f (map g xs) ≡ sum_by (λ x. f (g x)) xs
  sum_by-map f g [] = refl
  sum_by-map f g (x ∷ xs) = ap (adding.add (f (g x))) (sum_by-map f g xs)

  module _ {K : Type 0} ⦃key : Key K⦄ ⦃order : IsStrict K⦄ where
    -- The sums of the groups, when a member of group n with the number v comes in.
    abbrev bumped : K → M → (K → M) → K → M
    bumped n v g k = if key.beq n k then adding.add v (g k) else g k

    sum_by-bumped_above :
        (n : K) (v : M) (g : K → M) (ks : List K)
        → All (λ k. key.less n k ≡ true) ks
        → sum_by (bumped n v g) ks ≡ sum_by g ks
    sum_by-bumped_above n v g ks h =
        sum_by-same (bumped n v g) g ks (All-weaken _ _ ks (λ k hk. rw (not_above n k hk)) h)

    add-bumped_alone :
        (n : K) (v : M) (g : K → M) (rest : M)
        → g n ≡ adding.zero
        → adding.add (bumped n v g n) rest ≡ adding.add v rest
    add-bumped_alone n v g rest h =
        rw (beq_refl n)
          (adding.add_assoc v (g n) rest ∙ ap (adding.add v) (rw h (adding.zero_add rest)))

    sum_by-keep_none :
        {A : Type 0} (name : A → K) (f : A → M) (n : K) (xs : List A)
        → any (λ k. key.beq n k) (map name xs) ≡ false
        → sum_by f (keep (λ x. key.beq (name x) n) xs) ≡ adding.zero
    sum_by-keep_none name f n [] h = refl
    sum_by-keep_none name f n (x ∷ xs) h =
        let parts = neither (key.beq n (name x)) _ h in
        rw (beq_comm (name x) n ∙ parts.0) (sum_by-keep_none name f n xs parts.1)

    sum_by-insert_sorted :
        (n : K) (v : M) (g : K → M) (ks : List K)
        → IsAscending ks
        → (any (λ k. key.beq n k) ks ≡ false → g n ≡ adding.zero)
        → sum_by (bumped n v g) (insert_sorted n ks) ≡ adding.add v (sum_by g ks)
    unfolding insert_sorted
    sum_by-insert_sorted n v g [] asc h = add-bumped_alone n v g adding.zero (h refl)
    sum_by-insert_sorted n v g (y ∷ ys) asc h = elim (Bool-cases (key.beq n y)) [
      | inl e ↦ rw e (
          ap₂ adding.add {x = bumped n v g y} (rw e refl)
            (sum_by-bumped_above n v g ys (above_same n y ys ((key.beq_iff n y).0 e) asc.0))
          ∙ adding.add_assoc v (g y) (sum_by g ys))
      | inr e ↦ elim (Bool-cases (key.less n y)) [
        | inl l ↦
            let above : All (λ k. key.less n k ≡ true) (y ∷ ys) =
              (l, All-weaken _ _ ys (λ z hz. order.transitive n y z l hz) asc.0) in
            rw (e, l)
              (add-bumped_alone n v g _ (h (any_above n (y ∷ ys) above))
                ∙ ap (adding.add v) (sum_by-bumped_above n v g (y ∷ ys) above))
        | inr l ↦
            rw (e, l)
              (ap₂ adding.add (rw e refl)
                  (sum_by-insert_sorted n v g ys asc.1 (λ a. h (rw (e, a) refl)))
                ∙ adding.add_left_comm (g y) v (sum_by g ys))
      ]
    ]

    -- A partition: the sums over the members of each name add up to the sum over all.
    pub sum_by-partition :
        {A : Type 0} (name : A → K) (f : A → M) (xs : List A)
        → sum_by (λ k. sum_by f (keep (λ x. key.beq (name x) k) xs)) (sorted_set (map name xs))
          ≡ sum_by f xs
    unfolding sorted_set
    sum_by-partition name f [] = refl
    sum_by-partition name f (x ∷ xs) =
        let g = λ (k : K). sum_by f (keep (λ x. key.beq (name x) k) xs) in
        sum_by-same _ (bumped (name x) (f x) g) _
          (All-every _ _ (λ k. sum_by-if f (key.beq (name x) k) x _))
        ∙ sum_by-insert_sorted (name x) (f x) g (sorted_set (map name xs))
            (sorted_set-IsAscending (map name xs))
            (λ a. sum_by-keep_none name f (name x) xs (sym (any-sorted_set _ (map name xs)) ∙ a))
        ∙ ap (adding.add (f x)) (sum_by-partition name f xs)
