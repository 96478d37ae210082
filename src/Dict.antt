-- ===== src/Dict.antt =====
-- Python's `dict`, in insertion order, over the keys that the program uses: strings and order ids.
pub mod Order
pub mod Groups
use Prim.Native.String.{compare}
use text.Mathlib.Text.{is_lt}
use hta.Common.{
  ℕ, String, ◌≡◌, refl, sym, ap, subst, All, ◌∙◌, ◌||◌, any, ◌↔◌, Bool, true, false, Option, none,
  some, is_some, List, [], ◌∷◌, map, arith, if◌then◌else◌, same, same_iff, ◌==◌, ==_iff, ltb, inl,
  inr, Bool-cases,
}

pub record Key (K : Type 0) : Type 0 where
  pub beq : K → K → Bool
  pub beq_iff : (a b : K) → (beq a b ≡ true) ↔ (a ≡ b)
  -- The order of `sorted`: that of numbers, and of strings by code point.
  pub less : K → K → Bool

instance abbrev pub number_key : Key ℕ
number_key = record { beq = ◌==◌; beq_iff = ==_iff; less = ltb }

instance abbrev pub string_key : Key String
string_key = record { beq = same; beq_iff = same_iff; less = λ a b. is_lt (compare a b) }

pub beq_refl : {K : Type 0} ⦃key : Key K⦄ (k : K) → key.beq k k ≡ true
beq_refl ⦃key⦄ k = (key.beq_iff k k).1 refl

abbrev pub Dict : Type 0 → Type 0 → Type 0
Dict K V = List (K × V)

-- `d.keys()` and `d.values()`
abbrev pub keys : {K V : Type 0} → Dict K V → List K
keys = map (λ e. e.0)

abbrev pub values : {K V : Type 0} → Dict K V → List V
values = map (λ e. e.1)

module _ {K V : Type 0} ⦃key : Key K⦄ where
  -- `d.get(k)`
  unfoldable pub get : K → Dict K V → Option V
  get k [] = none
  get k ((j, v) ∷ d) = if key.beq j k then some v else get k d

  -- `d[k] = v`
  unfoldable pub put : K → V → Dict K V → Dict K V
  put k v [] = (k, v) ∷ []
  put k v ((j, w) ∷ d) = if key.beq j k then (j, v) ∷ d else (j, w) ∷ put k v d

  -- `d.pop(k, None)`, where each key stands once.
  unfoldable pub pop : K → Dict K V → Dict K V
  pop k [] = []
  pop k ((j, v) ∷ d) = let rest = pop k d in if key.beq j k then rest else (j, v) ∷ rest

  pub get-put_self : (k : K) (v : V) (d : Dict K V) → get k (put k v d) ≡ some v
  unfolding get put
  get-put_self k v [] = rw (beq_refl k)
  get-put_self k v ((j, w) ∷ d) = elim (Bool-cases (key.beq j k)) [
    | inl e ↦ rw (e, get) (rw e)
    | inr e ↦ rw (e, get) (rw e (get-put_self k v d))
  ]

  pub get-put_ne :
      (k j : K) (v : V) (d : Dict K V) → key.beq k j ≡ false → get j (put k v d) ≡ get j d
  unfolding get put
  get-put_ne k j v [] h = rw h
  get-put_ne k j v ((i, w) ∷ d) h = ground (arith, get-put_ne k j v d h, key.beq_iff i k, h)

  pub get-pop_self : (k : K) (d : Dict K V) → get k (pop k d) ≡ none
  unfolding get pop
  get-pop_self k [] = refl
  get-pop_self k ((j, v) ∷ d) = ground (arith, get-pop_self k d)

  pub get-pop_ne : (k j : K) (d : Dict K V) → key.beq k j ≡ false → get j (pop k d) ≡ get j d
  unfolding get pop
  get-pop_ne k j [] h = refl
  get-pop_ne k j ((i, v) ∷ d) h = ground (arith, get-pop_ne k j d h, key.beq_iff i k, h)

-- A key that is found is among the keys.
pub any-keys :
    {K V : Type 0} ⦃key : Key K⦄ (k : K) (d : Dict K V)
    → any (λ j. key.beq j k) (keys d) ≡ is_some (get k d)
unfolding get
any-keys k [] = refl
any-keys k ((j, v) ∷ d) = ground (arith, any-keys k d)

-- A predicate of all entries survives a write that satisfies it.
pub All-put :
    {K V : Type 0} ⦃key : Key K⦄ (P : K × V → Type 0) (k : K) (v : V) (d : Dict K V)
    → P (k, v)
    → All P d
    → All P (put k v d)
unfolding put
All-put P k v [] h hs = (h, tt)
All-put ⦃key⦄ P k v ((j, w) ∷ d) h hs = elim (Bool-cases (key.beq j k)) [
  | inl e ↦ rw e (subst (λ i. P (i, v)) (sym ((key.beq_iff j k).0 e)) h, hs.1)
  | inr e ↦ rw e (hs.0, All-put P k v d h hs.1)
]

-- `sorted(set(xs))`, built by insertion.
module _ {K : Type 0} ⦃key : Key K⦄ where
  unfoldable pub insert_sorted : K → List K → List K
  insert_sorted x [] = x ∷ []
  insert_sorted x (y ∷ ys) =
      let rest = y ∷ insert_sorted x ys in
      if key.beq x y then y ∷ ys else if key.less x y then x ∷ y ∷ ys else rest

  unfoldable pub sorted_set : List K → List K
  unfolding insert_sorted
  sorted_set [] = []
  sorted_set (x ∷ xs) = insert_sorted x (sorted_set xs)

  pub any-insert_sorted :
      (p : K → Bool) (x : K) (ys : List K) → any p (insert_sorted x ys) ≡ (p x || any p ys)
  unfolding insert_sorted
  any-insert_sorted p x [] = refl
  any-insert_sorted p x (y ∷ ys) = ground (arith, any-insert_sorted p x ys, key.beq_iff x y)

  -- Sorting keeps the members.
  pub any-sorted_set : (p : K → Bool) (xs : List K) → any p (sorted_set xs) ≡ any p xs
  unfolding sorted_set
  any-sorted_set p [] = refl
  any-sorted_set p (x ∷ xs) =
      any-insert_sorted p x (sorted_set xs) ∙ ap (λ b. p x || b) (any-sorted_set p xs)
