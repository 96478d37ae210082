-- ===== src/Backtest/Frames.antt =====
-- The operations of pandas that the loaders of src/backtest use, on a frame as the list of its rows.
use hta.Common.{
  ℕ, ◌<◌, ◌≡◌, ◌≢◌, Bool, true, false, List, [], ◌∷◌, any, keep, All, All-weaken, arith, leb, ◌==◌,
  ==_iff, if◌then◌else◌, Bool-cases, inl, inr,
}

module _ {A : Type 0} (time : A → ℕ) where
  -- `sort_index()` and `sort_values("tick_time")`, which keeps the order of equal times here.
  unfoldable pub insert_row : A → List A → List A
  insert_row x [] = x ∷ []
  insert_row x (y ∷ ys) =
      let rest = y ∷ insert_row x ys in if leb (time x) (time y) then x ∷ y ∷ ys else rest

  unfoldable pub sort_rows : List A → List A
  unfolding insert_row
  sort_rows [] = []
  sort_rows (x ∷ xs) = insert_row x (sort_rows xs)

-- `df[~df.index.duplicated(keep="first")]` and `drop_duplicates`: rows that repeat one before them go.
unfoldable pub drop_repeats : {A : Type 0} → (A → A → Bool) → List A → List A → List A
drop_repeats equal seen [] = []
drop_repeats equal seen (x ∷ xs) = elim (any (equal x) seen) [
  | true ↦ drop_repeats equal seen xs
  | false ↦ x ∷ drop_repeats equal (x ∷ seen) xs
]

pub All-keep :
    {A : Type 0} (P : A → Type 0) (p : A → Bool) (xs : List A) → All P xs → All P (keep p xs)
All-keep P p [] h = tt
All-keep P p (x ∷ xs) h = elim (Bool-cases (p x)) [
  | inl e ↦ rw e (h.0, All-keep P p xs h.1)
  | inr e ↦ rw e (All-keep P p xs h.1)
]

-- What is kept satisfies the test.
pub All-kept : {A : Type 0} (p : A → Bool) (xs : List A) → All (λ x. p x ≡ true) (keep p xs)
All-kept p [] = tt
All-kept p (x ∷ xs) = elim (Bool-cases (p x)) [
  | inl e ↦ rw e (e, All-kept p xs)
  | inr e ↦ rw e (All-kept p xs)
]

module _ {A : Type 0} (time : A → ℕ) where
  -- Times strictly increase, so no time occurs twice.
  abbrev pub IsIncreasing : List A → Type 0
  IsIncreasing [] = Unit
  IsIncreasing (x ∷ xs) = All (λ y. time x < time y) xs × IsIncreasing xs

  -- No row repeats the time of another.
  abbrev pub HasDistinctTimes : List A → Type 0
  HasDistinctTimes [] = Unit
  HasDistinctTimes (x ∷ xs) = All (λ y. time x ≢ time y) xs × HasDistinctTimes xs

  pub All-insert_row :
      (P : A → Type 0) (x : A) (ys : List A) → P x → All P ys → All P (insert_row time x ys)
  unfolding insert_row
  All-insert_row P x [] h hs = (h, tt)
  All-insert_row P x (y ∷ ys) h hs = elim (Bool-cases (leb (time x) (time y))) [
    | inl e ↦ rw (e, insert_row) (h, hs)
    | inr e ↦ rw (e, insert_row) (hs.0, All-insert_row P x ys h hs.1)
  ]

  All-sort_rows : (P : A → Type 0) (xs : List A) → All P xs → All P (sort_rows time xs)
  unfolding sort_rows
  All-sort_rows P [] h = tt
  All-sort_rows P (x ∷ xs) h = All-insert_row P x (sort_rows time xs) h.0 (All-sort_rows P xs h.1)

  insert_row-IsIncreasing :
      (x : A) (ys : List A)
      → All (λ y. time x ≢ time y) ys
      → IsIncreasing ys
      → IsIncreasing (insert_row time x ys)
  unfolding insert_row
  insert_row-IsIncreasing x [] d h = (tt, tt)
  insert_row-IsIncreasing x (y ∷ ys) d h = elim (Bool-cases (leb (time x) (time y))) [
    | inl e ↦
        rw (e, insert_row)
          (
            (
              ground (arith, e, d.0),
              All-weaken (λ z. time y < time z) (λ z. time x < time z) ys
                  (λ z k. ground (arith, e, k)) h.0,
            ),
            h,
          )
    | inr e ↦
        rw (e, insert_row)
          (
            All-insert_row (λ z. time y < time z) x ys (ground (arith, e)) h.0,
            insert_row-IsIncreasing x ys d.1 h.1,
          )
  ]

  pub sort_rows-IsIncreasing :
      (xs : List A) → HasDistinctTimes xs → IsIncreasing (sort_rows time xs)
  unfolding sort_rows
  sort_rows-IsIncreasing [] h = tt
  sort_rows-IsIncreasing (x ∷ xs) h =
      insert_row-IsIncreasing x (sort_rows time xs) (All-sort_rows (λ y. time x ≢ time y) xs h.0)
        (sort_rows-IsIncreasing xs h.1)

  pub keep-IsIncreasing : (p : A → Bool) (xs : List A) → IsIncreasing xs → IsIncreasing (keep p xs)
  keep-IsIncreasing p [] h = tt
  keep-IsIncreasing p (x ∷ xs) h = elim (Bool-cases (p x)) [
    | inl e ↦ rw e (All-keep (λ y. time x < time y) p xs h.0, keep-IsIncreasing p xs h.1)
    | inr e ↦ rw e (keep-IsIncreasing p xs h.1)
  ]

pub drop_repeats_unseen :
    {A : Type 0} (equal : A → A → Bool) (seen xs : List A)
    → All (λ y. any (equal y) seen ≡ false) (drop_repeats equal seen xs)
unfolding drop_repeats
drop_repeats_unseen equal seen [] = tt
drop_repeats_unseen equal seen (x ∷ xs) = elim (Bool-cases (any (equal x) seen)) [
  | inl e ↦ rw (e, drop_repeats) (drop_repeats_unseen equal seen xs)
  | inr e ↦
      rw (e, drop_repeats)
        (
          e,
          All-weaken (λ y. any (equal y) (x ∷ seen) ≡ false) (λ y. any (equal y) seen ≡ false)
              (drop_repeats equal (x ∷ seen) xs) (λ y h. ground (arith, h))
              (drop_repeats_unseen equal (x ∷ seen) xs),
        )
]

-- Without the repeats of a time, all times are distinct.
pub drop_repeats-HasDistinctTimes :
    {A : Type 0} (time : A → ℕ) (seen xs : List A)
    → HasDistinctTimes time (drop_repeats (λ x y. time x == time y) seen xs)
unfolding drop_repeats
drop_repeats-HasDistinctTimes time seen [] = tt
drop_repeats-HasDistinctTimes {A} time seen (x ∷ xs) =
    let equal : A → A → Bool = λ x y. time x == time y in
    elim (Bool-cases (any (equal x) seen)) [
      | inl e ↦ rw (e, drop_repeats) (drop_repeats-HasDistinctTimes time seen xs)
      | inr e ↦
          rw (e, drop_repeats)
            (
              All-weaken (λ y. any (equal y) (x ∷ seen) ≡ false) (λ y. time x ≢ time y)
                  (drop_repeats equal (x ∷ seen) xs)
                  (λ y h. ground (arith, h, ==_iff (time y) (time x)))
                  (drop_repeats_unseen equal (x ∷ seen) xs),
              drop_repeats-HasDistinctTimes time (x ∷ seen) xs,
            )
    ]
