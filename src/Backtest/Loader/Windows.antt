-- ===== src/Backtest/Loader/Windows.antt =====
-- src/backtest/data_loader.py: the chunks cover the window that is asked for.
use native.Mathlib.Nat.{le-div_iff_mul-le, div-mul-le_self, lt-div-mul-add, mul-mod_left}
use hta.Common.{
  ℕ, zero, suc, ◌+◌, ◌-◌, ◌*◌, ◌/◌, ◌%◌, ◌≤◌, ◌<◌, ◌≡◌, refl, List, [], ◌∷◌, All, arith, leb, false,
  subst,
}
use hta.Backtest.Loader.{anchor_ms, windows_from, chunk_windows}

-- Windows that follow each other without a gap, from the first number to the last.
abbrev pub IsChain : ℕ → List (ℕ × ℕ) → ℕ → Type 0
IsChain lo [] hi = lo ≡ hi
IsChain lo (w ∷ ws) hi = (w.0 ≡ lo) × (w.0 < w.1) × IsChain w.1 ws hi

-- A chunk has the full length, and starts on the grid of the anchor.
abbrev pub IsChunk : ℕ → ℕ × ℕ → Type 0
IsChunk c w = (w.1 ≡ w.0 + c) × ((w.0 - anchor_ms) % c ≡ 0)

on_grid : (a i c : ℕ) → (a + i * c - a) % c ≡ 0
on_grid a i c = let e : a + i * c - a ≡ i * c = omega arith in rw e (mul-mod_left i c)

windows_from-IsChunk : (c i n : ℕ) → All (IsChunk c) (windows_from c i n)
unfolding windows_from
windows_from-IsChunk c i zero = tt
windows_from-IsChunk c i (suc n) = ((refl, on_grid anchor_ms i c), windows_from-IsChunk c (suc i) n)

next_chunk : (a i c : ℕ) → a + suc i * c ≡ a + i * c + c
next_chunk a i c = omega arith

windows_from-IsChain :
    (c i n j : ℕ)
    → 0 < c
    → i + n ≡ j
    → IsChain (anchor_ms + i * c) (windows_from c i n) (anchor_ms + j * c)
unfolding windows_from
windows_from-IsChain c i zero j h e = let k : i ≡ j = omega (arith, e) in rw k refl
windows_from-IsChain c i (suc n) j h e = (
  refl,
  omega (arith, h),
  subst (λ lo. IsChain lo (windows_from c (suc i) n) (anchor_ms + j * c)) (next_chunk anchor_ms i c)
      (windows_from-IsChain c (suc i) n j h (omega (arith, e))),
)

quotient_le : (x y c : ℕ) → 0 < c → x ≤ y → x / c ≤ y / c
quotient_le x y c h e = (le-div_iff_mul-le h).1 (omega (arith, div-mul-le_self x c, e))

-- A window that is asked for, of 2020 or later, is covered by chunks of the full length on a fixed grid, which
-- follow each other without a gap, start less than a chunk before it and end less than a chunk after it.
pub chunk_windows-IsChain :
    (start_ms end_ms c : ℕ)
    → 0 < c
    → anchor_ms ≤ start_ms
    → start_ms < end_ms
    → All (IsChunk c) (chunk_windows start_ms end_ms c)
      × (lo : ℕ) × (hi : ℕ) × IsChain lo (chunk_windows start_ms end_ms c) hi
      × (lo ≤ start_ms)
      × (start_ms < lo + c)
      × (end_ms ≤ hi)
      × (hi < end_ms + c)
unfolding chunk_windows
chunk_windows-IsChain s e c h ha hs =
    let first = (s - anchor_ms) / c in
    let last = (e - anchor_ms - 1) / c in
    let shut : leb e s ≡ false = ground (arith, hs) in
    let ordered = quotient_le (s - anchor_ms) (e - anchor_ms - 1) c h (omega (arith, ha, hs)) in
    rw shut (
      windows_from-IsChunk c first (suc last - first),
      anchor_ms + first * c,
      anchor_ms + suc last * c,
      windows_from-IsChain c first (suc last - first) (suc last) h (omega (arith, ordered)),
      omega (arith, div-mul-le_self (s - anchor_ms) c, ha),
      omega (arith, lt-div-mul-add {a = s - anchor_ms} h, ha),
      omega (arith, lt-div-mul-add {a = e - anchor_ms - 1} h, ha, hs),
      omega (arith, div-mul-le_self (e - anchor_ms - 1) c, ha, hs),
    )
