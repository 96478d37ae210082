-- ===== src/Backtest/Loader/Cached.antt =====
-- src/backtest/data_loader.py: what the cache of files does to a later run.
use hta.Common.{
  ℕ, suc, ◌*◌, String, ◌≡◌, refl, sym, ap, ap₂, ◌∙◌, true, Option, none, some, is_some, List, [],
  ◌∷◌, ◌++◌, length, All, All-weaken, arith, same_iff, ◌==◌, ==_iff, Option-cases, inl, inr, ◌<◌,
  ◌≤◌, Bool-cases,
}
use hta.Backtest.Frames.{
  IsIncreasing, sort_rows, drop_repeats, sort_rows-IsIncreasing, drop_repeats-HasDistinctTimes,
  keep-IsIncreasing, All-kept,
}
use hta.Backtest.Loader.{
  Candle, CacheFile, same_file, Loader, read_cache, Run, load_chunk, load_chunks, trimmed,
  load_coin, chunk_windows, ms_per_day,
}

abbrev pub file_of : Run → String → ℕ × ℕ → CacheFile
file_of run coin w = record { coin = coin; interval = run.interval; start_ms = w.0; end_ms = w.1 }

-- The chunk has a file in the cache.
abbrev pub IsCached : Run → String → Loader → ℕ × ℕ → Type 0
IsCached run coin l w = is_some (read_cache (file_of run coin w) l.cache) ≡ true

same_file_refl : (f : CacheFile) → same_file f f ≡ true
same_file_refl f = ground (
  arith,
  same_iff f.coin f.coin,
  same_iff f.interval f.interval,
  ==_iff f.start_ms f.start_ms,
  ==_iff f.end_ms f.end_ms,
)

load_chunk-IsCached :
    (run : Run) (coin : String) (idx count : ℕ) (w v : ℕ × ℕ) (l : Loader)
    → IsCached run coin l v
    → IsCached run coin (load_chunk run coin idx count w l).1 v
unfolding load_chunk read_cache
load_chunk-IsCached run coin idx count w v l h = ground (arith, h)

load_chunk-IsCached_self :
    (run : Run) (coin : String) (idx count : ℕ) (w : ℕ × ℕ) (l : Loader)
    → IsCached run coin (load_chunk run coin idx count w l).1 w
unfolding load_chunk read_cache
load_chunk-IsCached_self run coin idx count w l =
    ground (arith, same_file_refl (file_of run coin w))

load_chunks_keeps :
    (run : Run) (coin : String) (idx count : ℕ) (ws : List (ℕ × ℕ)) (v : ℕ × ℕ) (l : Loader)
    → IsCached run coin l v
    → IsCached run coin (load_chunks run coin idx count ws l).1 v
unfolding load_chunks
load_chunks_keeps run coin idx count [] v l h = h
load_chunks_keeps run coin idx count (w ∷ ws) v l h =
    load_chunks_keeps run coin (suc idx) count ws v (load_chunk run coin idx count w l).1
      (load_chunk-IsCached run coin idx count w v l h)

-- After the loop every chunk has its file.
load_chunks-IsCached :
    (run : Run) (coin : String) (idx count : ℕ) (ws : List (ℕ × ℕ)) (l : Loader)
    → All (IsCached run coin (load_chunks run coin idx count ws l).1) ws
unfolding load_chunks
load_chunks-IsCached run coin idx count [] l = tt
load_chunks-IsCached run coin idx count (w ∷ ws) l =
    let l' = (load_chunk run coin idx count w l).1 in
    (
      load_chunks_keeps run coin (suc idx) count ws w l'
          (load_chunk-IsCached_self run coin idx count w l),
      load_chunks-IsCached run coin (suc idx) count ws l',
    )

-- The rows of the files.
abbrev pub stored : Run → String → List (ℕ × ℕ) → List (CacheFile × List Candle) → List Candle
stored run coin [] cache = []
stored run coin (w ∷ ws) cache =
    (elim (read_cache (file_of run coin w) cache) [ none ↦ [] | some df ↦ df ])
    ++ stored run coin ws cache

-- A later run, when the exchange may answer otherwise.
abbrev pub rerun : Run → (CacheFile → List Candle) → ℕ → Run
rerun run answer now_ms = record run { candles_snapshot = answer; now_ms = now_ms }

same_file_eq : (a b : CacheFile) → same_file a b ≡ true → a ≡ b
same_file_eq a b h = ground (
  arith,
  h,
  same_iff a.coin b.coin,
  same_iff a.interval b.interval,
  ==_iff a.start_ms b.start_ms,
  ==_iff a.end_ms b.end_ms,
)

-- A file that is there stays as it is.
load_chunk_file :
    (run : Run) (coin : String) (idx count : ℕ) (w : ℕ × ℕ) (f : CacheFile) (df : List Candle)
    (l : Loader)
    → read_cache f l.cache ≡ some df
    → read_cache f (load_chunk run coin idx count w l).1.cache ≡ some df
unfolding load_chunk read_cache
load_chunk_file run coin idx count w f df l h =
    elim (Option-cases (read_cache (file_of run coin w) l.cache)) [
      | inl e ↦
          rw (e, load_chunk)
            (let g = file_of run coin w in
              elim (Bool-cases (same_file g f)) [
                | inl s ↦ absurd (
                    ground (arith, sym e ∙ ap (λ x. read_cache x l.cache) (same_file_eq g f s) ∙ h))
                | inr s ↦ rw s h
              ])
      | inr (d, e) ↦ rw (e, load_chunk) h
    ]

load_chunk_stored :
    (run : Run) (coin : String) (idx count : ℕ) (w : ℕ × ℕ) (l : Loader)
    → read_cache (file_of run coin w) (load_chunk run coin idx count w l).1.cache
      ≡ some (load_chunk run coin idx count w l).0
unfolding load_chunk read_cache
load_chunk_stored run coin idx count w l = ground (arith, same_file_refl (file_of run coin w))

load_chunk_cached :
    (run : Run) (coin : String) (idx count : ℕ) (w : ℕ × ℕ) (l : Loader)
    → IsCached run coin l w
    → ((load_chunk run coin idx count w l).1.cache ≡ l.cache)
      × ((load_chunk run coin idx count w l).1.calls ≡ l.calls)
unfolding load_chunk
load_chunk_cached run coin idx count w l h = ground (arith, h)

load_chunks_file :
    (run : Run) (coin : String) (idx count : ℕ) (ws : List (ℕ × ℕ)) (f : CacheFile)
    (df : List Candle) (l : Loader)
    → read_cache f l.cache ≡ some df
    → read_cache f (load_chunks run coin idx count ws l).1.cache ≡ some df
unfolding load_chunks
load_chunks_file run coin idx count [] f df l h = h
load_chunks_file run coin idx count (w ∷ ws) f df l h =
    load_chunks_file run coin (suc idx) count ws f df (load_chunk run coin idx count w l).1
      (load_chunk_file run coin idx count w f df l h)

abbrev or_empty : Option (List Candle) → List Candle
or_empty o = elim o [ none ↦ [] | some df ↦ df ]

-- What the loop returns is what its files hold in the end.
load_chunks-stored :
    (run : Run) (coin : String) (idx count : ℕ) (ws : List (ℕ × ℕ)) (l : Loader)
    → (load_chunks run coin idx count ws l).0
      ≡ stored run coin ws (load_chunks run coin idx count ws l).1.cache
unfolding load_chunks
load_chunks-stored run coin idx count [] l = refl
load_chunks-stored run coin idx count (w ∷ ws) l =
    let l' = (load_chunk run coin idx count w l).1 in
    ap₂ (λ (a b : List Candle). a ++ b)
      (sym (
        ap or_empty (
          load_chunks_file run coin (suc idx) count ws (file_of run coin w) _ l'
            (load_chunk_stored run coin idx count w l))))
      (load_chunks-stored run coin (suc idx) count ws l')

-- With a file for every chunk the loop makes no call and writes no file.
load_chunks_cached :
    (run : Run) (coin : String) (idx count : ℕ) (ws : List (ℕ × ℕ)) (l : Loader)
    → All (IsCached run coin l) ws
    → ((load_chunks run coin idx count ws l).1.cache ≡ l.cache)
      × ((load_chunks run coin idx count ws l).1.calls ≡ l.calls)
unfolding load_chunks
load_chunks_cached run coin idx count [] l h = (refl, refl)
load_chunks_cached run coin idx count (w ∷ ws) l h =
    let l' = (load_chunk run coin idx count w l).1 in
    let here = load_chunk_cached run coin idx count w l h.0 in
    let there = load_chunks_cached run coin (suc idx) count ws l' (
      All-weaken (IsCached run coin l) (IsCached run coin l') ws
        (λ v. load_chunk-IsCached run coin idx count w v l) h.1) in
    (there.0 ∙ here.0, there.1 ∙ here.1)

-- The rows that a run of one coin hands to `trimmed`.
abbrev pub rows_of : Run → ℕ → String → Loader → List Candle
rows_of run start_ms coin l =
    let windows = chunk_windows start_ms run.now_ms (run.chunk_days * ms_per_day) in
    (load_chunks run coin 0 (length windows) windows l).0

-- A second run of a coin whose window falls into the same chunks makes no call: it returns the rows of the first
-- run, trimmed to its own window, whatever the exchange would answer now. So of the chunk that was
-- not over at the time of the first run the candles since then are missing.
pub load_coin_again :
    (run : Run) (coin : String) (start_ms start_later later : ℕ) (answer : CacheFile → List Candle)
    (l : Loader)
    → chunk_windows start_later later (run.chunk_days * ms_per_day)
      ≡ chunk_windows start_ms run.now_ms (run.chunk_days * ms_per_day)
    → let l' = (load_coin run start_ms coin l).1 in
      ((load_coin (rerun run answer later) start_later coin l').0
        ≡ trimmed start_later later (rows_of run start_ms coin l))
      × ((load_coin (rerun run answer later) start_later coin l').1.calls ≡ l'.calls)
unfolding load_coin
load_coin_again run coin start_ms start_later later answer l e =
    let ws = chunk_windows start_ms run.now_ms (run.chunk_days * ms_per_day) in
    let l' = (load_chunks run coin 0 (length ws) ws l).1 in
    let run' = rerun run answer later in
    let still =
      load_chunks_cached run' coin 0 (length ws) ws l'
        (load_chunks-IsCached run coin 0 (length ws) ws l) in
    rw e (
      ap (trimmed start_later later) (
          load_chunks-stored run' coin 0 (length ws) ws l'
          ∙ ap (stored run' coin ws) still.0
          ∙ sym (load_chunks-stored run coin 0 (length ws) ws l)),
      still.1,
    )

-- The rows of a coin lie in [start, now), in the order of strictly increasing times.
pub load_coin-IsIncreasing :
    (run : Run) (start_ms : ℕ) (coin : String) (l : Loader)
    → IsIncreasing (λ c. c.t) (load_coin run start_ms coin l).0
      × All (λ c. (start_ms ≤ c.t) × (c.t < run.now_ms)) (load_coin run start_ms coin l).0
unfolding load_coin trimmed
load_coin-IsIncreasing run start_ms coin l =
    let rows = drop_repeats (λ (a b : Candle). a.t == b.t) [] (rows_of run start_ms coin l) in
    (
      keep-IsIncreasing (λ c. c.t) _ _
          (sort_rows-IsIncreasing (λ c. c.t) rows
            (drop_repeats-HasDistinctTimes (λ c. c.t) [] (rows_of run start_ms coin l))),
      All-weaken _ _ _ (λ c h. ground (arith, h)) (All-kept _ (sort_rows (λ c. c.t) rows)),
    )
