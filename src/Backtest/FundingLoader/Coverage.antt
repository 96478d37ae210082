-- ===== src/Backtest/FundingLoader/Coverage.antt =====
-- src/backtest/funding_data_loader.py: the loop of `fetch_funding_history` ends, and covers its interval.
use hta.Common.{
  ℕ, zero, suc, ◌+◌, ◌-◌, ◌≤◌, ◌<◌, ◌≡◌, refl, ap, String, Option, some, map_some, List, [], ◌∷◌,
  ◌++◌, All, arith, ltb, Bool-cases, inl, inr,
}
use hta.Backtest.Frames.{sort_rows, drop_repeats}
use hta.Backtest.Loader.Windows.{IsChain}
use hta.Backtest.FundingLoader.{
  RawFunding, FundingTick, Span, Files, funding_window, load_span, span_of, window_end,
  funding_frame, fetch_windows, same_tick, fetch_funding_history,
}

module _ (funding_history : Span → List RawFunding) where
  -- Given windows, loaded one after the other.
  unfoldable pub load_each :
      String → List (ℕ × ℕ) → Files FundingTick → List FundingTick × Files FundingTick
  unfolding load_span
  load_each coin [] files = ([], files)
  load_each coin (w ∷ ws) files =
      let (df, files') = load_span (funding_frame funding_history) (span_of coin w.0 w.1) files in
      let (rest, files'') = load_each coin ws files' in (df ++ rest, files'')

  -- The loop has loaded windows that follow each other from the one time to the other, each of which is at most 14
  -- days long.
  abbrev pub IsCoverage :
      String → ℕ → ℕ → Files FundingTick → Option (List FundingTick × Files FundingTick) → Type 0
  IsCoverage coin cursor stop files answer =
      (ws : List (ℕ × ℕ)) × IsChain cursor ws stop
      × All (λ w. w.1 ≤ w.0 + funding_window) ws
      × (answer ≡ some (load_each coin ws files))

  next_window :
      (cursor stop : ℕ)
      → cursor < stop
      → (cursor < window_end cursor stop)
        × (window_end cursor stop ≤ stop)
        × (window_end cursor stop ≤ cursor + funding_window)
  unfolding window_end
  next_window cursor stop h = ground (arith, h)

  fetch_windows-IsCoverage :
      (fuel : ℕ) (coin : String) (cursor stop : ℕ) (files : Files FundingTick)
      → cursor ≤ stop
      → stop - cursor < fuel
      → IsCoverage coin cursor stop files
          (fetch_windows funding_history fuel coin cursor stop files)
  unfolding fetch_windows load_each
  fetch_windows-IsCoverage zero coin cursor stop files h m = absurd (omega (arith, m))
  fetch_windows-IsCoverage (suc fuel) coin cursor stop files h m =
      elim (Bool-cases (ltb cursor stop)) [
        | inr e ↦ rw (e, fetch_windows) ([], ground (arith, e, h), tt, refl)
        | inl e ↦
            let next = window_end cursor stop in
            let (later, within, short) = next_window cursor stop (ground (arith, e)) in
            let span = span_of coin cursor next in
            let files' = (load_span (funding_frame funding_history) span files).1 in
            let (ws, chain, bounded, same_answer) =
              fetch_windows-IsCoverage fuel coin next stop files' within
                (omega (arith, m, later, within)) in
            rw (e, fetch_windows)
              (
                (cursor, next) ∷ ws,
                (refl, later, chain),
                (short, bounded),
                ap
                    (map_some (λ (r : List FundingTick × Files FundingTick).
                      ((load_span (funding_frame funding_history) span files).0 ++ r.0, r.1)))
                    same_answer,
              )
      ]

-- fetch_funding_history always returns: its loop ends, having loaded windows that follow each other without a gap
-- from the start to the end, each later than the one before and at most 14 days long, and the rows are
-- theirs, sorted and without repeats.
pub fetch_funding_history_returns :
    (funding_history : Span → List RawFunding) (coin : String) (start stop : ℕ)
    (files : Files FundingTick)
    → start ≤ stop
    → (ws : List (ℕ × ℕ)) × IsChain start ws stop
      × All (λ w. w.1 ≤ w.0 + funding_window) ws
      × (fetch_funding_history funding_history coin start stop files
          ≡ some (
            sort_rows
                (λ (t : FundingTick). t.tick_time)
                (drop_repeats same_tick [] (load_each funding_history coin ws files).0),
            (load_each funding_history coin ws files).1,
          ))
unfolding fetch_funding_history
fetch_funding_history_returns funding_history coin start stop files h =
    let (ws, chain, bounded, e) =
      fetch_windows-IsCoverage funding_history (suc (stop - start)) coin start stop files h
        (omega arith) in
    (
      ws,
      chain,
      bounded,
      ap
          (map_some (λ (r : List FundingTick × Files FundingTick).
            (sort_rows (λ (t : FundingTick). t.tick_time) (drop_repeats same_tick [] r.0), r.1)))
          e,
    )
