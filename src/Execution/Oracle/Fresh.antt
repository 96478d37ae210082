-- ===== src/Execution/Oracle/Fresh.antt =====
-- src/execution/funding_rate_oracle.py: what a refresh keeps.
use hta.Common.{
  ℕ, ◌+◌, ◌*◌, ◌/◌, ◌<◌, ◌≤◌, String, ◌≡◌, refl, subst, ◌⊎◌, true, none, some, List, [], ◌∷◌, any,
  All, same, arith, inl, inr, Option-cases, Bool-cases,
}
use hta.Decimal.{Decimal}
use hta.Dict.{Dict, put, All-put, string_key}
use hta.Strategies.Capture.{FundingRateInfo}
use hta.Execution.Oracle.{
  hour, next_top_of_hour, seconds, Quote, Response, malformed, quotes, FundingRateOracle, rate_of,
  info, read_quote, read_quotes, refresh_once,
}

-- The next tick is the first full hour after now.
next_top_of_hour_bounds :
    (now : ℕ) → (now < next_top_of_hour now) × (next_top_of_hour now ≤ now + hour)
unfolding next_top_of_hour
next_top_of_hour_bounds now = (omega arith, omega arith)

-- A rate of a configured coin, under that coin, as of `now`, for a tick on the first full hour after it.
pub record IsFresh (coins : List String) (now : ℕ) (e : String × FundingRateInfo) : Type 0 where
  pub configured : any (same e.0) coins ≡ true
  pub keyed : e.1.coin ≡ e.0
  pub current : e.1.as_of ≡ seconds now
  pub upcoming :
      (tick : ℕ) × (e.1.next_tick_time ≡ seconds tick)
      × (now < tick)
      × (tick ≤ now + hour)
      × ((k : ℕ) × (tick ≡ k * hour))

info-IsFresh :
    (coins : List String) (now : ℕ) (name : String) (rate : Decimal)
    → any (same name) coins ≡ true
    → IsFresh coins now (name, info now name rate)
unfolding next_top_of_hour
info-IsFresh coins now name rate h = record {
  configured = h;
  keyed = refl;
  current = refl;
  upcoming = (
    next_top_of_hour now,
    refl,
    (next_top_of_hour_bounds now).0,
    (next_top_of_hour_bounds now).1,
    ((now + hour) / hour, refl),
  );
}

read_quote-IsFresh :
    (coins : List String) (now : ℕ) (q : Quote) (rate : FundingRateInfo)
    → read_quote coins now q ≡ some rate
    → IsFresh coins now (rate.coin, rate)
unfolding read_quote
read_quote-IsFresh coins now (none, ctx) rate h = cc
read_quote-IsFresh coins now (some name, none) rate h = cc
read_quote-IsFresh coins now (some name, some funding) rate h =
    elim (Bool-cases (any (same name) coins)) [
      | inr e ↦ absurd (let bad : none ≡ some rate = rw e at h in cc)
      | inl e ↦ elim (Option-cases (rate_of funding)) [
        | inl e' ↦ absurd (let bad : none ≡ some rate = ground arith in cc)
        | inr (x, e') ↦
            let found : info now name x ≡ rate = ground arith in
            subst (λ r. IsFresh coins now (r.coin, r)) found (info-IsFresh coins now name x e)
      ]
    ]

read_quotes-IsFresh :
    (coins : List String) (now : ℕ) (qs : List Quote) (out : Dict String FundingRateInfo)
    → All (IsFresh coins now) out
    → All (IsFresh coins now) (read_quotes coins now qs out)
unfolding read_quotes
read_quotes-IsFresh coins now [] out h = h
read_quotes-IsFresh coins now (q ∷ qs) out h = elim (Option-cases (read_quote coins now q)) [
  | inl e ↦ rw (e, read_quotes) (read_quotes-IsFresh coins now qs out h)
  | inr (rate, e) ↦
      rw (e, read_quotes)
        (read_quotes-IsFresh coins now qs (put rate.coin rate out) (
          All-put (IsFresh coins now) rate.coin rate out (read_quote-IsFresh coins now q rate e) h))
]

-- A refresh that reads its answer leaves only rates of configured coins, each under its coin, as of the
-- time of the refresh and for a tick on the first full hour after it; a malformed answer leaves the
-- rates as they were.
pub refresh_once-IsFresh :
    (now : ℕ) (response : Response) (o : FundingRateOracle)
    → ((response ≡ malformed) × (refresh_once now response o ≡ o))
      ⊎ All (IsFresh o.coins now) (refresh_once now response o).latest
unfolding refresh_once
refresh_once-IsFresh now malformed o = inl (refl, refl)
refresh_once-IsFresh now (quotes qs) o = inr (read_quotes-IsFresh o.coins now qs [] tt)
