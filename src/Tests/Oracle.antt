-- ===== src/Tests/Oracle.antt =====
-- src/execution/funding_rate_oracle.py on three assets at a quarter past five.
use hta.Common.{◌≡◌, refl, ◌⊎◌, some, [], ◌∷◌, All}
use hta.Decimal.{ratio}
use hta.Dict.{put, keys}
use hta.Execution.Tracker.{junk, number}
use hta.Execution.Oracle.{
  next_top_of_hour, Response, malformed, quotes, FundingRateOracle, read_quote, read_quotes,
  refresh_once,
}
use hta.Execution.Oracle.Fresh.{IsFresh, refresh_once-IsFresh}

abbrev oracle : FundingRateOracle
oracle = record { coins = "BTC" ∷ "ETH" ∷ []; latest = [] }

-- ETH does not parse, and nobody asked for DOGE.
abbrev response : Response
response = quotes (
    (some "BTC", some (number (ratio 2 999)))
    ∷ (some "ETH", some junk)
    ∷ (some "DOGE", some (number (ratio 9 999)))
    ∷ [])

one_rate : keys (refresh_once 18900000000 response oracle).latest ≡ "BTC" ∷ []
unfolding refresh_once read_quotes read_quote put
one_rate = refl

six_sharp : next_top_of_hour 18900000000 ≡ 21600000000
unfolding next_top_of_hour
six_sharp = refl

refresh_once-IsFresh_example :
    ((response ≡ malformed) × (refresh_once 18900000000 response oracle ≡ oracle))
    ⊎ All (IsFresh oracle.coins 18900000000) (refresh_once 18900000000 response oracle).latest
refresh_once-IsFresh_example = refresh_once-IsFresh 18900000000 response oracle
