-- ===== src/Execution/Oracle.antt =====
-- src/execution/funding_rate_oracle.py: `FundingRateOracle`. A time is a number of microseconds since the
-- epoch, in UTC, and the answer of `meta_and_asset_ctxs` is what the reader looks at.
pub mod Fresh
use hta.Common.{
  ℕ, ◌+◌, ◌*◌, ◌/◌, String, Bool, true, false, Option, none, some, List, [], ◌∷◌, any, same,
  if◌then◌else◌,
}
use hta.Decimal.{Decimal, ratio, nought}
use hta.Dict.{Dict, put, string_key}
use hta.Strategies.Capture.{FundingRateInfo}
use hta.Execution.Tracker.{Field, absent, null, junk, number}

abbrev pub hour : ℕ
hour = 3600000000

-- `(now + timedelta(hours=1)).replace(minute=0, second=0, microsecond=0)`
unfoldable pub next_top_of_hour : ℕ → ℕ
next_top_of_hour now = (now + hour) / hour * hour

-- Microseconds as seconds.
abbrev pub seconds : ℕ → Decimal
seconds t = ratio t 999999

-- An asset and its context: the name, where it has one, and the field "funding", where it is a dict.
abbrev pub Quote : Type 0
Quote = Option String × Option Field

pub data Response : Type 0 where
  -- Reading the pair raises, and the method returns early.
  malformed : Response
  -- The universe zipped with the contexts; nothing, where the answer is no list.
  quotes : List Quote → Response

pub record FundingRateOracle : Type 0 where
  pub coins : List String
  pub latest : Dict String FundingRateInfo

-- `Decimal(str(ctx.get("funding", "0")))`, where none is an exception that skips the asset.
abbrev pub rate_of : Field → Option Decimal
rate_of absent = some nought
rate_of null = none
rate_of junk = none
rate_of (number x) = some x

abbrev pub info : ℕ → String → Decimal → FundingRateInfo
info now name rate = record {
  coin = name;
  predicted_rate = rate;
  next_tick_time = seconds (next_top_of_hour now);
  as_of = seconds now;
}

-- The entry for one asset.
unfoldable pub read_quote : List String → ℕ → Quote → Option FundingRateInfo
read_quote coins now (none, ctx) = none
read_quote coins now (some name, none) = none
read_quote coins now (some name, some funding) =
    if any (same name) coins
    then elim (rate_of funding) [ none ↦ none | some rate ↦ some (info now name rate) ]
    else none

-- The loop over the assets, from `out` on.
unfoldable pub read_quotes :
    List String → ℕ → List Quote → Dict String FundingRateInfo → Dict String FundingRateInfo
unfolding read_quote put
read_quotes coins now [] out = out
read_quotes coins now (q ∷ qs) out = elim (read_quote coins now q) [
  | none ↦ read_quotes coins now qs out
  | some rate ↦ read_quotes coins now qs (put rate.coin rate out)
]

unfoldable pub refresh_once : ℕ → Response → FundingRateOracle → FundingRateOracle
unfolding read_quotes
refresh_once now malformed o = o
refresh_once now (quotes qs) o = record o { latest = read_quotes o.coins now qs [] }
