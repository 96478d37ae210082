-- ===== src/Marketdata/Client/Silence.antt =====
-- src/marketdata/ws_client.py: how often the client reports silence, and how long it waits.
use hta.Common.{
  ℕ, ◌+◌, ◌≤◌, ◌<◌, ◌≡◌, Bool, true, false, not, ◌&&◌, List, [], ◌∷◌, ◌++◌, All, arith, Bool-cases,
  inl, inr,
}
use hta.Decimal.{Decimal, whole, ◌⊖◌, ◌⊗◌, ◌≤?◌, lesser}
use hta.Decimal.Order.{◌≼◌, ≼_cross, ≼_refl, lesser-≼_right, ≼-lesser}
use hta.Marketdata.Client.{
  Emission, connected, stale, disconnected, Client, on_connect, on_message, check_stale, ◌⇒◌,
  connects, receives, watches, Reaches, starts, steps, Ending, clean, error, backoffs,
}

abbrev pub is_stale : Emission → ℕ
is_stale connected = 0
is_stale (stale elapsed) = 1
is_stale (disconnected exc) = 0

-- The number of reports of silence.
abbrev pub stale_count : List Emission → ℕ
stale_count [] = 0
stale_count (e ∷ es) = is_stale e + stale_count es

stale_count-append :
    (xs ys : List Emission) → stale_count (xs ++ ys) ≡ stale_count xs + stale_count ys
stale_count-append [] ys = omega arith
stale_count-append (x ∷ xs) ys = omega (arith, stale_count-append xs ys)

-- Arrivals that no report of silence has answered yet.
abbrev pub pending : Bool → ℕ
pending true = 0
pending false = 1

-- The reports, and the one that may follow, are no more than connections and messages.
abbrev pub IsQuiet : Client → Type 0
IsQuiet c =
    (stale_count c.emissions ≤ c.connection_count + c.messages)
    × (0 < c.connection_count
        → stale_count c.emissions + pending c.stale_emitted ≤ c.connection_count + c.messages)

check_stale-IsQuiet :
    (now : Decimal) (c : Client)
    → stale_count c.emissions + pending c.stale_emitted ≤ c.connection_count + c.messages
    → IsQuiet (check_stale now c)
unfolding check_stale
check_stale-IsQuiet now c h =
    elim (Bool-cases (c.stale_seconds ≤? (now ⊖ c.last_msg_at) && not c.stale_emitted)) [
      | inr e ↦ rw (e, check_stale) (omega (arith, h), λ opened. h)
      | inl e ↦
          rw (e, check_stale)
            (let counted = stale_count-append c.emissions (stale (now ⊖ c.last_msg_at) ∷ []) in
              let waiting : pending c.stale_emitted ≡ 1 = ground arith in
              (omega (arith, counted, waiting, h), λ opened. omega (arith, counted, waiting, h)))
    ]

step-IsQuiet : {c d : Client} → c ⇒ d → IsQuiet c → IsQuiet d
unfolding on_connect on_message check_stale
step-IsQuiet (connects now c) h =
    let counted = stale_count-append c.emissions (connected ∷ []) in
    (omega (arith, counted, h.0), λ opened. omega (arith, counted, h.0))
step-IsQuiet (receives now c opened) h = (omega (arith, h.0), λ again. ground (arith, h.0))
step-IsQuiet (watches now c opened) h = check_stale-IsQuiet now c (h.1 opened)

Reaches-IsQuiet : {stale_seconds : Decimal} {c : Client} → Reaches stale_seconds c → IsQuiet c
Reaches-IsQuiet starts = (omega arith, λ opened. omega (arith, opened))
Reaches-IsQuiet (steps c d r s) = step-IsQuiet s (Reaches-IsQuiet r)

-- In every run the client reports silence at most once for each connection and each message: a silence
-- is reported once, however long it lasts.
pub stale_count_reached :
    (stale_seconds : Decimal) (c : Client)
    → Reaches stale_seconds c
    → stale_count c.emissions ≤ c.connection_count + c.messages
stale_count_reached stale_seconds c r = (Reaches-IsQuiet r).0

doubled : (b : Decimal) → whole 1 ≼ b → whole 1 ≼ b ⊗ whole 2
unfolding ◌⊗◌
doubled b h = (≼_cross (whole 1) (b ⊗ whole 2)).1 (omega (arith, (≼_cross (whole 1) b).0 h))

-- However the connections end, every wait before the next one lasts at least a second and at most
-- `max_backoff`, which is a second or more.
pub backoffs_bounded :
    (max_backoff : Decimal) (endings : List Ending) (backoff : Decimal)
    → whole 1 ≼ max_backoff
    → whole 1 ≼ backoff
    → backoff ≼ max_backoff
    → All (λ b. (whole 1 ≼ b) × (b ≼ max_backoff)) (backoffs max_backoff endings backoff)
unfolding backoffs
backoffs_bounded m [] b hm hb h = tt
backoffs_bounded m (clean ∷ endings) b hm hb h =
    backoffs_bounded m endings (whole 1) hm (≼_refl (whole 1)) hm
backoffs_bounded m (error exc ∷ endings) b hm hb h = (
  (hb, h),
  backoffs_bounded m endings (lesser (b ⊗ whole 2) m) hm
      (≼-lesser (whole 1) (b ⊗ whole 2) m (doubled b hb) hm) (lesser-≼_right (b ⊗ whole 2) m),
)
