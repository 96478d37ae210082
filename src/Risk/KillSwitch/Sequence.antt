-- ===== src/Risk/KillSwitch/Sequence.antt =====
-- The halt sequence against the kill switch contract of RISK.md.
use hta.Common.{
  String, ◌≡◌, refl, sym, ◌∙◌, Bool, true, false, not, none, some, List, [], ◌∷◌, ◌++◌, map, keep,
  ◌⊎◌, inl, inr, Bool-cases,
}
use mathlib.Core.List.{append_assoc, append-nil}
use hta.Decimal.{nought, ◌=?◌}
use hta.Formatted.{Text}
use hta.Risk.KillSwitch.{
  OpenOrderRef, PositionSnapshot, Answer, returns, raises, Services, KillSwitch, Event, Call,
  list_open_orders, list_positions, cancel, market_close, append, send, halt_event, resume_event,
  notify_error, or_empty, cancel_all, close_all, journal, notify, halt_entry, exchange_calls, halt,
  resume,
}

-- One cancellation for each listed order.
abbrev pub cancellations : List OpenOrderRef → List Call
cancellations = map (λ r. cancel r.symbol r.oid)

abbrev pub live : List PositionSnapshot → List PositionSnapshot
live = keep (λ p. not (p.size =? nought))

-- One market close for each listed position that is not flat.
abbrev pub closings : List PositionSnapshot → List Call
closings ps = map (λ p. market_close p.symbol) (live ps)

abbrev pub succeeds : Answer (Unit {0}) → Bool
succeeds (returns _) = true
succeeds (raises _) = false

cancel_all-trace :
    (w : Services) (rs : List OpenOrderRef) (t : List Call) (e : List Text)
    → (cancel_all w rs t e).0 ≡ t ++ cancellations rs
unfolding cancel_all
cancel_all-trace w [] t e = sym (append-nil t)
cancel_all-trace w (r ∷ rs) t e =
    cancel_all-trace w rs _ _ ∙ append_assoc t (cancel r.symbol r.oid ∷ []) (cancellations rs)

close_all-trace :
    (w : Services) (ps : List PositionSnapshot) (t : List Call) (c : List String) (e : List Text)
    → (close_all w ps t c e).0 ≡ t ++ closings ps
unfolding close_all
close_all-trace w [] t c e = sym (append-nil t)
close_all-trace w (p ∷ ps) t c e = elim (Bool-cases (p.size =? nought)) [
  | inl flat ↦ rw flat (close_all-trace w ps t c e)
  | inr open_ ↦
      rw open_
        (close_all-trace w ps _ _ _ ∙ append_assoc t (market_close p.symbol ∷ []) (closings ps))
]

-- The symbols that the market close got through for.
abbrev pub closed_symbols : Services → List PositionSnapshot → List String
closed_symbols w ps = keep (λ s. succeeds (w.closes s)) (map (λ p. p.symbol) (live ps))

Send-cases : (a : Answer (Unit {0})) → (a ≡ returns tt) ⊎ ((exc : String) × (a ≡ raises exc))
Send-cases (returns u) = inl refl
Send-cases (raises exc) = inr (exc, refl)

-- The calls on the exchange that a halt makes.
abbrev pub exchange_sequence : Services → List Call
exchange_sequence w =
    list_open_orders ∷ cancellations (or_empty w.open_orders)
    ++ list_positions ∷ closings (or_empty w.positions)

exchange_calls-trace :
    (w : Services) (t : List Call) → exchange_calls w t ≡ t ++ exchange_sequence w
unfolding exchange_calls
exchange_calls-trace w t =
    rw (close_all-trace w (or_empty w.positions), cancel_all-trace w (or_empty w.open_orders))
      (simp append_assoc)

-- The last calls: the notification, and a journal entry if it failed.
abbrev pub notification : Services → Text → String → String → List Call
notification w message ts place = send message ∷ elim (w.sends message) [
  | returns _ ↦ []
  | raises exc ↦ append (notify_error ts place exc) ∷ []
]

journal-returns :
    (w : Services) (e : Event) (s : KillSwitch)
    → w.appends e ≡ returns tt
    → journal w e s ≡ (record s { trace = s.trace ++ append e ∷ [] }, none)
unfolding journal
journal-returns w e s h = rw h

journal-raises :
    (w : Services) (e : Event) (s : KillSwitch) {exc : String}
    → w.appends e ≡ raises exc
    → journal w e s ≡ (record s { trace = s.trace ++ append e ∷ [] }, some exc)
unfolding journal
journal-raises w e s h = rw h

-- A notification never touches the flag.
notify-trace :
    (w : Services) (message : Text) (ts place : String) (s : KillSwitch)
    → ((notify w message ts place s).0.trace ≡ s.trace ++ notification w message ts place)
      × ((notify w message ts place s).0.halted ≡ s.halted)
unfolding notify journal
notify-trace w message ts place s = elim (Send-cases (w.sends message)) [
  | inl ok ↦ (rw (ok, notify), rw (ok, notify))
  | inr (exc, fails) ↦
      (rw (fails, notify) (append_assoc s.trace (send message ∷ []) _), rw (fails, notify))
]

-- A halt whose journal entry is refused still sets the flag and makes every call on the exchange. It
-- raises what the journal raised and sends no notification.
pub halt_unjournaled :
    (w : Services) (reason : Text) (ts exc : String) (s : KillSwitch)
    → s.halted ≡ false
    → w.appends (halt_event (halt_entry w reason ts)) ≡ raises exc
    → halt w reason ts s ≡ (
      record {
        halted = true;
        trace =
            (s.trace ++ exchange_sequence w) ++ append (halt_event (halt_entry w reason ts)) ∷ [];
      },
      some exc,
    )
unfolding halt
halt_unjournaled w reason ts exc s running refused =
    rw (running, journal-raises w _ _ refused, exchange_calls-trace w s.trace)

pub halt-halted :
    (w : Services) (reason : Text) (ts : String) (s : KillSwitch)
    → (halt w reason ts s).0.halted ≡ true
unfolding halt
halt-halted w reason ts s = elim (Bool-cases s.halted) [
  | inl h ↦ rw (h, halt)
  | inr running ↦
      rw (running, halt)
        (elim (Send-cases (w.appends (halt_event (halt_entry w reason ts)))) [
          | inl ok ↦ rw (journal-returns w _ _ ok) (notify-trace w _ ts "halt" _).1
          | inr (exc, refused) ↦ rw (journal-raises w _ _ refused)
        ])
]

-- However the calls of a halt end, the flag is set after it, and a second halt, with whatever services,
-- makes no call and raises nothing.
pub halt-halt :
    (w v : Services) (reason again : Text) (ts later : String) (s : KillSwitch)
    → let s' = (halt w reason ts s).0 in (s'.halted ≡ true) × (halt v again later s' ≡ (s', none))
unfolding halt
halt-halt w v reason again ts later s = let h = halt-halted w reason ts s in (h, rw (h, halt))

-- A resume leaves the flag clear, also where the journal or the notifier raise.
pub resume-halted : (w : Services) (ts : String) (s : KillSwitch) → (resume w ts s).0.halted ≡ false
unfolding resume
resume-halted w ts s = elim (Bool-cases s.halted) [
  | inr h ↦ rw (h, resume)
  | inl stopped ↦
      rw (stopped, resume)
        (elim (Send-cases (w.appends (resume_event ts))) [
          | inl ok ↦ rw (journal-returns w _ _ ok) (notify-trace w _ ts "resume" _).1
          | inr (exc, refused) ↦ rw (journal-raises w _ _ refused)
        ])
]
