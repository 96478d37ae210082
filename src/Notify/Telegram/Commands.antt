-- ===== src/Notify/Telegram/Commands.antt =====
-- src/notify/telegram.py: what a command does to the kill switch.
use hta.Common.{
  String, ◌≡◌, refl, ◌∙◌, Bool, true, false, not, ◌||◌, ◌&&◌, ◌⊎◌, arith, same, if◌then◌else◌,
  Bool-cases, inl, inr,
}
use hta.Formatted.{plain}
use hta.Strings.{strip, is_empty_text}
use hta.Risk.KillSwitch.{Answer, returns, raises, KillSwitch}
use hta.Risk.KillSwitch.Sequence.{halt-halted, resume-halted}
use hta.Notify.Telegram.{
  Command, CommandRouter, Surroundings, command_of, reason_of, on_halt, on_resume, on_status,
  handle, journal_and_handle, dispatch,
}

abbrev pub accepted : {A : Type 0} → Answer A → Bool
accepted (returns _) = true
accepted (raises _) = false

-- The flag that the command leaves when it is carried out.
abbrev pub flag_after : Command → Bool → Bool
flag_after c halted = same c.command "/halt" || (halted && not (same c.command "/resume"))

clear : (b : Bool) → false ≡ (b && false)
clear true = refl
clear false = refl

same_flag : (b : Bool) → b ≡ (b && true)
same_flag true = refl
same_flag false = refl

on_status-halted : (w : Surroundings) (s : KillSwitch) → (on_status w s).0.halted ≡ s.halted
unfolding on_status
on_status-halted w s = ground arith

answers :
    {A : Type 0} (x : Answer A) → ((a : A) × (x ≡ returns a)) ⊎ ((e : String) × (x ≡ raises e))
answers (returns a) = inl (a, refl)
answers (raises e) = inr (e, refl)

handle-halted :
    (w : Surroundings) (c : Command) (s : KillSwitch)
    → (handle w c s).0.halted ≡ flag_after c s.halted
unfolding handle on_halt on_resume
handle-halted w c s = elim (Bool-cases (same c.command "/halt")) [
  | inl h ↦ rw (h, handle) (halt-halted w.services (plain (reason_of c.arg)) w.ts s)
  | inr h ↦ elim (Bool-cases (same c.command "/resume")) [
    | inl k ↦ rw (h, k, handle) (resume-halted w.services w.ts s ∙ clear s.halted)
    | inr k ↦ elim (Bool-cases (same c.command "/status")) [
      | inl l ↦ rw (h, k, l, handle) (on_status-halted w s ∙ same_flag s.halted)
      | inr l ↦ rw (h, k, l, handle) (same_flag s.halted)
    ]
  ]
]

-- The flag of the kill switch after a message: as before for an empty text, and when the journal refuses the
-- entry that comes first; else set by /halt and clear after /resume, in any case of letters, with any
-- argument and however the calls end, and as before for every other text.
pub dispatch-halted :
    (w : Surroundings) (raw : String) (r : CommandRouter)
    → (dispatch w raw r).0.kill_switch.halted ≡ (
        if is_empty_text (strip raw) || not (accepted (w.appends (command_of (strip raw))))
        then r.kill_switch.halted
        else flag_after (command_of (strip raw)) r.kill_switch.halted)
unfolding dispatch journal_and_handle
dispatch-halted w raw r =
    let c = command_of (strip raw) in
    elim (Bool-cases (is_empty_text (strip raw))) [
      | inl e ↦ rw (e, dispatch) refl
      | inr e ↦ elim (answers (w.appends c)) [
        | inl (ok, a) ↦ rw (e, a, dispatch, journal_and_handle) (handle-halted w c r.kill_switch)
        | inr (exc, a) ↦ rw (e, a, dispatch, journal_and_handle) refl
      ]
    ]
