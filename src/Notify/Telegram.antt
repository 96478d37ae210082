-- ===== src/Notify/Telegram.antt =====
-- src/notify/telegram.py: the command router over the kill switch. The journal and the status provider answer or
-- raise, as the services of the kill switch do; a time is its ISO text.
pub mod Commands
use hta.Common.{
  String, Bool, true, false, Option, none, some, List, [], ◌∷◌, ◌++◌, same, if◌then◌else◌,
}
use hta.Formatted.{Text, lit, plain}
use hta.Strings.{strip, first_word, after_word, lower, is_empty_text}
use hta.Risk.KillSwitch.{Answer, returns, raises, Services, KillSwitch, halt, resume}

-- The payload of the journal's "telegram_in" event.
pub record Command : Type 0 where
  pub command : String
  pub arg : String

-- `TelegramNotifier.send` prints the message and appends it to the journal.
pub record Outgoing : Type 0 where
  pub ts : String
  pub message : Text

unfoldable pub send :
    (Outgoing → Answer (Unit {0})) → String → Text → List Text → List Text × Answer (Unit {0})
send append ts message printed =
    (printed ++ message ∷ [], append (record { ts = ts; message = message }))

pub record CommandRouter : Type 0 where
  pub kill_switch : KillSwitch
  pub telegram_in : List Command

-- What the router is given beside the kill switch.
pub record Surroundings : Type 0 where
  pub services : Services
  pub appends : Command → Answer (Unit {0})
  pub status : Answer String
  pub ts : String

-- `text.split(maxsplit=1)`, lowered, on a text that is not empty.
unfoldable pub command_of : String → Command
unfolding first_word after_word lower
command_of text = record { command = lower (first_word text); arg = after_word text }

abbrev pub manual_halt : String
manual_halt = "manual halt via Telegram"

abbrev pub reason_of : String → String
unfolding is_empty_text
reason_of arg = if is_empty_text arg then manual_halt else arg

-- The reply, unless the kill switch has raised.
abbrev pub reply_unless : Option String → Text → Answer Text
reply_unless none reply = returns reply
reply_unless (some error) reply = raises error

-- `_on_halt`
unfoldable pub on_halt : Surroundings → String → KillSwitch → KillSwitch × Answer Text
unfolding halt
on_halt w arg s =
    let (s', error) = halt w.services (plain (reason_of arg)) w.ts s in
    (s', reply_unless error (lit "halted: " ∷ lit (reason_of arg) ∷ []))

-- `_on_resume`
unfoldable pub on_resume : Surroundings → KillSwitch → KillSwitch × Answer Text
unfolding resume
on_resume w s =
    let (s', error) = resume w.services w.ts s in (s', reply_unless error (plain "resumed"))

-- `_on_status`
unfoldable pub on_status : Surroundings → KillSwitch → KillSwitch × Answer Text
on_status w s = elim w.status [
  | raises error ↦ (s, raises error)
  | returns body ↦
      (s, returns (lit (if s.halted then "HALTED" else "running") ∷ lit "\n" ∷ lit body ∷ []))
]

-- The handler of a command.
unfoldable pub handle : Surroundings → Command → KillSwitch → KillSwitch × Answer Text
unfolding on_halt on_resume on_status
handle w c s =
    if same c.command "/halt"
    then on_halt w c.arg s
    else if same c.command "/resume"
    then on_resume w s
    else if same c.command "/status"
    then on_status w s
    else (s, returns (plain "unknown command. supported: /halt, /resume, /status"))

-- The journal's entry, and the handler unless that raises.
unfoldable pub journal_and_handle :
    Surroundings → Command → CommandRouter → CommandRouter × Answer Text
unfolding handle
journal_and_handle w c r = elim (w.appends c) [
  | raises error ↦ (r, raises error)
  | returns _ ↦
      let (s, answer) = handle w c r.kill_switch in
      (record { kill_switch = s; telegram_in = r.telegram_in ++ c ∷ [] }, answer)
]

-- `CommandRouter.dispatch`
unfoldable pub dispatch : Surroundings → String → CommandRouter → CommandRouter × Answer Text
unfolding strip is_empty_text command_of journal_and_handle
dispatch w raw r =
    if is_empty_text (strip raw)
    then (r, returns (plain "empty command"))
    else journal_and_handle w (command_of (strip raw)) r
