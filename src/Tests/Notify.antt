-- ===== src/Tests/Notify.antt =====
-- src/notify/telegram.py: an emergency stop by message, while the exchange does not answer.
use hta.Common.{◌≡◌, refl, not, ◌||◌, [], if◌then◌else◌}
use hta.Strings.{strip, left_strip, right_strip, first_word, after_word, lower, is_empty_text}
use hta.Risk.KillSwitch.{Services, returns, raises, initial}
use hta.Notify.Telegram.{CommandRouter, Surroundings, command_of, dispatch}
use hta.Notify.Telegram.Commands.{accepted, flag_after, dispatch-halted}

abbrev deaf : Services
deaf = record {
  open_orders = raises "ReadTimeout()";
  positions = raises "ReadTimeout()";
  cancels = λ _ _. returns tt;
  closes = λ _. returns tt;
  appends = λ _. returns tt;
  sends = λ _. raises "ReadTimeout()";
}

abbrev surroundings : Surroundings
surroundings = record {
  services = deaf;
  appends = λ _. returns tt;
  status = returns "flat";
  ts = "2026-01-01T00:00:00+00:00";
}

abbrev router : CommandRouter
router = record { kill_switch = initial; telegram_in = [] }

-- White space and case do not matter.
parsed :
    command_of (strip "  /Halt  too much loss \n")
    ≡ record { command = "/halt"; arg = "too much loss" }
unfolding command_of strip left_strip right_strip first_word after_word lower
parsed = refl

dispatch-halted_example : (dispatch surroundings "/halt now" router).0.kill_switch.halted ≡ (
    if is_empty_text (strip "/halt now")
      || not (accepted (surroundings.appends (command_of (strip "/halt now"))))
    then router.kill_switch.halted
    else flag_after (command_of (strip "/halt now")) router.kill_switch.halted)
dispatch-halted_example = dispatch-halted surroundings "/halt now" router
