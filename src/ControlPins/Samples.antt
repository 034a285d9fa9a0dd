-- ===== src/ControlPins/Samples.antt =====
-- Reminders and tool results in a small conversation.
use mathlib.Core.List.{Perm}
use pirs.Prelude.{◌≡◌, true, false, none, List, [], ◌∷◌, ◌&&◌, if◌then◌else◌}
use pirs.Prelude.Lists.{count, any}
use pirs.Prelude.Text.{Text, lit, one_of}
use pirs.SampleJson.{SampleValue, null}
use pirs.Message.{
  StopReason, zero_usage, text, tool_call, plain, Message, user, assistant, tool_result,
}
use pirs.ControlPins.Pins.{
  protected_kinds, wrap_reminder, is_reminder_kind, preserve_control_pins,
  enforce_tool_result_adjacency,
}
use pirs.ControlPins.Preserve.{preserve_control_pins-count}
use pirs.ControlPins.Adjacency.{outside, results_adjacent, enforce_adjacent}

abbrev said : Text → Message SampleValue
said t = user (record { content = plain t; timestamp = 1 })

abbrev called : Message SampleValue
called = assistant (record {
  content = tool_call (lit "1") (lit "read") null none ∷ [];
  api = lit "chat";
  provider = lit "p";
  model = lit "m";
  usage = zero_usage;
  stop_reason = StopReason.tool_use;
  error_message = none;
  timestamp = 2;
})

abbrev resulted : Message SampleValue
resulted = tool_result (record {
  tool_call_id = lit "1";
  tool_name = lit "read";
  content = text (lit "ok") none ∷ [];
  details = none;
  is_error = false;
  terminate = false;
  timestamp = 3;
})

-- A steering message stands between the call and its result.
abbrev interrupted : List (Message SampleValue)
interrupted = called ∷ said (lit "stop") ∷ resulted ∷ said (lit "more") ∷ []

abbrev pinned : List (Message SampleValue)
pinned = said (wrap_reminder (lit "verify") (lit "tests fail")) ∷ interrupted

preserve_control_pins-count_example :
    count (is_reminder_kind (lit "verify")) (preserve_control_pins pinned interrupted) ≡ (
      if any (is_reminder_kind (lit "verify")) interrupted
      then count (is_reminder_kind (lit "verify")) interrupted
      else if one_of (lit "verify") protected_kinds && any (is_reminder_kind (lit "verify")) pinned
      then 1
      else 0)
preserve_control_pins-count_example = preserve_control_pins-count pinned interrupted (lit "verify")

enforce_adjacent_example :
    Perm (enforce_tool_result_adjacency interrupted) interrupted
    × (results_adjacent outside (enforce_tool_result_adjacency interrupted) ≡ true)
enforce_adjacent_example = enforce_adjacent interrupted
