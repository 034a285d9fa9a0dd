-- ===== src/AgentLoop/Turn.antt =====
-- crates/pirs-agent/src/agent_loop/mod.rs, lines 92 to 423: `run_agent_loop`. One round of the inner
-- loop is `turn`; the two loops are `run_loop`, on fuel, of which every round takes one.
use pirs.Prelude.{
  ℕ, zero, suc, Bool, true, false, ◌||◌, Option, none, some, List, [], ◌∷◌, ◌++◌, if◌then◌else◌,
}
use pirs.Prelude.Text.{Text}
use pirs.Json.{JsonLib}
use pirs.Message.{AssistantMessage, ToolResultMessage, Message, assistant}
use pirs.ToolExec.Host.{
  agent_start, agent_end, turn_start, turn_end, message_end, steering, follow_up,
}
use pirs.ToolExec.Prepare.{extract_tool_calls}
use pirs.AgentLoop.State.{BudgetHit, LoopConfig, LoopState, emit_all, at_world, say_all}
use pirs.AgentLoop.Freeform.{freeform_tool_repair_nudge}
use pirs.AgentLoop.Stream.{stream_assistant}
use pirs.AgentLoop.Results.{
  Next, over, again, is_failure, nonempty, abort_turn, nudge_turn, answer_calls, attach_results,
}
use pirs.AgentLoop.Close.{check_thrash}

module _ (J : JsonLib) (W : Type 0) (cfg : LoopConfig J.Value W) where
  open J use {Value}

  -- `TurnEnd` and the checks after it.
  unfoldable pub end_turn :
      Bool
      → AssistantMessage Value
      → LoopState Value W × List (ToolResultMessage Value)
      → LoopState Value W × Next
  end_turn had_calls a (s, results) =
      check_thrash J W cfg had_calls results (emit_all (turn_end a results ∷ []) s)

  unfoldable pub tool_turn : AssistantMessage Value → LoopState Value W → LoopState Value W × Next
  tool_turn a s =
      let had_calls = nonempty (extract_tool_calls a) in
      end_turn had_calls a (attach_results J W cfg had_calls (answer_calls J W cfg a s))

  -- A nudge, once, for an answer without calls.
  unfoldable pub wants_nudge : AssistantMessage Value → LoopState Value W → Option Text
  wants_nudge a s =
      if nonempty (extract_tool_calls a) || s.nudge_sent then none else freeform_tool_repair_nudge a

  unfoldable pub answer_or_nudge :
      AssistantMessage Value → LoopState Value W → Option Text → LoopState Value W × Next
  answer_or_nudge a s none = tool_turn a s
  answer_or_nudge a s (some nudge) = nudge_turn J W cfg nudge s

  unfoldable pub after_stream :
      LoopState Value W × AssistantMessage Value → LoopState Value W × Next
  after_stream (s, a) =
      let s' =
        emit_all (message_end (assistant a) ∷ [])
          (record s { new_messages = s.new_messages ++ assistant a ∷ [] }) in
      if is_failure a.stop_reason
      then abort_turn J W cfg a s'
      else answer_or_nudge a s' (wants_nudge a s')

  -- The pending messages enter the conversation.
  unfoldable pub drain_pending : LoopState Value W → LoopState Value W
  drain_pending s = say_all s.pending (record s { pending = []; first_turn = false })

  unfoldable pub turn : LoopState Value W → LoopState Value W × Next
  turn s = after_stream (stream_assistant cfg (drain_pending s))

  -- The test of the inner loop; if it fails, the follow-up messages, without which the run ends.
  unfoldable pub inner_test : LoopState Value W → Bool
  inner_test s = s.has_more_tool_calls || nonempty s.pending || s.first_turn

  unfoldable pub after_follow_up :
      LoopState Value W → W × List (Message Value) → LoopState Value W × Bool
  after_follow_up s (w, []) = (emit_all (agent_end s.new_messages ∷ []) (at_world w s), false)
  after_follow_up s (w, m ∷ ms) =
      (at_world w (record s { pending = m ∷ ms; has_more_tool_calls = true }), true)

  -- The state of the next round and whether there is one.
  unfoldable pub next_round : LoopState Value W → LoopState Value W × Bool
  next_round s =
      if inner_test s then (s, true) else after_follow_up s (follow_up cfg.hooks s.run.world)

  unfoldable pub after_turn :
      LoopState Value W × Next
      → (LoopState Value W → Option (LoopState Value W × Option BudgetHit))
      → Option (LoopState Value W × Option BudgetHit)
  after_turn (t, over hit) rest = some (t, hit)
  after_turn (t, again) rest = rest t

  -- A round, and how the run goes on after it: by the last argument.
  unfoldable pub run_step :
      LoopState Value W × Bool
      → (LoopState Value W → Option (LoopState Value W × Option BudgetHit))
      → Option (LoopState Value W × Option BudgetHit)
  run_step (s, false) rest = some (s, none)
  run_step (s, true) rest = after_turn (turn s) rest

  unfoldable pub run_loop : ℕ → LoopState Value W → Option (LoopState Value W × Option BudgetHit)
  run_loop zero s = none
  run_loop (suc fuel) s = run_step (next_round s) (run_loop fuel)

  unfoldable pub begin_with : LoopState Value W → W × List (Message Value) → LoopState Value W
  begin_with s (w, steers) =
      at_world w (record s { pending = steers; first_turn = true; has_more_tool_calls = true })

  -- The variables that the function declares.
  unfoldable pub fresh : LoopState Value W → LoopState Value W
  fresh s = record s {
    new_messages = [];
    pending = [];
    turn_count = 0;
    tool_call_count = 0;
    nudge_sent = false;
  }

  -- The prompts enter the conversation, and the first steering is polled.
  unfoldable pub begin : List (Message Value) → LoopState Value W → LoopState Value W
  begin prompts s =
      let s' = say_all prompts (emit_all (agent_start ∷ turn_start ∷ []) (fresh s)) in
      begin_with s' (steering cfg.hooks s'.run.world)

  unfoldable pub run_agent_loop :
      ℕ → List (Message Value) → LoopState Value W → Option (LoopState Value W × Option BudgetHit)
  run_agent_loop fuel prompts s = run_loop fuel (begin prompts s)
