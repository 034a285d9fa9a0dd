-- ===== src/AgentLoop/Close.antt =====
-- crates/pirs-agent/src/agent_loop/mod.rs, lines 300 to 411: the checks after a turn.
use pirs.Prelude.{
  ◌+◌, Bool, true, false, not, ◌&&◌, ◌||◌, Option, none, some, List, [], ◌++◌, map, if◌then◌else◌,
}
use pirs.Prelude.Lists.{all, length}
use pirs.Prelude.Text.{Text, lit}
use pirs.Json.{JsonLib}
use pirs.Message.{ToolResultMessage, Message, user_message}
use pirs.Compaction.Cut.{CompactionConfig, should_compact, estimate_tokens}
use pirs.Compaction.Compact.{State, compact_messages, last_input_tokens}
use pirs.Compaction.Shrink.{shrink_oversized_tool_results}
use pirs.Hybrid.{HybridInner, on_thrash}
use pirs.Thrash.Detectors.{Stop, stop_text, take_stop}
use pirs.ToolExec.Host.{compaction, steering}
use pirs.ToolExec.Caps.{model_max_tool_result_chars}
use pirs.AgentLoop.State.{
  BudgetHit, turns, wall_time, tool_calls, LoopConfig, LoopState, emit_all, at_world, say,
}
use pirs.AgentLoop.Results.{Next, again, nonempty, reached, now, finish_run}

module _ (J : JsonLib) (W : Type 0) (cfg : LoopConfig J.Value W) where
  open J use {Value}

  unfoldable pub hard_stop : Text → LoopState Value W → LoopState Value W × Next
  hard_stop msg s =
      finish_run J W cfg none
        (say (user_message (now J W cfg s) (lit "[system thrash stop] " ++ msg)) s)

  unfoldable pub budget_hit : LoopState Value W → Option BudgetHit
  budget_hit s =
      if reached cfg.budgets.max_turns s.turn_count
      then some turns
      else if reached cfg.budgets.max_tool_calls s.tool_call_count
      then some tool_calls
      else if reached cfg.budgets.max_wall_time (cfg.elapsed s.run.world)
      then some wall_time
      else none

  -- The state of the compaction, put back.
  unfoldable pub with_compacted : LoopState Value W → State Value → LoopState Value W
  with_compacted s c =
      emit_all (map compaction c.events)
        (record s { messages = c.messages; extra_usage = c.extra_usage; memory = c.memory })

  unfoldable pub is_over : CompactionConfig → List (Message Value) → Bool
  is_over c messages =
      elim (last_input_tokens messages) [ none ↦ false | some t ↦ should_compact t c ]
      || should_compact (estimate_tokens J messages) c

  unfoldable pub compact_with : CompactionConfig → LoopState Value W → LoopState Value W
  compact_with c s =
      let shrunk = (shrink_oversized_tool_results J model_max_tool_result_chars s.messages).0 in
      let before : State Value = record {
        messages = shrunk;
        extra_usage = s.extra_usage;
        memory = s.memory;
        events = [];
      } in
      with_compacted s
        (compact_messages J (cfg.summarizer s.run.world) (now J W cfg s) cfg.model c before).0

  unfoldable pub compact_if_over : Option CompactionConfig → LoopState Value W → LoopState Value W
  compact_if_over none s = s
  compact_if_over (some c) s = if is_over c s.messages then compact_with c s else s

  abbrev should_stop : LoopState Value W → W × Bool
  should_stop s = elim cfg.hooks.should_stop_after_turn [
    | none ↦ (s.run.world, false)
    | some f ↦ f s.messages s.run.world
  ]

  -- Steering that arrived during the turn is queued.
  unfoldable pub queue_steers :
      LoopState Value W → W × List (Message Value) → LoopState Value W × Next
  queue_steers s (w, more) = (at_world w (record s { pending = s.pending ++ more }), again)

  unfoldable pub after_stop_hook : LoopState Value W → W × Bool → LoopState Value W × Next
  after_stop_hook s (w, true) = finish_run J W cfg none (at_world w s)
  after_stop_hook s (w, false) = queue_steers (at_world w s) (steering cfg.hooks w)

  -- The compaction, and what the next round needs.
  unfoldable pub close_with :
      Bool
      → List (ToolResultMessage Value)
      → LoopState Value W
      → Option BudgetHit
      → LoopState Value W × Next
  close_with had_calls results s (some hit) = finish_run J W cfg (some hit) s
  close_with had_calls results s none =
      let batch_terminate = nonempty results && all (λ r. r.terminate) results in
      let s' = record (compact_if_over cfg.compaction s) {
        has_more_tool_calls = had_calls && not batch_terminate;
      } in
      after_stop_hook s' (should_stop s')

  -- The counters and the budgets.
  unfoldable pub close_turn :
      Bool → List (ToolResultMessage Value) → LoopState Value W → LoopState Value W × Next
  close_turn had_calls results s =
      let s' = record s {
        turn_count = s.turn_count + 1;
        tool_call_count = s.tool_call_count + length results;
      } in
      close_with had_calls results s' (budget_hit s')

  -- What the advisor says to a thrash, if it says anything.
  unfoldable pub after_advisor :
      Text
      → List (ToolResultMessage Value)
      → LoopState Value W
      → HybridInner × Option Text
      → LoopState Value W × Next
  after_advisor msg results s (hy, none) = hard_stop msg (record s { hybrid = some hy })
  after_advisor msg results s (hy, some guidance) =
      let said = say (user_message (now J W cfg s) guidance) (record s { hybrid = some hy }) in
      (
        record said {
          turn_count = said.turn_count + 1;
          tool_call_count = said.tool_call_count + length results;
        },
        again,
      )

  unfoldable pub advise_stop :
      Text
      → List (ToolResultMessage Value)
      → LoopState Value W
      → Option HybridInner
      → LoopState Value W × Next
  advise_stop msg results s none = hard_stop msg s
  advise_stop msg results s (some hy) =
      after_advisor msg results s (on_thrash (cfg.strong_model s.run.world) msg s.messages hy)

  unfoldable pub on_stop :
      List (ToolResultMessage Value) → LoopState Value W → Option Stop → LoopState Value W × Next
  on_stop results s none = close_turn true results s
  on_stop results s (some stop) = advise_stop (stop_text stop) results s s.hybrid

  -- The guard's stop is taken only after a turn with calls.
  unfoldable pub check_thrash :
      Bool → List (ToolResultMessage Value) → LoopState Value W → LoopState Value W × Next
  check_thrash false results s = close_turn false results s
  check_thrash true results s = elim s.run.thrash [
    | none ↦ close_turn true results s
    | some g ↦
        on_stop results (record s { run = record s.run { thrash = some (take_stop g).0 } })
          (take_stop g).1
  ]
