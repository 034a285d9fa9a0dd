-- ===== src/AgentLoop/State.antt =====
-- crates/pirs-agent/src/agent_loop/mod.rs, lines 29 to 90: what configures a run of the loop, and
-- the variables of `run_agent_loop`. The counters of turns and tool calls do not reach 2 ^ 64.
use pirs.Prelude.{ℕ, Bool, Option, List, [], ◌∷◌, ◌++◌}
use pirs.Prelude.Text.{Text}
use pirs.Message.{Usage, StreamEvent, AssistantMessage, Message}
use pirs.Compaction.Cut.{CompactionConfig}
use pirs.Hybrid.{HybridInner}
use pirs.ToolExec.Host.{
  ExecutionMode, AgentTool, AgentEvent, message_start, message_end, Hooks, Host, Run,
}
use pirs.ToolExec.Prepare.{ToolDef}

-- The duration is in the unit of the clock.
pub record Budgets : Type 0 where
  pub max_turns : Option ℕ
  pub max_tool_calls : Option ℕ
  pub max_wall_time : Option ℕ

pub data BudgetHit : Type 0 where
  turns wall_time tool_calls : BudgetHit

pub record CascadeConfig (V W : Type 0) : Type 0 where
  pub draft_model : Text
  pub judge : AssistantMessage V → W → W × Bool

-- What the provider gets.
pub record Context (V : Type 0) : Type 0 where
  pub system_prompt : Option Text
  pub messages : List (Message V)
  pub tools : List (ToolDef V)

-- The parameters: `provider` streams events for a model, a context and an API key; `summarizer` and
-- `strong_model` are what the same trait gives for a summary and for an advice; `elapsed` is the
-- time since the start.
pub record LoopConfig (V W : Type 0) : Type 0 where
  pub model : Text
  pub system_prompt : Option Text
  pub api_key : Option Text
  pub tools : List (AgentTool V W)
  pub tool_execution : ExecutionMode
  pub hooks : Hooks V W
  pub host : Host V W
  pub compaction : Option CompactionConfig
  pub cascade : Option (CascadeConfig V W)
  pub budgets : Budgets
  pub provider : Text → Context V → Option Text → W → W × List (StreamEvent V)
  pub summarizer : W → Text → Text → List (StreamEvent V)
  pub strong_model : W → Text → List (StreamEvent V)
  pub elapsed : W → ℕ

-- `messages` is `context.messages`. `memory` and `spilled` are what the global memory gets, if there
-- is one: messages dropped by a compaction, and the names and texts of tool results.
pub record LoopState (V W : Type 0) : Type 0 where
  pub messages : List (Message V)
  pub new_messages : List (Message V)
  pub pending : List (Message V)
  pub first_turn : Bool
  pub has_more_tool_calls : Bool
  pub turn_count : ℕ
  pub tool_call_count : ℕ
  pub nudge_sent : Bool
  pub hybrid : Option HybridInner
  pub extra_usage : Usage
  pub memory : Option (List (Message V))
  pub spilled : List (Text × Text)
  pub run : Run V W

module _ {V W : Type 0} where
  unfoldable pub emit_all : List (AgentEvent V) → LoopState V W → LoopState V W
  emit_all es s = record s { run = record s.run { events = s.run.events ++ es } }

  abbrev pub at_world : W → LoopState V W → LoopState V W
  at_world w s = record s { run = record s.run { world = w } }

  -- A message enters the conversation.
  unfoldable pub say : Message V → LoopState V W → LoopState V W
  unfolding emit_all
  say m s =
      emit_all (message_start m ∷ message_end m ∷ [])
        (record s { messages = s.messages ++ m ∷ []; new_messages = s.new_messages ++ m ∷ [] })

  unfoldable pub say_all : List (Message V) → LoopState V W → LoopState V W
  unfolding say
  say_all [] s = s
  say_all (m ∷ ms) s = say_all ms (say m s)
