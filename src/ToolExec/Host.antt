-- ===== src/ToolExec/Host.antt =====
-- crates/pirs-agent/src/tool.rs and events.rs: tools, hooks and events. `W` is the world outside the
-- loop, which tools and hooks read and change: files, processes, the cancellation token, the
-- steering queue.
use pirs.Prelude.{ℕ, Bool, true, Option, none, some, List, []}
use pirs.Prelude.Text.{Text, one_of}
use pirs.Prelude.Result.{Result}
use pirs.Message.{ContentBlock, AssistantMessage, ToolResultMessage, Message}
use pirs.Compaction.Compact.{Event}
use pirs.Thrash.Detectors.{ThrashInner}

pub data ExecutionMode : Type 0 where
  parallel sequential : ExecutionMode

pub record ToolOutput (V : Type 0) : Type 0 where
  pub content : List (ContentBlock V)
  pub details : Option V
  pub terminate : Bool

pub record ToolResultPatch (V : Type 0) : Type 0 where
  pub content : Option (List (ContentBlock V))
  pub details : Option V
  pub is_error : Option Bool
  pub terminate : Option Bool

pub record ToolCallData (V : Type 0) : Type 0 where
  pub id : Text
  pub name : Text
  pub arguments : V

-- The events of a compaction are those of `Compaction.Compact`.
pub data AgentEvent (V : Type 0) : Type 0 where
  agent_start : AgentEvent V
  agent_end : List (Message V) → AgentEvent V
  turn_start : AgentEvent V
  turn_end : AssistantMessage V → List (ToolResultMessage V) → AgentEvent V
  message_start : Message V → AgentEvent V
  message_update : AssistantMessage V → AgentEvent V
  message_end : Message V → AgentEvent V
  tool_execution_start : Text → Text → V → AgentEvent V
  tool_execution_update : Text → Text → Text → AgentEvent V
  tool_execution_end : Text → Text → ToolResultMessage V → AgentEvent V
  compaction : Event → AgentEvent V

-- What one execution of a tool does: the texts that it passes to `on_update`, the world that it
-- leaves, and what it returns.
pub record Execution (V W : Type 0) : Type 0 where
  pub updates : List Text
  pub world : W
  pub outcome : Result (ToolOutput V)

-- The trait `AgentTool`; `execute` gets the call id and the arguments.
pub record AgentTool (V W : Type 0) : Type 0 where
  pub name : Text
  pub description : Text
  pub parameters : V
  pub execution_mode : ExecutionMode
  pub execute : Text → V → W → Execution V W

pub record Hooks (V W : Type 0) : Type 0 where
  pub before_tool_call : Option (Text → Text → V → W → W × Option Text)
  pub after_tool_call :
      Option (Text → Text → ToolResultMessage V → W → W × Option (ToolResultPatch V))
  pub transform_context : Option (List (Message V) → W → W × List (Message V))
  pub should_stop_after_turn : Option (List (Message V) → W → W × Bool)
  pub get_steering_messages : Option (W → W × List (Message V))
  pub get_follow_up_messages : Option (W → W × List (Message V))
  pub get_api_key : Option (W → W × Option Text)

-- What the loop asks of the world and of other code: the clock, the cancellation token, the names
-- that are loaded, whether steering is pending, the coercion and the check of arguments by a schema
-- (validate.rs, with the text of the error), the hash of a file's content, which of the tools that
-- run at the same time ends next, and what other threads do to the world before the poll at the
-- launch of a tool.
pub record Host (V W : Type 0) : Type 0 where
  pub now : W → ℕ
  pub is_cancelled : W → Bool
  pub visible_tools : Option (W → List Text)
  pub skip_remaining_if : Option (W → Bool)
  pub coerce_args : V → V → V
  pub validate_args : V → V → Option Text
  pub content_hash : Text → ℕ
  pub next_done : W → ℕ
  pub meanwhile : W → W

-- What the calls of a batch read and change.
pub record Run (V W : Type 0) : Type 0 where
  pub world : W
  pub thrash : Option ThrashInner
  pub events : List (AgentEvent V)

module _ {V W : Type 0} where
  unfoldable pub is_visible : Host V W → W → Text → Bool
  is_visible h w name = elim h.visible_tools [ none ↦ true | some names ↦ one_of name (names w) ]

  -- The gate first, then the extension if the gate denies nothing.
  unfoldable pub run_both :
      (Text → Text → V → W → W × Option Text)
      → (Text → Text → V → W → W × Option Text)
      → Text
      → Text
      → V
      → W
      → W × Option Text
  run_both g e id name args w =
      let (w', denied) = g id name args w in
      elim denied [ some reason ↦ (w', some reason) | none ↦ e id name args w' ]

  unfoldable pub chain_before :
      Option (Text → Text → V → W → W × Option Text)
      → Option (Text → Text → V → W → W × Option Text)
      → Option (Text → Text → V → W → W × Option Text)
  chain_before (some g) (some e) = some (run_both g e)
  chain_before (some g) none = some g
  chain_before none e = e

  abbrev pub messages_of : Option (W → W × List (Message V)) → W → W × List (Message V)
  messages_of none w = (w, [])
  messages_of (some f) w = f w

  unfoldable pub steering : Hooks V W → W → W × List (Message V)
  steering hooks w = messages_of hooks.get_steering_messages w

  unfoldable pub follow_up : Hooks V W → W → W × List (Message V)
  follow_up hooks w = messages_of hooks.get_follow_up_messages w
