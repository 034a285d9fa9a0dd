-- ===== src/AgentLoop/Stream.antt =====
-- crates/pirs-agent/src/agent_loop/stream.rs: an assistant message is streamed into the context.
use pirs.Prelude.{Bool, true, false, Option, none, some, List, [], ◌∷◌, ◌++◌, if◌then◌else◌}
use pirs.Prelude.Lists.{filter}
use pirs.Prelude.Text.{Text, lit}
use pirs.Message.{
  StreamEvent, start, text_delta, thinking_delta, tool_call_delta, done, stream_error, StopReason,
  zero_usage, add_usage, ContentBlock, text, thinking, image, tool_call, AssistantMessage, Message,
  user, assistant, tool_result, is_assistant,
}
use pirs.ControlPins.Pins.{preserve_control_pins, enforce_tool_result_adjacency}
use pirs.ToolExec.Host.{AgentEvent, message_start, message_update, message_end, is_visible}
use pirs.ToolExec.Prepare.{tool_defs}
use pirs.AgentLoop.State.{CascadeConfig, Context, LoopConfig, LoopState, emit_all, at_world}

-- The variables of the loop over the stream.
pub record Streaming (V : Type 0) : Type 0 where
  pub partial : AssistantMessage V
  pub messages : List (Message V)
  pub events : List (AgentEvent V)
  pub last_error : Option Text

abbrev pub failed_reason : StopReason → StopReason
failed_reason StopReason.stop = StopReason.error
failed_reason StopReason.length = StopReason.length
failed_reason StopReason.tool_use = StopReason.tool_use
failed_reason StopReason.error = StopReason.error
failed_reason StopReason.aborted = StopReason.aborted

abbrev pub or_error : Option Text → Text → Option Text
or_error none e = some e
or_error (some old) e = some old

module _ {V : Type 0} where
  -- A delta extends the last block if that is of its kind, else it begins a block.
  unfoldable pub text_onto : Text → List (ContentBlock V) → List (ContentBlock V)
  text_onto d [] = text d none ∷ []
  text_onto d (text t sig ∷ []) = text (t ++ d) sig ∷ []
  text_onto d (thinking t sig redacted ∷ []) = thinking t sig redacted ∷ text d none ∷ []
  text_onto d (image i mime ∷ []) = image i mime ∷ text d none ∷ []
  text_onto d (tool_call id name args sig ∷ []) = tool_call id name args sig ∷ text d none ∷ []
  text_onto d (b ∷ c ∷ bs) = b ∷ text_onto d (c ∷ bs)

  unfoldable pub thinking_onto : Text → List (ContentBlock V) → List (ContentBlock V)
  thinking_onto d [] = thinking d none false ∷ []
  thinking_onto d (thinking t sig redacted ∷ []) = thinking (t ++ d) sig redacted ∷ []
  thinking_onto d (text t sig ∷ []) = text t sig ∷ thinking d none false ∷ []
  thinking_onto d (image i mime ∷ []) = image i mime ∷ thinking d none false ∷ []
  thinking_onto d (tool_call id name args sig ∷ []) =
      tool_call id name args sig ∷ thinking d none false ∷ []
  thinking_onto d (b ∷ c ∷ bs) = b ∷ thinking_onto d (c ∷ bs)

  unfoldable pub append_text : Text → AssistantMessage V → AssistantMessage V
  append_text d a = record a { content = text_onto d a.content }

  unfoldable pub append_thinking : Text → AssistantMessage V → AssistantMessage V
  append_thinking d a = record a { content = thinking_onto d a.content }

  abbrev pub append_delta : Bool → Text → AssistantMessage V → AssistantMessage V
  append_delta is_thinking d a = if is_thinking then append_thinking d a else append_text d a

  unfoldable pub append_delta_to_last : Bool → Text → List (Message V) → List (Message V)
  append_delta_to_last is_thinking d [] = []
  append_delta_to_last is_thinking d (assistant a ∷ []) =
      assistant (append_delta is_thinking d a) ∷ []
  append_delta_to_last is_thinking d (user u ∷ []) = user u ∷ []
  append_delta_to_last is_thinking d (tool_result r ∷ []) = tool_result r ∷ []
  append_delta_to_last is_thinking d (m ∷ n ∷ ms) = m ∷ append_delta_to_last is_thinking d (n ∷ ms)

  unfoldable pub replace_last : AssistantMessage V → List (Message V) → List (Message V)
  replace_last a [] = []
  replace_last a (m ∷ []) = assistant a ∷ []
  replace_last a (m ∷ n ∷ ms) = m ∷ replace_last a (n ∷ ms)

  -- `context.messages.pop()` if the last is an assistant message.
  unfoldable pub pop_assistant : List (Message V) → List (Message V)
  pop_assistant [] = []
  pop_assistant (m ∷ []) = if is_assistant m then [] else m ∷ []
  pop_assistant (m ∷ n ∷ ms) = m ∷ pop_assistant (n ∷ ms)

  unfoldable pub on_delta : Bool → Text → Streaming V → Streaming V
  on_delta is_thinking d c =
      let partial = append_delta is_thinking d c.partial in
      record c {
        partial = partial;
        messages = append_delta_to_last is_thinking d c.messages;
        events = c.events ++ message_update partial ∷ [];
      }

  unfoldable pub consume : Streaming V → List (StreamEvent V) → Streaming V
  consume c [] = c
  consume c (start ∷ es) = consume c es
  consume c (tool_call_delta ∷ es) = consume c es
  consume c (text_delta d ∷ es) = consume (on_delta false d c) es
  consume c (thinking_delta d ∷ es) = consume (on_delta true d c) es
  consume c (stream_error e ∷ es) = consume (record c { last_error = some e }) es
  consume c (done m ∷ es) = consume (record c { partial = m }) es

  -- What an error frame makes of the message.
  unfoldable pub with_error : Option Text → AssistantMessage V → AssistantMessage V
  with_error none a = a
  with_error (some e) a = record a {
    error_message = or_error a.error_message e;
    stop_reason = failed_reason a.stop_reason;
  }

module _ {V W : Type 0} (cfg : LoopConfig V W) where
  abbrev api_key_of : W → W × Option Text
  api_key_of w = elim cfg.hooks.get_api_key [ none ↦ (w, none) | some f ↦ f w ]

  abbrev chosen_key : Option Text → Option Text
  chosen_key none = cfg.api_key
  chosen_key (some k) = some k

  abbrev transformed : List (Message V) → W → W × List (Message V)
  transformed ms w = elim cfg.hooks.transform_context [ none ↦ (w, ms) | some t ↦ t ms w ]

  unfoldable pub llm_context : W → List (Message V) → List (Message V) → Context V
  llm_context w original messages = record {
    system_prompt = cfg.system_prompt;
    messages = enforce_tool_result_adjacency (preserve_control_pins original messages);
    tools = filter (λ d. is_visible cfg.host w d.name) (tool_defs cfg.tools);
  }

  -- The world after the request, and the events of the stream.
  unfoldable pub request : Text → List (Message V) → W → W × List (StreamEvent V)
  request model messages w =
      let (w', key) = api_key_of w in
      let (w'', ms) = transformed messages w' in
      cfg.provider model (llm_context w'' messages ms) (chosen_key key) w''

  unfoldable pub empty_message : Text → W → AssistantMessage V
  empty_message model w = record {
    content = [];
    api = [];
    provider = lit "unknown";
    model = model;
    usage = zero_usage;
    stop_reason = StopReason.stop;
    error_message = none;
    timestamp = cfg.host.now w;
  }

  unfoldable pub stream_into :
      Text → LoopState V W → W × List (StreamEvent V) → LoopState V W × AssistantMessage V
  stream_into model s (w, es) =
      let partial = empty_message model w in
      let begun = assistant partial in
      let c =
        consume
          (record {
            partial = partial;
            messages = s.messages ++ begun ∷ [];
            events = message_start begun ∷ [];
            last_error = none;
          })
          es in
      let final = with_error c.last_error c.partial in
      (
        emit_all c.events (at_world w (record s { messages = replace_last final c.messages })),
        final,
      )

  unfoldable pub stream_once : Text → LoopState V W → LoopState V W × AssistantMessage V
  stream_once model s = stream_into model s (request model s.messages s.run.world)

  -- A draft that the judge rejects is credited, taken back and streamed anew.
  unfoldable pub after_judge :
      LoopState V W → AssistantMessage V → W × Bool → LoopState V W × AssistantMessage V
  after_judge s draft (w, true) = (at_world w s, draft)
  after_judge s draft (w, false) = stream_once cfg.model (
      emit_all (message_end (assistant draft) ∷ []) (
        at_world w (record s {
          extra_usage = add_usage s.extra_usage draft.usage;
          messages = pop_assistant s.messages;
        })))

  unfoldable pub stream_with :
      Option (CascadeConfig V W) → LoopState V W → LoopState V W × AssistantMessage V
  stream_with none s = stream_once cfg.model s
  stream_with (some c) s =
      let (s', draft) = stream_once c.draft_model s in
      after_judge s' draft (c.judge draft s'.run.world)

  unfoldable pub stream_assistant : LoopState V W → LoopState V W × AssistantMessage V
  stream_assistant s = stream_with cfg.cascade s
