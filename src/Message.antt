-- ===== src/Message.antt =====
-- crates/pirs-ai/src/lib.rs: the conversation model that every component shares. `V` is
-- `serde_json::Value`; a `u64` sum wraps.
use pirs.Prelude.{
  ℕ, ◌+◌, ◌%◌, ◌^◌, ◌≡◌, Bool, true, false, Option, none, some, List, [], ◌∷◌, ◌++◌, arith,
}
use pirs.Prelude.Text.{Text}
use pirs.Prelude.Lists.{any, filter}

pub data StopReason : Type 0 where
  stop length tool_use error aborted : StopReason

pub record Usage : Type 0 where
  pub input : ℕ
  pub output : ℕ
  pub cache_read : ℕ
  pub cache_write : ℕ
  pub total_tokens : ℕ
  pub reasoning : ℕ

abbrev pub add_u64 : ℕ → ℕ → ℕ
add_u64 a b = (a + b) % 2 ^ 64

abbrev pub zero_usage : Usage
zero_usage = record {
  input = 0;
  output = 0;
  cache_read = 0;
  cache_write = 0;
  total_tokens = 0;
  reasoning = 0;
}

unfoldable pub add_usage : Usage → Usage → Usage
add_usage u v = record {
  input = add_u64 u.input v.input;
  output = add_u64 u.output v.output;
  cache_read = add_u64 u.cache_read v.cache_read;
  cache_write = add_u64 u.cache_write v.cache_write;
  total_tokens = add_u64 u.total_tokens v.total_tokens;
  reasoning = add_u64 u.reasoning v.reasoning;
}

pub add_usage_assoc : (u v w : Usage) → add_usage (add_usage u v) w ≡ add_usage u (add_usage v w)
unfolding add_usage
add_usage_assoc u v w = ground arith

pub add_usage_comm : (u v : Usage) → add_usage u v ≡ add_usage v u
unfolding add_usage
add_usage_comm u v = ground arith

pub data ContentBlock (V : Type 0) : Type 0 where
  text : Text → Option Text → ContentBlock V
  thinking : Text → Option Text → Bool → ContentBlock V
  image : Text → Text → ContentBlock V
  tool_call : Text → Text → V → Option Text → ContentBlock V

pub data UserContent (V : Type 0) : Type 0 where
  plain : Text → UserContent V
  blocks : List (ContentBlock V) → UserContent V

pub record UserMessage (V : Type 0) : Type 0 where
  pub content : UserContent V
  pub timestamp : ℕ

pub record AssistantMessage (V : Type 0) : Type 0 where
  pub content : List (ContentBlock V)
  pub api : Text
  pub provider : Text
  pub model : Text
  pub usage : Usage
  pub stop_reason : StopReason
  pub error_message : Option Text
  pub timestamp : ℕ

pub record ToolResultMessage (V : Type 0) : Type 0 where
  pub tool_call_id : Text
  pub tool_name : Text
  pub content : List (ContentBlock V)
  pub details : Option V
  pub is_error : Bool
  pub terminate : Bool
  pub timestamp : ℕ

pub data Message (V : Type 0) : Type 0 where
  user : UserMessage V → Message V
  assistant : AssistantMessage V → Message V
  tool_result : ToolResultMessage V → Message V

pub data StreamEvent (V : Type 0) : Type 0 where
  start : StreamEvent V
  text_delta : Text → StreamEvent V
  thinking_delta : Text → StreamEvent V
  tool_call_delta : StreamEvent V
  done : AssistantMessage V → StreamEvent V
  stream_error : Text → StreamEvent V

-- `Message::user(text)`, at the time `now`.
unfoldable pub user_message : {V : Type 0} → ℕ → Text → Message V
user_message now t = user (record { content = plain t; timestamp = now })

abbrev pub as_text : {V : Type 0} → ContentBlock V → Option Text
as_text (text t sig) = some t
as_text (thinking t sig redacted) = none
as_text (image d mime) = none
as_text (tool_call id name args sig) = none

abbrev pub is_tool_call : {V : Type 0} → ContentBlock V → Bool
is_tool_call (tool_call id name args sig) = true
is_tool_call (text t sig) = false
is_tool_call (thinking t sig redacted) = false
is_tool_call (image d mime) = false

-- `filter_map(|b| b.as_text()).collect()`.
unfoldable pub texts : {V : Type 0} → List (ContentBlock V) → List Text
texts [] = []
texts (b ∷ bs) = elim (as_text b) [ none ↦ texts bs | some t ↦ t ∷ texts bs ]

-- `[T]::join`.
unfoldable pub join : Text → List Text → Text
join sep [] = []
join sep (t ∷ []) = t
join sep (t ∷ u ∷ ts) = t ++ (sep ++ join sep (u ∷ ts))

-- `AssistantMessage::tool_calls` and its emptiness test.
unfoldable pub tool_calls : {V : Type 0} → AssistantMessage V → List (ContentBlock V)
tool_calls a = filter is_tool_call a.content

abbrev pub is_user : {V : Type 0} → Message V → Bool
is_user (user u) = true
is_user (assistant a) = false
is_user (tool_result r) = false

abbrev pub is_assistant : {V : Type 0} → Message V → Bool
is_assistant (user u) = false
is_assistant (assistant a) = true
is_assistant (tool_result r) = false

abbrev pub is_tool_result : {V : Type 0} → Message V → Bool
is_tool_result (user u) = false
is_tool_result (assistant a) = false
is_tool_result (tool_result r) = true

-- An assistant message whose content holds a tool call.
abbrev pub is_tool_use : {V : Type 0} → Message V → Bool
is_tool_use (user u) = false
is_tool_use (assistant a) = any is_tool_call a.content
is_tool_use (tool_result r) = false
