-- ===== src/AgentLoop/Samples.antt =====
-- Two rounds over a world that counts requests: the first answer calls a tool, the second is text.
use pirs.Prelude.{ℕ, zero, suc, ◌≡◌, refl, true, false, Option, none, some, List, [], ◌∷◌, arith}
use pirs.Prelude.Result.{ok}
use pirs.SampleJson.{SampleValue, null, sample_json}
use pirs.Compaction.Cut.{tool_pairs_intact, pairs_from}
use pirs.Message.{
  StreamEvent, text_delta, done, StopReason, zero_usage, ContentBlock, text, tool_call, plain,
  AssistantMessage, Message, user,
}
use pirs.Prelude.Text.{lit, text_eq, byte_len}
use pirs.ToolExec.Host.{parallel, AgentTool, Hooks, Host, steering, follow_up}
use pirs.ToolExec.Prepare.{extract_tool_calls, calls_of}
use pirs.AgentLoop.Stream.{stream_assistant}
use pirs.AgentLoop.Turn.{run_agent_loop}
use pirs.AgentLoop.State.{BudgetHit, LoopConfig, LoopState}
use pirs.AgentLoop.Streamed.{AreDistinct, IsStreamed, stream_assistant-IsStreamed}
use pirs.AgentLoop.Whole.{run_agent_loop-intact}
use pirs.AgentLoop.Ends.{Ends, run_agent_loop-Ends}

-- Evaluates a run.
running : Unit {0}
unfolding steering follow_up extract_tool_calls calls_of text_eq
running = tt

abbrev read_tool : AgentTool SampleValue ℕ
read_tool = record {
  name = lit "read";
  description = lit "reads";
  parameters = null;
  execution_mode = parallel;
  execute = λ id args w. record {
    updates = [];
    world = w;
    outcome =
        ok (record { content = text (lit "ok") none ∷ []; details = none; terminate = false });
  };
}

abbrev host : Host SampleValue ℕ
host = record {
  now = λ w. w;
  is_cancelled = λ w. false;
  visible_tools = none;
  skip_remaining_if = none;
  coerce_args = λ schema args. args;
  validate_args = λ schema args. none;
  content_hash = byte_len;
  next_done = λ w. w;
  meanwhile = λ w. w;
}

abbrev no_hooks : Hooks SampleValue ℕ
no_hooks = record {
  before_tool_call = none;
  after_tool_call = none;
  transform_context = none;
  should_stop_after_turn = none;
  get_steering_messages = none;
  get_follow_up_messages = none;
  get_api_key = none;
}

abbrev answer : List (ContentBlock SampleValue) → AssistantMessage SampleValue
answer bs = record {
  content = bs;
  api = lit "chat";
  provider = lit "p";
  model = lit "m";
  usage = zero_usage;
  stop_reason = StopReason.stop;
  error_message = none;
  timestamp = 2;
}

-- The first request is answered by a call, all others by a text.
abbrev reply : ℕ → List (StreamEvent SampleValue)
reply zero =
    text_delta (lit "a") ∷ done (answer (tool_call (lit "1") (lit "read") null none ∷ [])) ∷ []
reply (suc n) = done (answer (text (lit "b") none ∷ [])) ∷ []

abbrev config : LoopConfig SampleValue ℕ
config = record {
  model = lit "m";
  system_prompt = none;
  api_key = none;
  tools = read_tool ∷ [];
  tool_execution = parallel;
  hooks = no_hooks;
  host = host;
  compaction = none;
  cascade = none;
  budgets = record { max_turns = some 5; max_tool_calls = none; max_wall_time = none };
  provider = λ model context key w. (suc w, reply w);
  summarizer = λ w model prompt. [];
  strong_model = λ w prompt. [];
  elapsed = λ w. w;
}

abbrev initial : LoopState SampleValue ℕ
initial = record {
  messages = [];
  new_messages = [];
  pending = [];
  first_turn = true;
  has_more_tool_calls = true;
  turn_count = 0;
  tool_call_count = 0;
  nudge_sent = false;
  hybrid = none;
  extra_usage = zero_usage;
  memory = none;
  spilled = [];
  run = record { world = 0; thrash = none; events = [] };
}

abbrev prompts : List (Message SampleValue)
prompts = user (record { content = plain (lit "go"); timestamp = 0 }) ∷ []

run_agent_loop-Ends_example :
    Ends sample_json ℕ config 5 refl (run_agent_loop sample_json ℕ config 6 prompts initial)
run_agent_loop-Ends_example =
    run_agent_loop-Ends sample_json ℕ config 5 refl 6 prompts initial tt (omega arith)

reply-AreDistinct : (w : ℕ) → AreDistinct (reply w)
reply-AreDistinct zero = (unfold running in refl, tt)
reply-AreDistinct (suc n) = (unfold running in refl, tt)

stream_assistant-IsStreamed_example : IsStreamed config initial (stream_assistant config initial)
stream_assistant-IsStreamed_example =
    stream_assistant-IsStreamed config (λ model context key w. reply-AreDistinct w) initial

run_agent_loop-intact_example :
    (t : LoopState SampleValue ℕ) × (hit : Option BudgetHit) × (run_agent_loop sample_json ℕ config
        6 prompts initial
      ≡ some (t, hit))
    × (tool_pairs_intact t.messages ≡ true)
run_agent_loop-intact_example =
    run_agent_loop-intact sample_json ℕ config 5 refl
      (λ w. unfold running in refl, λ w. unfold running in refl)
      (λ model context key w. reply-AreDistinct w) 6 prompts initial tt (omega arith) refl
      (unfold tool_pairs_intact pairs_from in refl)
