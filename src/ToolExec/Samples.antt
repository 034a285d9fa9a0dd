-- ===== src/ToolExec/Samples.antt =====
-- A batch of two calls over a world that counts executions: `read` fails the first time with a
-- timeout, `write` is not registered.
use pirs.Prelude.{
  ℕ, suc, ◌+◌, ◌≤◌, ◌≡◌, refl, true, false, none, some, List, [], ◌∷◌, map, is_some, ◌>>=◌,
}
use pirs.Prelude.Lists.{find, count}
use pirs.Prelude.Text.{take_bytes, lit, byte_len, len_utf8, text_eq}
use pirs.Prelude.Result.{err}
use pirs.SampleJson.{SampleValue, null, sample_json}
use pirs.Thrash.Detectors.{
  loop_detection, with_limits, new_loops, new_mistakes, observe_tool_start, observe, new_signature,
  compact_args, clip_400, keep_last,
}
use pirs.ToolExec.Host.{parallel, ToolCallData, AgentTool, Hooks, Host, Run}
use pirs.ToolExec.Prepare.{tool_defs, last_named, tool_def}
use pirs.ToolExec.Dispatch.{named, one_if, tool_defs-last_named}
use pirs.ToolExec.Execute.{run_tool, guard_start}
use pirs.ToolExec.Batch.{execute_tool_calls, run_sequential, run_prepared, prepare_all}
use pirs.ToolExec.Fits.{result_key, call_key, AreShort}
use pirs.ToolExec.Retry.{allowance, run_tool-ticks}
use pirs.ToolExec.Answered.{execute_tool_calls-keys, execute_tool_calls-short}
use pirs.ToolExec.Filled.{blank_pass, execute_tool_calls-filled}
use pirs.ToolExec.Skips.{blocked-world}

-- Evaluates the guard.
guarding : Unit {0}
unfolding guard_start observe_tool_start observe new_signature compact_args clip_400 take_bytes
    with_limits new_loops new_mistakes keep_last text_eq lit byte_len len_utf8
guarding = tt

abbrev flaky_read : AgentTool SampleValue ℕ
flaky_read = record {
  name = lit "read";
  description = lit "reads";
  parameters = null;
  execution_mode = parallel;
  execute =
      λ id args w. record { updates = []; world = suc w; outcome = err (lit "connection reset") };
}

abbrev host : Host SampleValue ℕ
host = record {
  now = λ w. w;
  is_cancelled = λ w. false;
  visible_tools = none;
  skip_remaining_if = none;
  coerce_args = λ schema args. args;
  validate_args = λ schema args. none;
  content_hash = byte_len;
  next_done = λ w. w;
  meanwhile = λ w. w;
}

abbrev no_hooks : Hooks SampleValue ℕ
no_hooks = record {
  before_tool_call = none;
  after_tool_call = none;
  transform_context = none;
  should_stop_after_turn = none;
  get_steering_messages = none;
  get_follow_up_messages = none;
  get_api_key = none;
}

abbrev calls : List (ToolCallData SampleValue)
calls =
    record { id = lit "1"; name = lit "read"; arguments = null }
    ∷ record { id = lit "2"; name = lit "write"; arguments = null }
    ∷ []

abbrev before : Run SampleValue ℕ
before = record { world = 0; thrash = none; events = [] }

-- A guard that stops at the second call of the same kind.
abbrev guarded : Run SampleValue ℕ
guarded = record {
  world = 0;
  thrash = some (observe_tool_start sample_json byte_len (lit "read") null (with_limits 2 9)).0;
  events = [];
}

abbrev read_call : ToolCallData SampleValue
read_call = record { id = lit "1"; name = lit "read"; arguments = null }

execute_tool_calls-keys_example :
    map result_key
      (execute_tool_calls sample_json ℕ host no_hooks false (flaky_read ∷ []) calls before).1
    ≡ map call_key calls
execute_tool_calls-keys_example =
    execute_tool_calls-keys sample_json ℕ host no_hooks false (flaky_read ∷ []) calls before

execute_tool_calls-short_example :
    AreShort (execute_tool_calls sample_json ℕ host no_hooks true (flaky_read ∷ []) calls before).1
execute_tool_calls-short_example =
    execute_tool_calls-short sample_json ℕ host no_hooks true (flaky_read ∷ []) calls before

execute_tool_calls-filled_example :
    (run_prepared sample_json ℕ host no_hooks (
      prepare_all sample_json ℕ host no_hooks
        (flaky_read ∷ [])
        0
        calls
        (blank_pass sample_json ℕ host no_hooks calls before))).1
    ≡ map some
        (execute_tool_calls sample_json ℕ host no_hooks false (flaky_read ∷ []) calls before).1
execute_tool_calls-filled_example =
    execute_tool_calls-filled sample_json ℕ host no_hooks (flaky_read ∷ []) calls before

tool_defs-last_named_example :
    (find (named (lit "read")) (tool_defs (flaky_read ∷ []))
      ≡ (last_named (lit "read") (flaky_read ∷ []) >>= (λ t. some (tool_def t))))
    × (count (named (lit "read")) (tool_defs (flaky_read ∷ []))
        ≡ one_if (is_some (last_named (lit "read") (flaky_read ∷ []))))
tool_defs-last_named_example = tool_defs-last_named (lit "read") (flaky_read ∷ [])

run_tool-ticks_example :
    ((run_tool sample_json ℕ host no_hooks flaky_read (lit "1") (lit "read") null before).0.world
      ≤ allowance (lit "read") + 0)
    × (suc 0
        ≤ (run_tool sample_json ℕ host no_hooks flaky_read
            (lit "1")
            (lit "read")
            null
            before).0.world)
run_tool-ticks_example =
    run_tool-ticks sample_json ℕ host no_hooks (λ w. w) flaky_read (lit "1") (lit "read") null
      before (λ id args w. refl)

blocked-world_example :
    (run_sequential sample_json ℕ host no_hooks
      (flaky_read ∷ [])
      false
      0
      (read_call ∷ calls)
      guarded
      (none ∷ none ∷ none ∷ [])).0.world
    ≡ 0
blocked-world_example =
    blocked-world sample_json ℕ host no_hooks (flaky_read ∷ []) 0 read_call calls guarded
      (none ∷ none ∷ none ∷ []) (loop_detection (lit "read") 2 12) (unfold guarding in refl)
