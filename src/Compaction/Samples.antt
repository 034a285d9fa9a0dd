-- ===== src/Compaction/Samples.antt =====
-- Compaction of a small conversation, with a provider that streams a fixed summary.
use pirs.Prelude.{ℕ, ◌+◌, ◌%◌, ◌^◌, ◌≤◌, ◌≡◌, refl, ◌≢◌, true, false, none, List, [], ◌∷◌, arith}
use pirs.Prelude.Lists.{length, drop}
use pirs.Prelude.Text.{Text, lit, text_eq, byte_len, len_utf8, trim, is_whitespace}
use pirs.SampleJson.{SampleValue, null, sample_json}
use pirs.Message.{
  StreamEvent, text_delta, done, StopReason, Usage, add_usage, ContentBlock, text, tool_call, plain,
  Message, user, assistant, tool_result, user_message, texts, join, tool_calls,
}
use pirs.Compaction.Cut.{
  CompactionConfig, estimate_message_tokens, find_cut_point_ex, count_user_turns,
  snap_cut_to_tool_pair_boundary, result_at, tool_pairs_intact, sum_chars, block_chars, cut_scan,
  after_scan, retained_turns, settle, advance, leading_results, pull_back, pairs_from, open_calls,
  set_insert, emergency_token_cut, emergency_scan, last_resort, walk_back,
}
use pirs.Compaction.Compact.{
  State, summarize, conclude, collect, clip_transcript, transcript_text, transcript_line,
  compact_messages, compact_at, splice, summary_text, summary_model, dropped_usage, credit,
}
use pirs.Compaction.Shrink.{cut_note, shrink_oversized_tool_results}
use pirs.Compaction.Shrunk.{displayed, results_fit, shrink-displayed, shrink-results_fit}
use pirs.Compaction.Boundary.{snap-clean}
use pirs.Compaction.Range.{IsInside, find_cut_point_ex-IsInside, find_cut_point_ex-ne-none}
use pirs.Compaction.Account.{input, read, spent, compact_messages-true, compact_messages-spent}

-- Evaluates the compaction.
compaction : Unit {0}
unfolding lit text_eq byte_len len_utf8 trim is_whitespace add_usage user_message texts join
    tool_calls estimate_message_tokens sum_chars block_chars find_cut_point_ex count_user_turns
    cut_scan after_scan retained_turns snap_cut_to_tool_pair_boundary settle advance leading_results
    pull_back tool_pairs_intact pairs_from open_calls set_insert emergency_token_cut emergency_scan
    last_resort walk_back summarize conclude collect clip_transcript transcript_text transcript_line
    compact_messages compact_at splice summary_text summary_model dropped_usage credit
compaction = tt

abbrev usage_of_10 : Usage
usage_of_10 = record {
  input = 7;
  output = 3;
  cache_read = 0;
  cache_write = 0;
  total_tokens = 10;
  reasoning = 0;
}

abbrev said : Text → Message SampleValue
said t = user (record { content = plain t; timestamp = 1 })

abbrev answered : List (ContentBlock SampleValue) → Message SampleValue
answered bs = assistant (record {
  content = bs;
  api = lit "chat";
  provider = lit "p";
  model = lit "m";
  usage = usage_of_10;
  stop_reason = StopReason.stop;
  error_message = none;
  timestamp = 2;
})

abbrev resulted : Text → Message SampleValue
resulted id = tool_result (record {
  tool_call_id = id;
  tool_name = lit "read";
  content = text (lit "ok") none ∷ [];
  details = none;
  is_error = false;
  terminate = false;
  timestamp = 3;
})

-- A question, a tool call with its result, an answer, and the next question.
abbrev conversation : List (Message SampleValue)
conversation =
    said (lit "a")
    ∷ answered (tool_call (lit "1") (lit "read") null none ∷ [])
    ∷ resulted (lit "1")
    ∷ answered (text (lit "b") none ∷ [])
    ∷ said (lit "c")
    ∷ []

abbrev sample_stream : Text → Text → List (StreamEvent SampleValue)
sample_stream model prompt =
    text_delta (lit "sum")
    ∷ done (record {
      content = text (lit "sum") none ∷ [];
      api = lit "chat";
      provider = lit "p";
      model = model;
      usage = usage_of_10;
      stop_reason = StopReason.stop;
      error_message = none;
      timestamp = 4;
    })
    ∷ []

abbrev small_config : CompactionConfig
small_config = record {
  context_window = 100;
  reserve_tokens = 10;
  keep_recent_tokens = 1;
  min_recent_user_turns = 1;
  aux_model = none;
}

abbrev before : State SampleValue
before = record { messages = conversation; extra_usage = usage_of_10; memory = none; events = [] }

-- A state too short to be compacted.
abbrev short : State SampleValue
short = record before { messages = said (lit "a") ∷ [] }

abbrev after : State SampleValue
after = (compact_messages sample_json sample_stream 9 (lit "m") small_config before).0

snap-clean_example :
    (snap_cut_to_tool_pair_boundary conversation 2 ≤ length conversation)
    × (result_at conversation (snap_cut_to_tool_pair_boundary conversation 2) ≡ false)
snap-clean_example = snap-clean conversation 2

find_cut_point_ex-IsInside_example : IsInside conversation 4
find_cut_point_ex-IsInside_example =
    find_cut_point_ex-IsInside (estimate_message_tokens sample_json) conversation 1 1 4
      (unfold compaction in refl)

find_cut_point_ex-ne-none_example :
    find_cut_point_ex (estimate_message_tokens sample_json) conversation 1000 0 ≢ none
find_cut_point_ex-ne-none_example =
    find_cut_point_ex-ne-none (estimate_message_tokens sample_json) conversation 1000 0
      (omega arith)

compact_messages-true_example :
    (cut : ℕ) × (summary : Text) × IsInside conversation cut
    × (after.messages ≡ user_message 9 (summary_text summary) ∷ drop cut conversation)
    × (tool_pairs_intact after.messages ≡ true)
compact_messages-true_example =
    compact_messages-true sample_json sample_stream 9 (lit "m") small_config before after
      (unfold compaction in refl)

compact_messages-spent_example :
    spent input after ≡ (spent input before + read input usage_of_10) % 2 ^ 64
compact_messages-spent_example =
    compact_messages-spent sample_json sample_stream 9 (lit "m") small_config input before after 4
      {summary = lit "sum"} {usage = usage_of_10} (unfold compaction in refl)
      (unfold compaction in refl) (unfold compaction in refl)

-- A limit of one character is below the length of the tool result.
shrink-displayed_example :
    displayed sample_json (shrink_oversized_tool_results sample_json 1 conversation).0
    ≡ displayed sample_json conversation
shrink-displayed_example = shrink-displayed sample_json 1 conversation

shrink-results_fit_example :
    results_fit sample_json
      (length cut_note + 1)
      (shrink_oversized_tool_results sample_json 1 conversation).0
    ≡ true
shrink-results_fit_example = shrink-results_fit sample_json 1 conversation
