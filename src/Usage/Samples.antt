-- ===== src/Usage/Samples.antt =====
-- A conversation with one answer and one result of a delegate.
use pirs.Prelude.{Option, none, some, List, [], ◌∷◌, false, ℕ, ◌≡◌, refl}
use pirs.Prelude.Text.{lit, text_eq, starts_with}
use pirs.SampleJson.{SampleValue, null, str, obj, sample_json, member}
use pirs.Message.{Usage, Message, assistant, tool_result, zero_usage, stop, add_usage}
use pirs.Usage.{
  usage_report, grand_total, delegate_calls, count_delegates, report_all, report_message,
  report_details, report_delegate, parse_usage, model_of, or_default, report_main,
}
use pirs.Usage.Balance.{usage_report-IsBalanced, IsBalanced}

abbrev used : ℕ → Usage
used n = record {
  input = n;
  output = 2;
  cache_read = 0;
  cache_write = 0;
  total_tokens = n;
  reasoning = 0;
}

abbrev read_usage : SampleValue → Option Usage
read_usage null = none
read_usage (str s) = some (used 7)
read_usage (obj m) = none

abbrev conversation : List (Message SampleValue)
conversation =
    assistant (record {
      content = [];
      api = lit "a";
      provider = lit "p";
      model = lit "m";
      usage = used 5;
      stop_reason = stop;
      error_message = none;
      timestamp = 1;
    })
    ∷ tool_result (record {
      tool_call_id = lit "c";
      tool_name = lit "delegate";
      content = [];
      details = some (obj ((lit "subAgentUsage", lit "7") ∷ []));
      is_error = false;
      terminate = false;
      timestamp = 2;
    })
    ∷ []

delegates_counted : delegate_calls (usage_report sample_json read_usage conversation zero_usage) ≡ 1
unfolding delegate_calls usage_report count_delegates report_all report_message text_eq lit
    report_details report_delegate parse_usage model_of member or_default report_main starts_with
delegates_counted = refl

total_recomputed :
    (grand_total (usage_report sample_json read_usage conversation (used 1))).total_tokens ≡ 19
unfolding grand_total usage_report add_usage report_all report_message text_eq lit report_details
    report_delegate parse_usage member or_default report_main
total_recomputed = refl

usage_report-IsBalanced_example :
    IsBalanced (usage_report sample_json read_usage conversation zero_usage)
usage_report-IsBalanced_example =
    usage_report-IsBalanced sample_json read_usage conversation zero_usage
