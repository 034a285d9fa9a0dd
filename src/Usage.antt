-- ===== src/Usage.antt =====
-- crates/pirs-agent/src/usage.rs: the report of the tokens that a conversation used. The map under
-- model names is an association list, without the order of its keys, which the code does not read.
use pirs.Prelude.{
  ℕ, zero, suc, ◌+◌, ◌%◌, ◌^◌, Bool, true, false, Option, none, some, List, [], ◌∷◌, ◌++◌, ◌&&◌,
  ◌==◌, if◌then◌else◌, ◌>>=◌,
}
use pirs.Prelude.Text.{Text, lit, text_eq, starts_with}
use pirs.Json.{JsonLib}
use pirs.Message.{
  Usage, zero_usage, add_usage, StopReason, stop, AssistantMessage, ToolResultMessage, Message,
  user, assistant, tool_result,
}
pub mod Balance
mod Samples

pub record UsageRecord : Type 0 where
  pub model : Text
  pub usage : Usage
  pub stop_reason : StopReason
  pub timestamp : ℕ

pub record UsageReport : Type 0 where
  pub calls : List UsageRecord
  pub main_usage : Usage
  pub delegate_usage : Usage
  pub compaction_usage : Usage
  pub by_model : List (Text × Usage)

unfoldable pub grand_total : UsageReport → Usage
grand_total report =
    let total =
      add_usage (add_usage report.main_usage report.delegate_usage) report.compaction_usage in
    record total {
      total_tokens = (total.input + total.output + total.cache_read + total.cache_write) % 2 ^ 64;
    }

unfoldable pub count_delegates : List UsageRecord → ℕ
count_delegates [] = 0
count_delegates (c ∷ cs) =
    let rest = count_delegates cs in
    if starts_with c.model (lit "delegate:") then suc rest else rest

unfoldable pub delegate_calls : UsageReport → ℕ
delegate_calls report = count_delegates report.calls

-- `*entry(model).or_default() += usage`.
unfoldable pub add_entry : Text → Usage → List (Text × Usage) → List (Text × Usage)
add_entry model u [] = (model, add_usage zero_usage u) ∷ []
add_entry model u ((m, v) ∷ es) =
    let rest = add_entry model u es in
    if text_eq m model then (m, add_usage v u) ∷ es else (m, v) ∷ rest

abbrev pub empty_report : Usage → UsageReport
empty_report compaction_usage = record {
  calls = [];
  main_usage = zero_usage;
  delegate_usage = zero_usage;
  compaction_usage = compaction_usage;
  by_model = [];
}

unfoldable pub report_main : {V : Type 0} → AssistantMessage V → UsageReport → UsageReport
report_main a report =
    if a.usage.total_tokens == 0 && a.usage.input == 0 && a.usage.output == 0
    then report
    else record report {
      calls =
          report.calls
          ++ record {
            model = a.model;
            usage = a.usage;
            stop_reason = a.stop_reason;
            timestamp = a.timestamp;
          }
            ∷ [];
      main_usage = add_usage report.main_usage a.usage;
      by_model = add_entry a.model a.usage report.by_model;
    }

-- `unwrap_or` and `unwrap_or_default`.
unfoldable pub or_default : {A : Type 0} → A → Option A → A
or_default d none = d
or_default d (some x) = x

unfoldable pub report_delegate : ℕ → Text → Usage → UsageReport → UsageReport
report_delegate time model usage report =
    if usage.total_tokens == 0 && usage.input == 0 then report else record report {
      calls =
          report.calls
          ++ record {
            model = lit "delegate:" ++ model;
            usage = usage;
            stop_reason = stop;
            timestamp = time;
          }
            ∷ [];
      delegate_usage = add_usage report.delegate_usage usage;
      by_model = add_entry model usage report.by_model;
    }

-- `from_value` is what serde reads of a value as a usage.
module _ (J : JsonLib) (from_value : J.Value → Option Usage) where
  open J use {Value, get, as_str}

  unfoldable pub parse_usage : Option Value → Usage
  parse_usage none = zero_usage
  parse_usage (some v) = or_default zero_usage (from_value v)

  unfoldable pub model_of : Value → Text
  model_of details = or_default (lit "unknown") (get details (lit "subAgentModel") >>= as_str)

  unfoldable pub report_details : ℕ → Option Value → UsageReport → UsageReport
  report_details time none report = report
  report_details time (some details) report =
      report_delegate time (model_of details) (parse_usage (get details (lit "subAgentUsage")))
        report

  unfoldable pub report_message : Message Value → UsageReport → UsageReport
  report_message (user u) report = report
  report_message (assistant a) report = report_main a report
  report_message (tool_result tr) report =
      if text_eq tr.tool_name (lit "delegate")
      then report_details tr.timestamp tr.details report
      else report

  unfoldable pub report_all : List (Message Value) → UsageReport → UsageReport
  report_all [] report = report
  report_all (m ∷ ms) report = report_all ms (report_message m report)

  unfoldable pub usage_report : List (Message Value) → Usage → UsageReport
  usage_report messages compaction_usage = report_all messages (empty_report compaction_usage)
