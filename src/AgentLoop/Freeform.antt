-- ===== src/AgentLoop/Freeform.antt =====
-- crates/pirs-agent/src/agent_loop/freeform.rs, lines 26 to 82: tool calls written as plain text.
use pirs.Prelude.{Bool, true, false, ◌&&◌, ◌||◌, Option, none, some, [], ◌∷◌, if◌then◌else◌}
use pirs.Prelude.Lists.{any}
use pirs.Prelude.Text.{lines_of, Text, lit, trim, trim_start, contains, starts_with}
use pirs.Message.{AssistantMessage, texts, join}

unfoldable pub is_shell_line : Text → Bool
is_shell_line l =
    let s = trim_start l in
    starts_with s (lit "> bash")
    || starts_with s (lit "> read")
    || starts_with s (lit "> edit")
    || starts_with s (lit "> grep")

abbrev pub is_blank : Text → Bool
is_blank [] = true
is_blank (c ∷ s) = false

unfoldable pub looks_like_freeform_tool_text : Text → Bool
looks_like_freeform_tool_text text =
    let t = trim text in
    if is_blank t
    then false
    else if contains t (lit "```")
        && (contains t (lit "\"function\"")
            || contains t (lit "\"name\"")
            || contains t (lit "\"tool\"")
            || contains t (lit "\"arguments\""))
    then true
    else if starts_with t (lit "[")
        && contains t (lit "{")
        && (contains t (lit "\"function\"") || contains t (lit "\"name\""))
        && (contains t (lit "\"path\"")
            || contains t (lit "\"command\"")
            || contains t (lit "\"arguments\"")
            || contains t (lit "\"tool\""))
    then true
    else any is_shell_line (lines_of t)

abbrev pub nudge_text : Text
nudge_text =
    lit
      "[system tool protocol] Your previous reply looks like a tool invocation written as freeform text (markdown/JSON/shell), not as a native tool call. That is not executed. Re-issue using the provider's native tool/function calling protocol only — no markdown fences, no pseudo `> bash` lines, no JSON arrays of tools as plain text."

unfoldable pub freeform_tool_repair_nudge : {V : Type 0} → AssistantMessage V → Option Text
freeform_tool_repair_nudge a =
    if looks_like_freeform_tool_text (join (lit "\n") (texts a.content))
    then some nudge_text
    else none
