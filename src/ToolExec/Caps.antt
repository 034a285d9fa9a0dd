-- ===== src/ToolExec/Caps.antt =====
-- crates/pirs-agent/src/agent_loop/tool_exec.rs, lines 15 to 86 and 283 to 356: the caps on what a
-- tool result shows the model, and how an outcome becomes a result.
use pirs.Prelude.{
  ℕ, ◌-◌, true, false, ◌||◌, Option, none, some, [], ◌∷◌, ◌++◌, ltb, leb, if◌then◌else◌,
}
use pirs.Prelude.Lists.{length, drop}
use pirs.Prelude.Text.{Text, lit, contains, to_ascii_lowercase}
use pirs.Prelude.Result.{Result, ok, err}
use pirs.Json.{JsonLib}
use pirs.Message.{text, ToolResultMessage}
use pirs.Compaction.Shrink.{model_text, kept_details}
use pirs.ToolExec.Host.{ToolOutput, ToolResultPatch}

abbrev pub model_max_tool_result_chars : ℕ
model_max_tool_result_chars = 20_000

abbrev pub model_max_error_chars : ℕ
model_max_error_chars = 8_000

abbrev pub cap_note : Text
cap_note =
    lit "[tool result truncated for model context — full output in details.uiText if available]\n"

abbrev pub error_note : Text
error_note = lit "[error truncated]\n"

unfoldable pub cap_chars_tail : Text → ℕ → Text
cap_chars_tail s max_chars =
    let n = length s in if leb n max_chars then s else drop (n - max_chars) s

-- The end of an error text that is too long, with a note in front of it.
unfoldable pub capped_error : Text → Text
capped_error t =
    if ltb model_max_error_chars (length t)
    then error_note ++ cap_chars_tail t model_max_error_chars
    else t

-- The kind of an error by its text.
unfoldable pub error_kind : Text → Text
error_kind msg =
    let lower = to_ascii_lowercase msg in
    if contains lower (lit "cancel")
    then lit "cancelled"
    else if contains lower (lit "timeout") || contains lower (lit "timed out")
    then lit "timeout"
    else lit "exec"

module _ (J : JsonLib) where
  open J use {Value, object_str}

  unfoldable pub error_result_kind : ℕ → Text → Text → Text → Text → ToolResultMessage Value
  error_result_kind now id name message kind = record {
    tool_call_id = id;
    tool_name = name;
    content = text (capped_error message) none ∷ [];
    details = some (object_str (lit "errorKind") kind);
    is_error = true;
    terminate = false;
    timestamp = now;
  }

  unfoldable pub apply_model_result_cap : ToolResultMessage Value → ToolResultMessage Value
  apply_model_result_cap r =
      let t = model_text r in
      if leb (length t) model_max_tool_result_chars then r else record r {
        details = kept_details J r.details t;
        content = text (cap_note ++ cap_chars_tail t model_max_tool_result_chars) none ∷ [];
      }

  -- The result before the hook.
  unfoldable pub result_of : ℕ → Text → Text → Result (ToolOutput Value) → ToolResultMessage Value
  result_of now id name (ok out) = record {
    tool_call_id = id;
    tool_name = name;
    content = out.content;
    details = out.details;
    is_error = false;
    terminate = out.terminate;
    timestamp = now;
  }
  result_of now id name (err e) = error_result_kind now id name e (error_kind e)

  -- A field of a patch replaces the field of the result.
  abbrev pub or_keep {ℓ} : {A : Type ℓ} → Option A → A → A
  or_keep none a = a
  or_keep (some b) a = b

  abbrev pub or_keep_details : Option Value → Option Value → Option Value
  or_keep_details none d = d
  or_keep_details (some e) d = some e

  unfoldable pub patched :
      Option (ToolResultPatch Value) → ToolResultMessage Value → ToolResultMessage Value
  patched none r = r
  patched (some p) r = record r {
    content = or_keep p.content r.content;
    details = or_keep_details p.details r.details;
    is_error = or_keep p.is_error r.is_error;
    terminate = or_keep p.terminate r.terminate;
  }

  -- The cap after the hook.
  unfoldable pub recapped : ToolResultMessage Value → ToolResultMessage Value
  recapped r =
      if r.is_error
      then (if ltb model_max_error_chars (length (model_text r))
          then record r {
            content =
                text (error_note ++ cap_chars_tail (model_text r) model_max_error_chars) none ∷ [];
          }
          else r)
      else apply_model_result_cap r
