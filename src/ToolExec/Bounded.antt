-- ===== src/ToolExec/Bounded.antt =====
-- How much text a tool result shows the model.
use pirs.Prelude.{ℕ, ◌-◌, ◌+◌, ◌≤◌, arith}
use pirs.Prelude.Lists.{length, length-append, length-drop}
use pirs.Prelude.Text.{Text, lit}
use pirs.Json.{JsonLib}
use pirs.Message.{ToolResultMessage, texts, join}
use pirs.Compaction.Shrink.{model_text}
use pirs.ToolExec.Caps.{
  model_max_tool_result_chars, model_max_error_chars, cap_note, error_note, cap_chars_tail,
  capped_error, error_result_kind, apply_model_result_cap, recapped,
}

-- The text for the model is at most the cap and the note on the cut.
abbrev pub IsShort : {V : Type 0} → ToolResultMessage V → Type 0
IsShort r = length (model_text r) ≤ length cap_note + model_max_tool_result_chars

length-cap_chars_tail : (s : Text) (n : ℕ) → length (cap_chars_tail s n) ≤ n
unfolding cap_chars_tail
length-cap_chars_tail s n = ground (arith, length-drop (length s - n) s)

length-capped_error :
    (t : Text) → length (capped_error t) ≤ length error_note + model_max_error_chars
unfolding capped_error lit
length-capped_error t = ground (
  arith,
  length-append error_note (cap_chars_tail t model_max_error_chars),
  length-cap_chars_tail t model_max_error_chars,
)

module _ (J : JsonLib) where
  open J use {Value}

  pub error_result_kind-IsShort :
      (now : ℕ) (id name message kind : Text)
      → IsShort (error_result_kind J now id name message kind)
  unfolding error_result_kind model_text texts join lit
  error_result_kind-IsShort now id name message kind = omega (arith, length-capped_error message)

  pub recapped-IsShort : (r : ToolResultMessage Value) → IsShort (recapped J r)
  unfolding recapped apply_model_result_cap model_text texts join lit
  recapped-IsShort r = ground (
    arith,
    length-append error_note (cap_chars_tail (model_text r) model_max_error_chars),
    length-cap_chars_tail (model_text r) model_max_error_chars,
    length-append cap_note (cap_chars_tail (model_text r) model_max_tool_result_chars),
    length-cap_chars_tail (model_text r) model_max_tool_result_chars,
  )
