-- ===== src/Compaction/Shrink.antt =====
-- crates/pirs-agent/src/compaction.rs, lines 480 to 521: oversized tool results are cut to their end,
-- the full text being kept for display. `display_text` is that of crates/pirs-ai/src/lib.rs.
use pirs.Prelude.{
  ℕ, suc, ◌-◌, Bool, true, false, Option, none, some, List, [], ◌∷◌, ◌++◌, leb, ◌>>=◌,
  if◌then◌else◌,
}
use pirs.Prelude.Lists.{length, drop}
use pirs.Prelude.Text.{Text, lit}
use pirs.Json.{JsonLib}
use pirs.Message.{text, ToolResultMessage, Message, user, assistant, tool_result, texts, join}

-- `ToolResultMessage::model_text`, which the function writes out.
unfoldable pub model_text : {V : Type 0} → ToolResultMessage V → Text
model_text r = join (lit "\n") (texts r.content)

abbrev pub filled : Option Text → Option Text
filled none = none
filled (some []) = none
filled (some (c ∷ s)) = some (c ∷ s)

abbrev pub shown : Option Text → Text → Text
shown none t = t
shown (some ui) t = ui

abbrev pub cut_note : Text
cut_note = lit "[tool result re-truncated for context]\n"

module _ (J : JsonLib) where
  open J use {Value, get, as_str, insert_str, object_str}

  -- `details.get("uiText").as_str()`.
  unfoldable pub ui_text : Option Value → Option Text
  ui_text details = details >>= (λ d. get d (lit "uiText")) >>= as_str

  unfoldable pub display_text : ToolResultMessage Value → Text
  unfolding ui_text
  display_text r = shown (filled (ui_text r.details)) (model_text r)

  -- `uiText` set in an object; any other value is replaced by an object.
  unfoldable pub set_ui_text : Option Value → Text → Value
  set_ui_text none t = object_str (lit "uiText") t
  set_ui_text (some d) t = elim (insert_str d (lit "uiText") t) [
    | none ↦ object_str (lit "uiText") t
    | some d' ↦ d'
  ]

  unfoldable pub kept_details : Option Value → Text → Option Value
  kept_details details t = elim (filled (ui_text details)) [
    | none ↦ some (set_ui_text details t)
    | some ui ↦ details
  ]

  unfoldable pub shrink_result : ℕ → ToolResultMessage Value → ToolResultMessage Value × Bool
  shrink_result max_chars r =
      let t = model_text r in
      if leb (length t) max_chars then (r, false) else (
        record r {
          details = kept_details r.details t;
          content = text (cut_note ++ drop (length t - max_chars) t) none ∷ [];
        },
        true,
      )

  -- The messages, and how many were modified.
  unfoldable pub shrink_oversized_tool_results : ℕ → List (Message Value) → List (Message Value) × ℕ
  unfolding shrink_result
  shrink_oversized_tool_results max_chars [] = ([], 0)
  shrink_oversized_tool_results max_chars (user u ∷ ms) =
      let (ms', n) = shrink_oversized_tool_results max_chars ms in (user u ∷ ms', n)
  shrink_oversized_tool_results max_chars (assistant a ∷ ms) =
      let (ms', n) = shrink_oversized_tool_results max_chars ms in (assistant a ∷ ms', n)
  shrink_oversized_tool_results max_chars (tool_result r ∷ ms) =
      let (ms', n) = shrink_oversized_tool_results max_chars ms in
      let (r', modified) = shrink_result max_chars r in
      (tool_result r' ∷ ms', if modified then suc n else n)
