-- ===== src/AgentLoop/Steer.antt =====
-- crates/pirs-agent/src/agent_loop/mod.rs, lines 425 to 508: guidance of the user that is written to
-- the end of the last tool result.
use pirs.Prelude.{Bool, true, false, Option, none, some, List, [], ◌∷◌, ◌++◌, if◌then◌else◌}
use pirs.Prelude.Lists.{any}
use pirs.Prelude.Text.{Text, lit, trim, contains}
use pirs.Message.{
  text, UserContent, plain, blocks, ToolResultMessage, Message, user, assistant, tool_result, texts,
  join,
}
use pirs.AgentLoop.Freeform.{is_blank}

unfoldable pub format_soft_steer_marker : List Text → Text
format_soft_steer_marker ts =
    lit "\n\n---\n[user steer — not tool output]\n" ++ (join (lit "\n") ts ++ lit "\n---\n")

module _ {V : Type 0} where
  abbrev pub steer_text : UserContent V → Text
  steer_text (plain t) = t
  steer_text (blocks bs) = join [] (texts bs)

  unfoldable pub steer_texts : List (Message V) → List Text
  steer_texts [] = []
  steer_texts (user u ∷ ms) =
      let t = steer_text u.content in
      if is_blank (trim t) then steer_texts ms else t ∷ steer_texts ms
  steer_texts (assistant a ∷ ms) = steer_texts ms
  steer_texts (tool_result r ∷ ms) = steer_texts ms

  unfoldable pub push_marker : Text → ToolResultMessage V → ToolResultMessage V
  push_marker marker r = record r { content = r.content ++ text marker none ∷ [] }

  -- Only if the result holds no marker already.
  unfoldable pub push_once : Text → ToolResultMessage V → ToolResultMessage V
  push_once marker r =
      if any (λ t. contains t (lit "[user steer")) (texts r.content)
      then r
      else push_marker marker r

  -- The last tool result of a conversation is changed, if there is one.
  unfoldable pub on_last_result :
      (ToolResultMessage V → ToolResultMessage V) → List (Message V) → Option (List (Message V))
  on_last_result f [] = none
  on_last_result f (m ∷ ms) = elim (on_last_result f ms) [
    | some ms' ↦ some (m ∷ ms')
    | none ↦ elim m [
      | user u ↦ none
      | assistant a ↦ none
      | tool_result r ↦ some (tool_result (f r) ∷ ms)
    ]
  ]

  abbrev pub or_same : Option (List (Message V)) → List (Message V) → List (Message V)
  or_same none ms = ms
  or_same (some ms') ms = ms'

  unfoldable pub on_last :
      (ToolResultMessage V → ToolResultMessage V)
      → List (ToolResultMessage V)
      → List (ToolResultMessage V)
  on_last f [] = []
  on_last f (r ∷ []) = f r ∷ []
  on_last f (r ∷ q ∷ rs) = r ∷ on_last f (q ∷ rs)

-- The three slices, after the call.
pub record Steered (V : Type 0) : Type 0 where
  pub context_messages : List (Message V)
  pub new_messages : List (Message V)
  pub batch_results : List (ToolResultMessage V)

module _ {V : Type 0} where
  unfoldable pub steered_by : Text → Steered V → Option (List (Message V)) → Bool × Steered V
  steered_by marker s none = (false, s)
  steered_by marker s (some messages) = (
    true,
    record {
      context_messages = messages;
      new_messages = or_same (on_last_result (push_once marker) s.new_messages) s.new_messages;
      batch_results = on_last (push_once marker) s.batch_results;
    },
  )

  unfoldable pub steer_with : Steered V → List Text → Bool × Steered V
  steer_with s [] = (false, s)
  steer_with s (t ∷ ts) =
      let marker = format_soft_steer_marker (t ∷ ts) in
      steered_by marker s (on_last_result (push_marker marker) s.context_messages)

  -- Whether the steer was applied, and the slices.
  unfoldable pub apply_soft_steer : Steered V → List (Message V) → Bool × Steered V
  apply_soft_steer s steers = steer_with s (steer_texts steers)
