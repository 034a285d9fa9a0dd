-- ===== src/ControlPins/Pins.antt =====
-- crates/pirs-agent/src/control_pins.rs, lines 16 to 157.
use pirs.Prelude.{
  ℕ, zero, suc, Bool, false, not, ◌&&◌, ◌||◌, Option, none, some, List, [], ◌∷◌, ◌++◌, ◌==◌, ◌>>=◌,
  if◌then◌else◌,
}
use pirs.Prelude.Lists.{length, any, filter}
use pirs.Prelude.Text.{Text, lit, text_eq, is_whitespace, trim, after_marker, contains}
use pirs.Message.{
  plain, blocks, Message, user, assistant, tool_result, as_text, is_assistant, is_tool_result,
  is_tool_use,
}

unfoldable pub protected_kinds : List Text
unfolding lit
protected_kinds =
    lit "stop_gate"
    ∷ lit "verify"
    ∷ lit "edit_fail"
    ∷ lit "repeat"
    ∷ lit "no_progress"
    ∷ lit "cmd_fail"
    ∷ lit "cmd_fail_hard"
    ∷ []

unfoldable pub wrap_reminder : Text → Text → Text
unfolding lit
wrap_reminder kind body =
    lit "<system-reminder> kind=" ++ (kind ++ (lit "\n" ++ (body ++ lit "\n</system-reminder>")))

-- The text before the first white space or `>`.
unfoldable pub up_to_end : Text → Text
unfolding is_whitespace
up_to_end [] = []
up_to_end (c ∷ s) = if is_whitespace c || c == b'>' then [] else c ∷ up_to_end s

abbrev non_empty : Text → Option Text
non_empty [] = none
non_empty (c ∷ s) = some (c ∷ s)

unfoldable pub reminder_kind : Text → Option Text
unfolding lit contains after_marker up_to_end trim
reminder_kind text =
    if contains text (lit "<system-reminder>")
    then after_marker (lit "kind=") text >>= (λ rest. non_empty (trim (up_to_end rest)))
    else none

abbrev pub same_kind : Option Text → Text → Bool
same_kind none kind = false
same_kind (some k) kind = text_eq k kind

module _ {V : Type 0} where
  abbrev pub user_text : Message V → Option Text
  user_text (user u) = elim u.content [
    | plain t ↦ some t
    | blocks bs ↦ elim bs [ [] ↦ none | b ∷ r ↦ as_text b ]
  ]
  user_text (assistant a) = none
  user_text (tool_result r) = none

  unfoldable pub message_reminder_kind : Message V → Option Text
  message_reminder_kind m = user_text m >>= reminder_kind

  unfoldable pub is_reminder_kind : Text → Message V → Bool
  is_reminder_kind kind m = same_kind (message_reminder_kind m) kind

  unfoldable pub strip_reminder_kind : List (Message V) → Text → List (Message V)
  strip_reminder_kind messages kind = filter (λ m. not (is_reminder_kind kind m)) messages

  -- `iter().rev().find(p)`.
  unfoldable pub find_last : (Message V → Bool) → List (Message V) → Option (Message V)
  find_last p [] = none
  find_last p (m ∷ ms) = elim (find_last p ms) [
    | some found ↦ some found
    | none ↦ if p m then some m else none
  ]

  -- `after.insert(after.len().saturating_sub(1), m)`.
  unfoldable pub insert_before_last : Message V → List (Message V) → List (Message V)
  insert_before_last m [] = m ∷ []
  insert_before_last m (x ∷ []) = m ∷ x ∷ []
  insert_before_last m (x ∷ y ∷ ms) = x ∷ insert_before_last m (y ∷ ms)

  -- One round of the loop of `preserve_control_pins`.
  unfoldable pub preserve_kind : List (Message V) → Text → List (Message V) → List (Message V)
  preserve_kind before kind after =
      if any (is_reminder_kind kind) after
      then after
      else elim (find_last (is_reminder_kind kind) before) [
        | none ↦ after
        | some original ↦ insert_before_last original after
      ]

  unfoldable pub preserve_kinds : List Text → List (Message V) → List (Message V) → List (Message V)
  preserve_kinds [] before after = after
  preserve_kinds (kind ∷ kinds) before after =
      preserve_kinds kinds before (preserve_kind before kind after)

  unfoldable pub preserve_control_pins : List (Message V) → List (Message V) → List (Message V)
  preserve_control_pins before after = preserve_kinds protected_kinds before after

  -- The messages up to the next assistant message, and those from there on.
  unfoldable pub group_of : List (Message V) → List (Message V)
  group_of [] = []
  group_of (m ∷ ms) = if is_assistant m then [] else m ∷ group_of ms

  unfoldable pub after_group : List (Message V) → List (Message V)
  after_group [] = []
  after_group (m ∷ ms) = if is_assistant m then m ∷ ms else after_group ms

  -- What a group is replaced by: the results first, if it mixes results with other messages.
  unfoldable pub regroup : List (Message V) → List (Message V)
  regroup group =
      if any is_tool_result group && any (λ m. not (is_tool_result m)) group
      then filter is_tool_result group ++ filter (λ m. not (is_tool_result m)) group
      else group

  -- The loop, over the messages from the index on; each round takes at least one of them.
  unfoldable pub adjacency_from : ℕ → List (Message V) → List (Message V)
  adjacency_from zero ms = ms
  adjacency_from (suc fuel) [] = []
  adjacency_from (suc fuel) (m ∷ ms) =
      let next = m ∷ adjacency_from fuel ms in
      let past = m ∷ (regroup (group_of ms) ++ adjacency_from fuel (after_group ms)) in
      if is_tool_use m then past else next

  unfoldable pub enforce_tool_result_adjacency : List (Message V) → List (Message V)
  enforce_tool_result_adjacency messages = adjacency_from (length messages) messages
