-- ===== src/Compaction/Shrunk.antt =====
-- What the shrinking of tool results keeps.
use pirs.Prelude.{
  ℕ, ◌+◌, ◌-◌, ◌≡◌, refl, ap, inl, inr, Bool, true, false, not, ◌&&◌, Option, none, some, List, [],
  ◌∷◌, ◌++◌, arith, leb, Bool-cases, Option-cases,
}
use pirs.Prelude.Lists.{length, drop, any, filter, length-append, length-drop}
use pirs.Prelude.Text.{Text, lit, text_eq}
use pirs.Json.{JsonLib}
use pirs.Message.{ToolResultMessage, Message, user, assistant, tool_result, texts, join, tool_calls}
use pirs.Compaction.Cut.{open_calls, pairs_from, tool_pairs_intact}
use pirs.Compaction.Shrink.{
  model_text, filled, shown, cut_note, ui_text, display_text, set_ui_text, kept_details,
  shrink_result, shrink_oversized_tool_results,
}

module _ (J : JsonLib) where
  open J use {Value, get, as_str, insert_str, object_str, get_insert, get_object}

  -- What the user sees of the tool results of a conversation.
  abbrev pub displayed : List (Message Value) → List Text
  displayed [] = []
  displayed (user u ∷ ms) = displayed ms
  displayed (assistant a ∷ ms) = displayed ms
  displayed (tool_result r ∷ ms) = display_text J r ∷ displayed ms

  -- No tool result shows the model more than `n` characters.
  abbrev pub results_fit : ℕ → List (Message Value) → Bool
  results_fit n [] = true
  results_fit n (user u ∷ ms) = results_fit n ms
  results_fit n (assistant a ∷ ms) = results_fit n ms
  results_fit n (tool_result r ∷ ms) = leb (length (model_text r)) n && results_fit n ms

  ui_text-set : (d : Option Value) (t : Text) → ui_text J (some (set_ui_text J d t)) ≡ some t
  unfolding ui_text set_ui_text
  ui_text-set none t = get_object (lit "uiText") t
  ui_text-set (some d) t = elim (Option-cases (insert_str d (lit "uiText") t)) [
    | inl e ↦ rw (set_ui_text, e) (get_object (lit "uiText") t)
    | inr (w, e) ↦ rw (set_ui_text, e) (get_insert d w (lit "uiText") t e)
  ]

  filled-some : (t : Text) (n : ℕ) → leb (length t) n ≡ false → filled (some t) ≡ some t
  filled-some [] n h = absurd (ground arith)
  filled-some (c ∷ t) n h = refl

  shown-kept :
      (d : Option Value) (t x : Text)
      → filled (some t) ≡ some t
      → shown (filled (ui_text J (kept_details J d t))) x ≡ shown (filled (ui_text J d)) t
  unfolding kept_details
  shown-kept d t x h = elim (Option-cases (filled (ui_text J d))) [
    | inl e ↦ rw (kept_details, e, ui_text-set d t, h) refl
    | inr (ui, e) ↦ rw (kept_details, e, e) refl
  ]

  shrink_result-display :
      (n : ℕ) (r : ToolResultMessage Value)
      → display_text J (shrink_result J n r).0 ≡ display_text J r
  unfolding shrink_result display_text
  shrink_result-display n r = elim (Bool-cases (leb (length (model_text r)) n)) [
    | inl e ↦ rw (shrink_result, e) refl
    | inr e ↦
        rw (shrink_result, e)
          (shown-kept r.details (model_text r) _ (filled-some (model_text r) n e))
  ]

  length-cut :
      (n : ℕ) (r : ToolResultMessage Value)
      → leb (length (model_text r)) n ≡ false
      → model_text (shrink_result J n r).0
        ≡ cut_note ++ drop (length (model_text r) - n) (model_text r)
  unfolding texts join shrink_result model_text lit
  length-cut n r e = rw (shrink_result, e) (unfold model_text in refl)

  shrink_result-fits :
      (n : ℕ) (r : ToolResultMessage Value)
      → leb (length (model_text (shrink_result J n r).0)) (length cut_note + n) ≡ true
  unfolding shrink_result model_text
  shrink_result-fits n r = elim (Bool-cases (leb (length (model_text r)) n)) [
    | inl e ↦ rw (shrink_result, e) (ground arith)
    | inr e ↦
        let t = model_text r in
        rw (length-cut n r e) (
          ground
            (arith, length-append cut_note (drop (length t - n) t), length-drop (length t - n) t))
  ]

  -- The user still sees every tool result as before, in full.
  pub shrink-displayed :
      (n : ℕ) (ms : List (Message Value))
      → displayed (shrink_oversized_tool_results J n ms).0 ≡ displayed ms
  unfolding shrink_oversized_tool_results
  shrink-displayed n [] = refl
  shrink-displayed n (user u ∷ ms) = shrink-displayed n ms
  shrink-displayed n (assistant a ∷ ms) = shrink-displayed n ms
  shrink-displayed n (tool_result r ∷ ms) =
      rw (shrink_result-display n r, shrink-displayed n ms) refl

  -- No tool result is left with more text for the model than the limit and the note on the cut.
  pub shrink-results_fit :
      (n : ℕ) (ms : List (Message Value))
      → results_fit (length cut_note + n) (shrink_oversized_tool_results J n ms).0 ≡ true
  unfolding shrink_oversized_tool_results
  shrink-results_fit n [] = refl
  shrink-results_fit n (user u ∷ ms) = shrink-results_fit n ms
  shrink-results_fit n (assistant a ∷ ms) = shrink-results_fit n ms
  shrink-results_fit n (tool_result r ∷ ms) =
      rw (shrink_result-fits n r, shrink-results_fit n ms) refl

  shrink_result-id :
      (n : ℕ) (r : ToolResultMessage Value) → (shrink_result J n r).0.tool_call_id ≡ r.tool_call_id
  unfolding shrink_result
  shrink_result-id n r = ground arith

  shrink-pairs :
      (n : ℕ) (ids : List Text) (ms : List (Message Value))
      → pairs_from ids (shrink_oversized_tool_results J n ms).0 ≡ pairs_from ids ms
  unfolding shrink_oversized_tool_results pairs_from
  shrink-pairs n [] [] = refl
  shrink-pairs n (i ∷ ids) [] = refl
  shrink-pairs n [] (user u ∷ ms) = shrink-pairs n [] ms
  shrink-pairs n (i ∷ ids) (user u ∷ ms) = shrink-pairs n (i ∷ ids) ms
  shrink-pairs n ids (assistant a ∷ ms) = shrink-pairs n (open_calls (tool_calls a) ids) ms
  shrink-pairs n ids (tool_result r ∷ ms) = rw (shrink_result-id n r) (
      ap (λ b. any (text_eq r.tool_call_id) ids && b)
        (shrink-pairs n (filter (λ id. not (text_eq r.tool_call_id id)) ids) ms))

  -- The tool calls and results are paired exactly as before.
  pub shrink-tool_pairs_intact :
      (n : ℕ) (ms : List (Message Value))
      → tool_pairs_intact (shrink_oversized_tool_results J n ms).0 ≡ tool_pairs_intact ms
  unfolding tool_pairs_intact
  shrink-tool_pairs_intact n ms = shrink-pairs n [] ms
