-- ===== src/Usage/Balance.antt =====
-- The report accounts for all tokens in three ways, which agree.
use pirs.Prelude.{
  ℕ, ◌≡◌, refl, sym, ap, ◌∙◌, inl, inr, Option, none, some, List, [], ◌∷◌, ◌++◌, Bool-cases, ◌&&◌,
  ◌==◌,
}
use pirs.Prelude.Text.{Text, lit, text_eq}
use pirs.Json.{JsonLib}
use pirs.Message.{
  Usage, zero_usage, add_usage, add_usage_assoc, add_usage_comm, AssistantMessage, Message, user,
  assistant, tool_result,
}
use pirs.Usage.{
  UsageRecord, UsageReport, add_entry, report_main, report_delegate, report_details, report_message,
  report_all, usage_report, empty_report,
}

abbrev pub sum_calls : List UsageRecord → Usage
sum_calls [] = zero_usage
sum_calls (c ∷ cs) = add_usage c.usage (sum_calls cs)

abbrev pub sum_models : List (Text × Usage) → Usage
sum_models [] = zero_usage
sum_models ((m, u) ∷ es) = add_usage u (sum_models es)

-- The calls, the table of the models and the two kinds of usage come to the same.
abbrev pub IsBalanced : UsageReport → Type 0
IsBalanced r =
    (sum_calls r.calls ≡ add_usage r.main_usage r.delegate_usage)
    × (sum_models r.by_model ≡ add_usage r.main_usage r.delegate_usage)

-- `u` may move behind what stands after it.
add_usage_swap : (v u s : Usage) → add_usage (add_usage v u) s ≡ add_usage (add_usage v s) u
add_usage_swap v u s =
    add_usage_assoc v u s ∙ ap (add_usage v) (add_usage_comm u s) ∙ sym (add_usage_assoc v s u)

sum_calls-append :
    (cs : List UsageRecord) (c : UsageRecord)
    → sum_calls (cs ++ c ∷ []) ≡ add_usage (sum_calls cs) c.usage
sum_calls-append [] c = add_usage_comm c.usage zero_usage
sum_calls-append (d ∷ cs) c =
    ap (add_usage d.usage) (sum_calls-append cs c)
    ∙ sym (add_usage_assoc d.usage (sum_calls cs) c.usage)

zero-add_zero : add_usage zero_usage zero_usage ≡ zero_usage
unfolding add_usage
zero-add_zero = refl

sum_models-add_entry :
    (model : Text) (u : Usage) (es : List (Text × Usage))
    → sum_models (add_entry model u es) ≡ add_usage (sum_models es) u
unfolding add_entry
sum_models-add_entry model u [] =
    add_usage_swap zero_usage u zero_usage ∙ ap (λ z. add_usage z u) zero-add_zero
sum_models-add_entry model u ((m, v) ∷ es) = elim (Bool-cases (text_eq m model)) [
  | inl b ↦ rw (add_entry, b) (add_usage_swap v u (sum_models es))
  | inr b ↦
      rw (add_entry, b)
        (ap (add_usage v) (sum_models-add_entry model u es)
          ∙ sym (add_usage_assoc v (sum_models es) u))
]

report_main-IsBalanced :
    {V : Type 0} (a : AssistantMessage V) (r : UsageReport)
    → IsBalanced r
    → IsBalanced (report_main a r)
unfolding report_main
report_main-IsBalanced a r (h, k) =
    elim (Bool-cases (a.usage.total_tokens == 0 && a.usage.input == 0 && a.usage.output == 0)) [
      | inl b ↦ rw (report_main, b) (h, k)
      | inr b ↦
          let swap = add_usage_swap r.main_usage r.delegate_usage a.usage in
          rw (report_main, b)
            (
              sum_calls-append r.calls _ ∙ ap (λ s. add_usage s a.usage) h ∙ swap,
              sum_models-add_entry a.model a.usage r.by_model
                  ∙ ap (λ s. add_usage s a.usage) k
                  ∙ swap,
            )
    ]

report_delegate-IsBalanced :
    (time : ℕ) (model : Text) (u : Usage) (r : UsageReport)
    → IsBalanced r
    → IsBalanced (report_delegate time model u r)
unfolding report_delegate
report_delegate-IsBalanced time model u r (h, k) =
    elim (Bool-cases (u.total_tokens == 0 && u.input == 0)) [
      | inl b ↦ rw (report_delegate, b) (h, k)
      | inr b ↦
          let assoc = add_usage_assoc r.main_usage r.delegate_usage u in
          rw (report_delegate, b)
            (
              sum_calls-append r.calls _ ∙ ap (λ s. add_usage s u) h ∙ assoc,
              sum_models-add_entry model u r.by_model ∙ ap (λ s. add_usage s u) k ∙ assoc,
            )
    ]

module _ (J : JsonLib) (from_value : J.Value → Option Usage) where
  open J use {Value}

  report_details-IsBalanced :
      (time : ℕ) (details : Option Value) (r : UsageReport)
      → IsBalanced r
      → IsBalanced (report_details J from_value time details r)
  unfolding report_details
  report_details-IsBalanced time none r h = h
  report_details-IsBalanced time (some d) r h = report_delegate-IsBalanced time _ _ r h

  report_message-IsBalanced :
      (m : Message Value) (r : UsageReport)
      → IsBalanced r
      → IsBalanced (report_message J from_value m r)
  unfolding report_message
  report_message-IsBalanced (user u) r h = h
  report_message-IsBalanced (assistant a) r h = report_main-IsBalanced a r h
  report_message-IsBalanced (tool_result tr) r h =
      elim (Bool-cases (text_eq tr.tool_name (lit "delegate"))) [
        | inl b ↦ rw (report_message, b) (report_details-IsBalanced tr.timestamp tr.details r h)
        | inr b ↦ rw (report_message, b) h
      ]

  report_all-IsBalanced :
      (ms : List (Message Value)) (r : UsageReport)
      → IsBalanced r
      → IsBalanced (report_all J from_value ms r)
  unfolding report_all
  report_all-IsBalanced [] r h = h
  report_all-IsBalanced (m ∷ ms) r h =
      report_all-IsBalanced ms (report_message J from_value m r) (report_message-IsBalanced m r h)

  -- For every conversation, and each counter modulo 2 ^ 64, the usage of the listed calls, the usage
  -- over all models, and the main and the delegate usage together are the same.
  pub usage_report-IsBalanced :
      (ms : List (Message Value)) (extra : Usage) → IsBalanced (usage_report J from_value ms extra)
  unfolding usage_report
  usage_report-IsBalanced ms extra =
      report_all-IsBalanced ms (empty_report extra) (unfold add_usage in (refl, refl))
