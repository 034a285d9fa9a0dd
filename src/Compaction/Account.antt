-- ===== src/Compaction/Account.antt =====
-- What a compaction keeps: the conversation on failure, the tool pairs, and the tokens of the
-- assistant messages.
use pirs.Prelude.{
  ℕ, ◌+◌, ◌%◌, ◌^◌, ◌≡◌, refl, sym, ap, ◌∙◌, inl, inr, true, false, some, List, [], ◌∷◌, ◌++◌,
  arith, Bool-cases, Option-cases,
}
use pirs.Prelude.Lists.{take, drop, take-append-drop}
use pirs.Prelude.Text.{Text}
use pirs.Json.{JsonLib}
use pirs.Message.{
  StreamEvent, Usage, zero_usage, add_usage, Message, user, assistant, tool_result, user_message,
}
use pirs.Compaction.Cut.{
  CompactionConfig, estimate_message_tokens, find_cut_point_ex, tool_pairs_intact,
}
use pirs.Compaction.Range.{IsInside, find_cut_point_ex-IsInside}
use pirs.Compaction.Compact.{
  Summary, summarized, failed, State, dropped_usage, credit, summary_text, summary_model, summarize,
  splice, compact_at, remember, compaction_start, compact_messages,
}

-- The counters by which a credit is decided.
pub data Field : Type 0 where
  input output total : Field

abbrev pub read : Field → Usage → ℕ
read input u = u.input
read output u = u.output
read total u = u.total_tokens

-- The tokens of one counter in the assistant messages of a list.
abbrev pub counted : {V : Type 0} → Field → List (Message V) → ℕ
counted f [] = 0
counted f (user u ∷ ms) = counted f ms
counted f (assistant a ∷ ms) = read f a.usage + counted f ms
counted f (tool_result r ∷ ms) = counted f ms

-- One counter over the assistant messages and the extra usage, as the machine holds it.
abbrev pub spent : {V : Type 0} → Field → State V → ℕ
spent f s = (read f s.extra_usage + counted f s.messages) % 2 ^ 64

read-add_usage : (f : Field) (u v : Usage) → read f (add_usage u v) ≡ (read f u + read f v) % 2 ^ 64
unfolding add_usage
read-add_usage input u v = refl
read-add_usage output u v = refl
read-add_usage total u v = refl

module _ {V : Type 0} where
  counted-append :
      (f : Field) (xs ys : List (Message V)) → counted f (xs ++ ys) ≡ counted f xs + counted f ys
  counted-append f [] ys = omega arith
  counted-append f (user u ∷ xs) ys = counted-append f xs ys
  counted-append f (assistant a ∷ xs) ys = omega (arith, counted-append f xs ys)
  counted-append f (tool_result r ∷ xs) ys = counted-append f xs ys

  dropped_usage-counted :
      (f : Field) (acc : Usage) (ms : List (Message V))
      → read f (dropped_usage acc ms) % 2 ^ 64 ≡ (read f acc + counted f ms) % 2 ^ 64
  unfolding dropped_usage
  dropped_usage-counted f acc [] = omega arith
  dropped_usage-counted f acc (user u ∷ ms) = dropped_usage-counted f acc ms
  dropped_usage-counted f acc (assistant a ∷ ms) =
      omega
        (arith, dropped_usage-counted f (add_usage acc a.usage) ms, read-add_usage f acc a.usage)
  dropped_usage-counted f acc (tool_result r ∷ ms) = dropped_usage-counted f acc ms

credit-read :
    (f : Field) (dropped extra : Usage)
    → read f (credit dropped extra) % 2 ^ 64 ≡ (read f extra + read f dropped) % 2 ^ 64
unfolding credit add_usage
credit-read input dropped extra = ground arith
credit-read output dropped extra = ground arith
credit-read total dropped extra = ground arith

read-zero : (f : Field) → read f zero_usage ≡ 0
read-zero input = refl
read-zero output = refl
read-zero total = refl

-- The accounts before and after the dropped messages are exchanged for a credit.
account :
    {V : Type 0} (f : Field) (ms : List (Message V)) (cut : ℕ) (extra usage : Usage)
    → (read f (add_usage (credit (dropped_usage zero_usage (take cut ms)) extra) usage)
          + counted f (drop cut ms))
        % 2 ^ 64
      ≡ ((read f extra + counted f ms) % 2 ^ 64 + read f usage) % 2 ^ 64
account f ms cut extra usage =
    let dropped = dropped_usage zero_usage (take cut ms) in
    let parts : counted f ms ≡ counted f (take cut ms) + counted f (drop cut ms) =
      ap (counted f) (sym (take-append-drop cut ms))
      ∙ counted-append f (take cut ms) (drop cut ms) in
    omega (
      arith,
      read-add_usage f (credit dropped extra) usage,
      credit-read f dropped extra,
      dropped_usage-counted f zero_usage (take cut ms),
      read-zero f,
    )

module _ (J : JsonLib) (stream : Text → Text → List (StreamEvent J.Value)) (now : ℕ) (model : Text)
    (config : CompactionConfig) where
  open J use {Value}

  splice-true :
      (cut : ℕ) (s s' : State Value) (r : Summary)
      → splice J stream now cut s r ≡ (s', true)
      → (summary : Text) × (usage : Usage) × (r ≡ summarized summary usage)
        × (s'.messages ≡ user_message now (summary_text summary) ∷ drop cut s.messages)
        × (s'.extra_usage
            ≡ add_usage
                (credit (dropped_usage zero_usage (take cut s.messages)) s.extra_usage)
                usage)
  unfolding splice
  splice-true cut s s' (summarized summary usage) h =
      (summary, usage, refl, ap (λ p. p.0.messages) (sym h), ap (λ p. p.0.extra_usage) (sym h))
  splice-true cut s s' (failed e) h = absurd (ground arith)

  -- The state once the dropped messages are remembered and the start is announced.
  abbrev begun : State Value → ℕ → State Value
  begun s cut = record s {
    memory = remember (take cut s.messages) s.memory;
    events = s.events ++ compaction_start ∷ [];
  }

  compact_at-splice :
      (s s' : State Value) (cut : ℕ)
      → compact_at J stream now model config s cut ≡ (s', true)
      → (tool_pairs_intact (drop cut s.messages) ≡ true)
        × (splice J stream now cut
              (begun s cut)
              (summarize J stream now (summary_model config model) (take cut s.messages))
            ≡ (s', true))
  unfolding compact_at
  compact_at-splice s s' cut h = elim (Bool-cases (tool_pairs_intact (drop cut s.messages))) [
    | inl e ↦ (e, rw e at h)
    | inr e ↦ absurd (ground arith)
  ]

  compact_at-true :
      (s s' : State Value) (cut : ℕ)
      → compact_at J stream now model config s cut ≡ (s', true)
      → (summary : Text) × (s'.messages
          ≡ user_message now (summary_text summary) ∷ drop cut s.messages)
        × (tool_pairs_intact s'.messages ≡ true)
  unfolding tool_pairs_intact user_message
  compact_at-true s s' cut h =
      let (intact, spliced) = compact_at-splice s s' cut h in
      let (summary, usage, told, same, extra) = splice-true cut (begun s cut) s' _ spliced in
      (summary, same, rw same intact)

  compact_at-spent :
      (f : Field) (s s' : State Value) (cut : ℕ) (summary : Text) (usage : Usage)
      → summarize J stream now (summary_model config model) (take cut s.messages)
        ≡ summarized summary usage
      → compact_at J stream now model config s cut ≡ (s', true)
      → spent f s' ≡ (spent f s + read f usage) % 2 ^ 64
  unfolding user_message
  compact_at-spent f s s' cut summary usage told h =
      let (intact, spliced) = compact_at-splice s s' cut h in
      let (summary', usage', told', same, extra) = splice-true cut (begun s cut) s' _ spliced in
      let dropped = dropped_usage zero_usage (take cut s.messages) in
      let one_usage : usage' ≡ usage = cc in
      rw (same, extra, one_usage) (account f s.messages cut s.extra_usage usage)

  -- When no compaction happens, the messages and the usage are those of before.
  pub compact_messages-false :
      (s : State Value)
      → (compact_messages J stream now model config s).1 ≡ false
      → ((compact_messages J stream now model config s).0.messages ≡ s.messages)
        × ((compact_messages J stream now model config s).0.extra_usage ≡ s.extra_usage)
  unfolding compact_messages compact_at splice
  compact_messages-false s h = ground arith

  -- A compaction that reports success has dropped a proper prefix, put one summary in its place,
  -- and left a conversation whose tool calls and results are all paired.
  pub compact_messages-true :
      (s s' : State Value)
      → compact_messages J stream now model config s ≡ (s', true)
      → (cut : ℕ) × (summary : Text) × IsInside s.messages cut
        × (s'.messages ≡ user_message now (summary_text summary) ∷ drop cut s.messages)
        × (tool_pairs_intact s'.messages ≡ true)
  unfolding compact_messages
  compact_messages-true s s' h =
      elim (Option-cases (
        find_cut_point_ex (estimate_message_tokens J) s.messages config.keep_recent_tokens
          config.min_recent_user_turns)) [
            | inl e ↦ absurd (ground arith)
            | inr (cut, e) ↦
                let (summary, same, intact) = compact_at-true s s' cut (ground arith) in
                (
                  cut,
                  summary,
                  find_cut_point_ex-IsInside (estimate_message_tokens J) s.messages
                      config.keep_recent_tokens config.min_recent_user_turns cut e,
                  same,
                  intact,
                )
          ]

  -- A successful compaction keeps the account of the assistant messages: each of the counters of
  -- input, output and total tokens, summed over the assistant messages and the extra usage, grows
  -- modulo 2 ^ 64 by what the summary call itself used, whatever was dropped. The usage of delegates
  -- in the details of tool results is not part of it.
  pub compact_messages-spent :
      (f : Field) (s s' : State Value) (cut : ℕ) {summary : Text} {usage : Usage}
      → find_cut_point_ex
          (estimate_message_tokens J)
          s.messages
          config.keep_recent_tokens
          config.min_recent_user_turns
        ≡ some cut
      → summarize J stream now (summary_model config model) (take cut s.messages)
        ≡ summarized summary usage
      → compact_messages J stream now model config s ≡ (s', true)
      → spent f s' ≡ (spent f s + read f usage) % 2 ^ 64
  unfolding compact_messages
  compact_messages-spent f s s' cut {summary} {usage} found told h =
      compact_at-spent f s s' cut summary usage told (rw (found, compact_messages) at h)
