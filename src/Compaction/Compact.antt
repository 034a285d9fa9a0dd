-- ===== src/Compaction/Compact.antt =====
-- crates/pirs-agent/src/compaction.rs, lines 279 to 475: the transcript that is summarised, what
-- the summary stream yields, and the replacement of the dropped messages. The provider's stream is
-- a parameter: the events that it sends for a model and a prompt.
use pirs.Prelude.{
  ℕ, zero, suc, ◌-◌, Bool, true, false, ◌||◌, Option, none, some, List, [], ◌∷◌, ◌++◌, ltb,
  if◌then◌else◌,
}
use pirs.Prelude.Lists.{length, take, drop}
use pirs.Prelude.Text.{Text, lit, trim, byte_len, len_utf8}
use pirs.Json.{JsonLib}
use pirs.Message.{
  StreamEvent, start, text_delta, thinking_delta, tool_call_delta, done, stream_error, StopReason,
  Usage, zero_usage, add_u64, add_usage, ContentBlock, text, thinking, image, tool_call,
  UserContent, plain, blocks, AssistantMessage, Message, user, assistant, tool_result, user_message,
  texts, join,
}
use pirs.Compaction.Cut.{
  CompactionConfig, estimate_message_tokens, find_cut_point_ex, tool_pairs_intact,
}

abbrev pub summary_prefix : Text
summary_prefix = lit "[Earlier conversation summarized by the agent]"

abbrev pub summary_suffix : Text
summary_suffix = lit "[End of summary. Continue the work from this state.]"

abbrev pub max_summary_input_chars : ℕ
max_summary_input_chars = 80_000

abbrev pub is_empty {ℓ} : {A : Type ℓ} → List A → Bool
is_empty [] = true
is_empty (x ∷ xs) = false

-- Bytes are skipped up to `n`, and on to the next character boundary.
unfoldable pub skip_bytes : ℕ → Text → Text
skip_bytes n [] = []
skip_bytes zero (c ∷ s) = c ∷ s
skip_bytes (suc n) (c ∷ s) = skip_bytes (suc n - len_utf8 c) s

-- The cut of an oversized transcript.
unfoldable pub clip_transcript : Text → Text
clip_transcript t =
    if ltb max_summary_input_chars (byte_len t)
    then lit "[oldest messages omitted]\n" ++ skip_bytes (byte_len t - max_summary_input_chars) t
    else t

-- The variables of the loop over the stream.
pub record Collected : Type 0 where
  pub text : Text
  pub stop : StopReason
  pub error : Option Text
  pub usage : Usage

abbrev pub nothing_collected : Collected
nothing_collected = record { text = []; stop = StopReason.stop; error = none; usage = zero_usage }

unfoldable pub collect : {V : Type 0} → Collected → List (StreamEvent V) → Collected
collect c [] = c
collect c (text_delta d ∷ es) = collect (record c { text = c.text ++ d }) es
collect c (done m ∷ es) =
    collect
      (record {
        text = if is_empty c.text then join [] (texts m.content) else c.text;
        stop = m.stop_reason;
        error = m.error_message;
        usage = m.usage;
      })
      es
collect c (start ∷ es) = collect c es
collect c (thinking_delta d ∷ es) = collect c es
collect c (tool_call_delta ∷ es) = collect c es
collect c (stream_error e ∷ es) = collect c es

pub data Summary : Type 0 where
  summarized : Text → Usage → Summary
  failed : Text → Summary

abbrev stop_name : StopReason → Text
stop_name StopReason.stop = lit "Stop"
stop_name StopReason.length = lit "Length"
stop_name StopReason.tool_use = lit "ToolUse"
stop_name StopReason.error = lit "Error"
stop_name StopReason.aborted = lit "Aborted"

abbrev text_or_else : Option Text → Text → Text
text_or_else none d = d
text_or_else (some t) d = t

-- The final `match`.
unfoldable pub conclude : Collected → Summary
conclude c =
    let failure = failed (
      lit "summarization failed: "
      ++ text_or_else c.error (lit "stop reason " ++ stop_name c.stop)) in
    let usable = if is_empty (trim c.text) then failure else summarized c.text c.usage in
    elim c.stop [
      | StopReason.stop ↦ usable
      | StopReason.tool_use ↦ usable
      | StopReason.aborted ↦ failed (lit "summarization aborted")
      | StopReason.length ↦ failure
      | StopReason.error ↦ failure
    ]

-- What `CompactionStart` and `CompactionEnd` report.
pub data Event : Type 0 where
  compaction_start : Event
  compaction_end : Bool → Option Text → Event

-- What `compact_messages` reads and writes: the messages, the usage of calls outside them, the
-- messages handed to the global memory if there is one, and the events emitted.
pub record State (V : Type 0) : Type 0 where
  pub messages : List (Message V)
  pub extra_usage : Usage
  pub memory : Option (List (Message V))
  pub events : List Event

abbrev pub remember :
    {V : Type 0} → List (Message V) → Option (List (Message V)) → Option (List (Message V))
remember ms none = none
remember ms (some stored) = some (stored ++ ms)

-- The usage of the assistant messages, added up from the left.
unfoldable pub dropped_usage : {V : Type 0} → Usage → List (Message V) → Usage
dropped_usage acc [] = acc
dropped_usage acc (user u ∷ ms) = dropped_usage acc ms
dropped_usage acc (assistant a ∷ ms) = dropped_usage (add_usage acc a.usage) ms
dropped_usage acc (tool_result r ∷ ms) = dropped_usage acc ms

unfoldable pub credit : Usage → Usage → Usage
credit dropped extra =
    if ltb 0 dropped.input || ltb 0 dropped.output || ltb 0 dropped.total_tokens
    then add_usage extra dropped
    else extra

unfoldable pub summary_text : Text → Text
summary_text summary = summary_prefix ++ (lit "\n" ++ (summary ++ (lit "\n" ++ summary_suffix)))

-- `config.aux_model` if it is not blank, else the main model.
unfoldable pub summary_model : CompactionConfig → Text → Text
summary_model config model = elim config.aux_model [
  | none ↦ model
  | some m ↦ if is_empty (trim m) then model else m
]

module _ (J : JsonLib) where
  open J use {Value, to_string}

  called : List (ContentBlock Value) → List Text
  called [] = []
  called (tool_call id name arguments sig ∷ bs) =
      (lit "[called " ++ (name ++ (lit " with " ++ (to_string arguments ++ lit "]")))) ∷ called bs
  called (text t sig ∷ bs) = called bs
  called (thinking t sig redacted ∷ bs) = called bs
  called (image d mime ∷ bs) = called bs

  abbrev user_body : UserContent Value → Text
  user_body (plain t) = t
  user_body (blocks bs) = join (lit "\n") (texts bs)

  abbrev cap_2000 : Text → Text
  cap_2000 t = if ltb 2000 (length t) then take 2000 t ++ lit "..." else t

  assistant_parts : AssistantMessage Value → List Text
  unfolding called texts join
  assistant_parts a =
      let said = join [] (texts a.content) in
      (if is_empty said then [] else said ∷ []) ++ called a.content

  unfoldable pub transcript_line : Message Value → Text
  unfolding assistant_parts texts join lit
  transcript_line (user u) = lit "User: " ++ (user_body u.content ++ lit "\n\n")
  transcript_line (assistant a) =
      let parts = assistant_parts a in
      if is_empty parts then [] else lit "Assistant: " ++ (join (lit "\n") parts ++ lit "\n\n")
  transcript_line (tool_result r) =
      lit "Tool("
      ++ (r.tool_name
          ++ (lit "): " ++ (cap_2000 (join (lit "\n") (texts r.content)) ++ lit "\n\n")))

  unfoldable pub transcript_text : List (Message Value) → Text
  unfolding transcript_line
  transcript_text [] = []
  transcript_text (m ∷ ms) = transcript_line m ++ transcript_text ms

  -- `stream` is the provider: the events for a model and the text of the one user message.
  module _ (stream : Text → Text → List (StreamEvent Value)) (now : ℕ) where
    unfoldable pub summarize : Text → List (Message Value) → Summary
    summarize model messages =
        let prompt =
          lit "Summarize this conversation transcript:\n\n"
          ++ clip_transcript (transcript_text messages) in
        conclude (collect nothing_collected (stream model prompt))

    -- What follows the summary.
    unfoldable pub splice : ℕ → State Value → Summary → State Value × Bool
    splice cut s (summarized summary usage) = (
      record s {
        messages = user_message now (summary_text summary) ∷ drop cut s.messages;
        extra_usage =
            add_usage (credit (dropped_usage zero_usage (take cut s.messages)) s.extra_usage) usage;
        events = s.events ++ compaction_end false none ∷ [];
      },
      true,
    )
    splice cut s (failed e) =
        (record s { events = s.events ++ compaction_end true (some e) ∷ [] }, false)

    unfoldable pub compact_at : Text → CompactionConfig → State Value → ℕ → State Value × Bool
    compact_at model config s cut =
        let prefix = take cut s.messages in
        let begun = record s {
          memory = remember prefix s.memory;
          events = s.events ++ compaction_start ∷ [];
        } in
        if tool_pairs_intact (drop cut s.messages)
        then splice cut begun (summarize (summary_model config model) prefix)
        else (s, false)

    unfoldable pub compact_messages : Text → CompactionConfig → State Value → State Value × Bool
    compact_messages model config s =
        elim (find_cut_point_ex (estimate_message_tokens J) s.messages config.keep_recent_tokens
          config.min_recent_user_turns) [
            | none ↦ (s, false)
            | some cut ↦ compact_at model config s cut
          ]

unfoldable pub last_input_tokens : {V : Type 0} → List (Message V) → Option ℕ
last_input_tokens [] = none
last_input_tokens (m ∷ ms) = elim (last_input_tokens ms) [
  | some n ↦ some n
  | none ↦ elim m [
    | user u ↦ none
    | assistant a ↦ some (add_u64 a.usage.input a.usage.cache_read)
    | tool_result r ↦ none
  ]
]
