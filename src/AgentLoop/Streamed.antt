-- ===== src/AgentLoop/Streamed.antt =====
-- What the stream leaves in the conversation: one more assistant message, whose call ids are distinct
-- if the provider's are.
use pirs.Prelude.{◌≡◌, refl, ap, ◌∙◌, Bool, true, false, Option, none, some, List, [], ◌∷◌, ◌++◌}
use pirs.Prelude.Text.{Text}
use pirs.Message.{
  StreamEvent, start, text_delta, thinking_delta, tool_call_delta, done, stream_error, ContentBlock,
  text, thinking, image, tool_call, AssistantMessage, Message, assistant,
}
use pirs.ToolExec.Prepare.{calls_of, extract_tool_calls}
use pirs.AgentLoop.State.{Context, LoopConfig, LoopState, emit_all, CascadeConfig}
use pirs.AgentLoop.Stream.{
  text_onto, thinking_onto, append_text, append_thinking, append_delta, append_delta_to_last,
  replace_last, pop_assistant, Streaming, on_delta, consume, with_error, empty_message, request,
  stream_into, stream_once, after_judge, stream_with, stream_assistant,
}
use pirs.AgentLoop.Pairs.{distinct_ids, ids_of}

module _ {V : Type 0} where
  -- The call ids of a message are distinct.
  abbrev pub IsDistinct : AssistantMessage V → Type 0
  IsDistinct a = distinct_ids (ids_of (extract_tool_calls a)) ≡ true

  -- Every message that a stream completes has distinct call ids.
  abbrev pub AreDistinct : List (StreamEvent V) → Type 0
  AreDistinct [] = Unit {0}
  AreDistinct (start ∷ es) = AreDistinct es
  AreDistinct (tool_call_delta ∷ es) = AreDistinct es
  AreDistinct (text_delta d ∷ es) = AreDistinct es
  AreDistinct (thinking_delta d ∷ es) = AreDistinct es
  AreDistinct (stream_error e ∷ es) = AreDistinct es
  AreDistinct (done m ∷ es) = IsDistinct m × AreDistinct es

  text_onto-calls :
      (d : Text) (bs : List (ContentBlock V)) → calls_of (text_onto d bs) ≡ calls_of bs
  unfolding text_onto calls_of
  text_onto-calls d [] = refl
  text_onto-calls d (text t sig ∷ []) = refl
  text_onto-calls d (thinking t sig redacted ∷ []) = refl
  text_onto-calls d (image i mime ∷ []) = refl
  text_onto-calls d (tool_call id name args sig ∷ []) = refl
  text_onto-calls d (text t sig ∷ c ∷ bs) = text_onto-calls d (c ∷ bs)
  text_onto-calls d (thinking t sig redacted ∷ c ∷ bs) = text_onto-calls d (c ∷ bs)
  text_onto-calls d (image i mime ∷ c ∷ bs) = text_onto-calls d (c ∷ bs)
  text_onto-calls d (tool_call id name args sig ∷ c ∷ bs) =
      ap (◌∷◌ (record { id = id; name = name; arguments = args })) (text_onto-calls d (c ∷ bs))

  thinking_onto-calls :
      (d : Text) (bs : List (ContentBlock V)) → calls_of (thinking_onto d bs) ≡ calls_of bs
  unfolding thinking_onto calls_of
  thinking_onto-calls d [] = refl
  thinking_onto-calls d (text t sig ∷ []) = refl
  thinking_onto-calls d (thinking t sig redacted ∷ []) = refl
  thinking_onto-calls d (image i mime ∷ []) = refl
  thinking_onto-calls d (tool_call id name args sig ∷ []) = refl
  thinking_onto-calls d (text t sig ∷ c ∷ bs) = thinking_onto-calls d (c ∷ bs)
  thinking_onto-calls d (thinking t sig redacted ∷ c ∷ bs) = thinking_onto-calls d (c ∷ bs)
  thinking_onto-calls d (image i mime ∷ c ∷ bs) = thinking_onto-calls d (c ∷ bs)
  thinking_onto-calls d (tool_call id name args sig ∷ c ∷ bs) =
      ap (◌∷◌ (record { id = id; name = name; arguments = args })) (thinking_onto-calls d (c ∷ bs))

  append_delta-IsDistinct :
      (is_thinking : Bool) (d : Text) (a : AssistantMessage V)
      → IsDistinct a
      → IsDistinct (append_delta is_thinking d a)
  unfolding append_text append_thinking extract_tool_calls
  append_delta-IsDistinct true d a h =
      ap (λ cs. distinct_ids (ids_of cs)) (thinking_onto-calls d a.content) ∙ h
  append_delta-IsDistinct false d a h =
      ap (λ cs. distinct_ids (ids_of cs)) (text_onto-calls d a.content) ∙ h

  append_delta_to_last-append :
      (is_thinking : Bool) (d : Text) (ms : List (Message V)) (a : AssistantMessage V)
      → append_delta_to_last is_thinking d (ms ++ assistant a ∷ [])
        ≡ ms ++ assistant (append_delta is_thinking d a) ∷ []
  unfolding append_delta_to_last
  append_delta_to_last-append b d [] a = refl
  append_delta_to_last-append b d (m ∷ []) a = refl
  append_delta_to_last-append b d (m ∷ n ∷ ms) a =
      ap (◌∷◌ m) (append_delta_to_last-append b d (n ∷ ms) a)

  replace_last-append :
      (ms : List (Message V)) (a b : AssistantMessage V)
      → replace_last b (ms ++ assistant a ∷ []) ≡ ms ++ assistant b ∷ []
  unfolding replace_last
  replace_last-append [] a b = refl
  replace_last-append (m ∷ []) a b = refl
  replace_last-append (m ∷ n ∷ ms) a b = ap (◌∷◌ m) (replace_last-append (n ∷ ms) a b)

  pop_assistant-append :
      (ms : List (Message V)) (a : AssistantMessage V) → pop_assistant (ms ++ assistant a ∷ []) ≡ ms
  unfolding pop_assistant
  pop_assistant-append [] a = refl
  pop_assistant-append (m ∷ []) a = refl
  pop_assistant-append (m ∷ n ∷ ms) a = ap (◌∷◌ m) (pop_assistant-append (n ∷ ms) a)

  -- While the stream is read, the context ends with one assistant message.
  abbrev IsReading : List (Message V) → Streaming V → Type 0
  IsReading ms c =
      ((a : AssistantMessage V) × (c.messages ≡ ms ++ assistant a ∷ [])) × IsDistinct c.partial

  on_delta-IsReading :
      (ms : List (Message V)) (b : Bool) (d : Text) (c : Streaming V)
      → IsReading ms c
      → IsReading ms (on_delta b d c)
  unfolding on_delta
  on_delta-IsReading ms b d c ((a, e), h) = (
    (append_delta b d a, ap (append_delta_to_last b d) e ∙ append_delta_to_last-append b d ms a),
    append_delta-IsDistinct b d c.partial h,
  )

  consume-IsReading :
      (ms : List (Message V)) (c : Streaming V) (es : List (StreamEvent V))
      → IsReading ms c
      → AreDistinct es
      → IsReading ms (consume c es)
  unfolding consume
  consume-IsReading ms c [] h d = h
  consume-IsReading ms c (start ∷ es) h d = consume-IsReading ms c es h d
  consume-IsReading ms c (tool_call_delta ∷ es) h d = consume-IsReading ms c es h d
  consume-IsReading ms c (text_delta t ∷ es) h d =
      consume-IsReading ms _ es (on_delta-IsReading ms false t c h) d
  consume-IsReading ms c (thinking_delta t ∷ es) h d =
      consume-IsReading ms _ es (on_delta-IsReading ms true t c h) d
  consume-IsReading ms c (stream_error e ∷ es) h d =
      consume-IsReading ms (record c { last_error = some e }) es h d
  consume-IsReading ms c (done m ∷ es) (r, h) (k, d) =
      consume-IsReading ms (record c { partial = m }) es (r, k) d

  with_error-calls :
      (e : Option Text) (a : AssistantMessage V)
      → extract_tool_calls (with_error e a) ≡ extract_tool_calls a
  unfolding with_error extract_tool_calls
  with_error-calls none a = refl
  with_error-calls (some e) a = refl

module _ {V W : Type 0} (cfg : LoopConfig V W) where
  -- The provider never repeats a call id within one message.
  abbrev pub ProviderIsDistinct : Type 0
  ProviderIsDistinct =
      (model : Text) (context : Context V) (key : Option Text) (w : W)
      → AreDistinct (cfg.provider model context key w).1

  -- The state after a stream: one more message, and the pending ones of before.
  abbrev pub IsStreamed : LoopState V W → LoopState V W × AssistantMessage V → Type 0
  IsStreamed s p =
      (p.0.messages ≡ s.messages ++ assistant p.1 ∷ []) × (p.0.pending ≡ s.pending) × IsDistinct p.1

  stream_into-IsStreamed :
      (model : Text) (s : LoopState V W) (p : W × List (StreamEvent V))
      → AreDistinct p.1
      → IsStreamed s (stream_into cfg model s p)
  unfolding stream_into emit_all empty_message extract_tool_calls calls_of
  stream_into-IsStreamed model s (w, es) d =
      let partial = empty_message cfg model w in
      let ((a, e), h) = consume-IsReading s.messages _ es ((partial, refl), refl) d in
      (
        ap (replace_last _) e ∙ replace_last-append s.messages a _,
        refl,
        ap (λ cs. distinct_ids (ids_of cs)) (with_error-calls _ _) ∙ h,
      )

  stream_once-IsStreamed :
      ProviderIsDistinct
      → (model : Text) (s : LoopState V W) → IsStreamed s (stream_once cfg model s)
  unfolding stream_once request
  stream_once-IsStreamed d model s = stream_into-IsStreamed model s _ (d _ _ _ _)

  after_judge-IsStreamed :
      ProviderIsDistinct
      → (s t : LoopState V W) (draft : AssistantMessage V) (p : W × Bool) → IsStreamed s (t, draft)
      → IsStreamed s (after_judge cfg t draft p)
  unfolding after_judge emit_all
  after_judge-IsStreamed d s t draft (w, true) h = h
  after_judge-IsStreamed d s t draft (w, false) (e, k, h) =
      let (e', k', h') = stream_once-IsStreamed d cfg.model _ in
      (
        e'
            ∙ ap (λ ms. ms ++ assistant (after_judge cfg t draft (w, false)).1 ∷ [])
                (ap pop_assistant e ∙ pop_assistant-append s.messages draft),
        k' ∙ k,
        h',
      )

  stream_with-IsStreamed :
      ProviderIsDistinct
      → (c : Option (CascadeConfig V W)) (s : LoopState V W) → IsStreamed s (stream_with cfg c s)
  unfolding stream_with
  stream_with-IsStreamed d none s = stream_once-IsStreamed d cfg.model s
  stream_with-IsStreamed d (some c) s =
      let p = stream_once cfg c.draft_model s in
      after_judge-IsStreamed d s p.0 p.1 (c.judge p.1 p.0.run.world)
        (stream_once-IsStreamed d c.draft_model s)

  -- Whatever a provider streams that never repeats a call id within one message, deltas, errors and
  -- completed messages in any order, with a draft or without: the conversation gets one assistant
  -- message, the one that is returned, its call ids are distinct, and the pending messages are kept.
  pub stream_assistant-IsStreamed :
      ProviderIsDistinct → (s : LoopState V W) → IsStreamed s (stream_assistant cfg s)
  unfolding stream_assistant
  stream_assistant-IsStreamed d s = stream_with-IsStreamed d cfg.cascade s
