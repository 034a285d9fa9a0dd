-- ===== src/Hybrid.antt =====
-- crates/pirs-agent/src/hybrid.rs, lines 30 to 254: a strong model advises a weak one that
-- thrashes, within a budget of calls. The strong model is a parameter: the events that it streams
-- for the text of the one user message. Calls come one after
-- the other. Theorems in `Advice`.
pub mod Advice
mod Samples
use pirs.Prelude.{
  ℕ, zero, suc, ◌+◌, ◌-◌, ◌%◌, ◌^◌, max, Bool, true, false, Option, none, some, List, [], ◌∷◌, ◌++◌,
  ltb, leb, ◌==◌, if◌then◌else◌,
}
use pirs.Prelude.Lists.{length, take, drop}
use pirs.Prelude.Text.{Text, lit, trim, decimal}
use pirs.Prelude.Result.{Result, ok, err}
use pirs.Message.{
  StreamEvent, start, text_delta, thinking_delta, tool_call_delta, done, stream_error, UserContent,
  plain, blocks, Message, user, assistant, tool_result, texts, join,
}

-- The fields of `HybridInner` that change or are read, and the prompts sent to the strong model.
pub record HybridInner : Type 0 where
  pub task : Text
  pub plan : Text
  pub stage : ℕ
  pub max_advisor_calls : ℕ
  pub advisor_calls : ℕ
  pub last_reasons : List Text
  pub prompts : List Text

unfoldable pub new : Text → ℕ → HybridInner
new task max_advisor_calls = record {
  task = task;
  plan = [];
  stage = 0;
  max_advisor_calls = max max_advisor_calls 1;
  advisor_calls = 0;
  last_reasons = [];
  prompts = [];
}

unfoldable pub set_plan : Text → HybridInner → HybridInner
set_plan plan h = record h { plan = plan }

abbrev pub is_empty : Text → Bool
is_empty [] = true
is_empty (c ∷ s) = false

-- The loop of `complete_text`.
unfoldable pub complete_loop : {V : Type 0} → Text → List (StreamEvent V) → Result Text
complete_loop acc [] = ok acc
complete_loop acc (text_delta d ∷ es) = complete_loop (acc ++ d) es
complete_loop acc (done m ∷ es) =
    let t = join [] (texts m.content) in ok (if is_empty t then acc else t)
complete_loop acc (stream_error e ∷ es) = err e
complete_loop acc (start ∷ es) = complete_loop acc es
complete_loop acc (thinking_delta d ∷ es) = complete_loop acc es
complete_loop acc (tool_call_delta ∷ es) = complete_loop acc es

unfoldable pub complete_text : {V : Type 0} → List (StreamEvent V) → Result Text
unfolding complete_loop
complete_text es = elim (complete_loop [] es) [ ok t ↦ ok (trim t) | err e ↦ err e ]

unfoldable pub thrash_question : Text → Text
unfolding lit
thrash_question task =
    lit "The weaker coding agent appears stuck on this task:\n"
    ++ (task ++ lit "\n\nWhat should it do next? Be concrete.")

-- The final `match`: the guidance to inject, or nothing for a hard stop.
unfoldable pub after_advice : Text → HybridInner × Result Text → HybridInner × Option Text
after_advice thrash_msg (h, ok guidance) = (
  h,
  some (lit "[ADVISOR — strong model reviewed thrash: " ++ (thrash_msg ++ (lit "]\n" ++ guidance))),
)
after_advice thrash_msg (h, err e) = (h, none)

module _ {V : Type 0} where
  abbrev user_text : UserContent V → Text
  user_text (plain t) = t
  user_text (blocks bs) = join [] (texts bs)

  unfoldable pub tail_line : Message V → Text
  unfolding lit
  tail_line (user u) = lit "[user] " ++ take 600 (user_text u.content)
  tail_line (assistant a) = lit "[assistant] " ++ take 600 (join [] (texts a.content))
  tail_line (tool_result r) =
      lit "[tool:" ++ (r.tool_name ++ (lit "] " ++ take 400 (join (lit "\n") (texts r.content))))

  unfoldable pub tail_lines : List (Message V) → Text
  unfolding tail_line
  tail_lines [] = []
  tail_lines (m ∷ ms) = tail_line m ++ (lit "\n" ++ tail_lines ms)

  unfoldable pub message_tail : List (Message V) → ℕ → Text
  unfolding tail_lines
  message_tail messages n = tail_lines (drop (length messages - n) messages)

  unfoldable pub thrash_context : ℕ → Text → Text → List (Message V) → Text
  unfolding lit message_tail decimal
  thrash_context stage thrash_msg plan recent_messages =
      let shown = if is_empty plan then lit "(none)" else plan in
      if stage == 1
      then lit "Detected thrash (stage 1 — short summary):\n"
        ++ (thrash_msg
            ++ (lit "\n\nOriginal plan:\n"
                ++ (shown ++ (lit "\n\nRecent activity:\n" ++ message_tail recent_messages 6))))
      else lit "Detected thrash (stage "
        ++ (decimal stage
            ++ (lit " — fuller trajectory):\n"
                ++ (thrash_msg
                    ++ (lit "\n\nOriginal plan:\n"
                        ++ (shown
                            ++ (lit "\n\nTrajectory:\n" ++ message_tail recent_messages 40))))))

  module _ (strong_model : Text → List (StreamEvent V)) where
    unfoldable pub advise : Text → Text → HybridInner → HybridInner × Result Text
    advise question context h =
        let calls = (h.advisor_calls + 1) % 2 ^ 64 in
        let h' = record h { advisor_calls = calls } in
        let prompt = lit "Question:\n" ++ (question ++ (lit "\n\nContext:\n" ++ context)) in
        if ltb h.max_advisor_calls calls
        then (
          h',
          ok (lit "Advisor budget exhausted. Continue on your own with the tools you have."),
        )
        else (
          record h' { prompts = h'.prompts ++ prompt ∷ [] },
          complete_text (strong_model prompt),
        )

    unfoldable pub on_thrash : Text → List (Message V) → HybridInner → HybridInner × Option Text
    on_thrash thrash_msg recent_messages h =
        let stage = (h.stage + 1) % 2 ^ 64 in
        let h' = record h {
          stage = stage;
          last_reasons = h.last_reasons ++ take 200 thrash_msg ∷ [];
        } in
        let context = thrash_context stage thrash_msg h.plan recent_messages in
        if leb h.max_advisor_calls h.advisor_calls
        then (h, none)
        else after_advice thrash_msg (advise (thrash_question h.task) context h')
