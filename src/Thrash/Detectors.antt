-- ===== src/Thrash/Detectors.antt =====
-- crates/pirs-agent/src/thrash.rs, lines 13 to 278. The standard library's hasher, whose function
-- is not specified, is a parameter; the guard's mutex serialises its calls.
use pirs.Prelude.{
  ℕ, ◌+◌, ◌-◌, ◌%◌, ◌^◌, max, Bool, true, false, not, ◌&&◌, Option, none, some, List, [], ◌∷◌, ◌++◌,
  leb, ◌==◌, ◌>>=◌, if◌then◌else◌,
}
use pirs.Prelude.Lists.{length, any, drop, count}
use pirs.Prelude.Text.{take_bytes, Text, lit, text_eq, one_of, byte_len, decimal}
use pirs.Json.{JsonLib}

pub record ToolSignature : Type 0 where
  pub name : Text
  pub args_key : Text

abbrev pub same_signature : ToolSignature → ToolSignature → Bool
same_signature a b = text_eq a.name b.name && text_eq a.args_key b.args_key

unfoldable pub clip_400 : Text → Text
clip_400 s = if leb (byte_len s) 400 then s else take_bytes 400 s ++ lit "…"

pub record LoopDetectionTracker : Type 0 where
  pub window : ℕ
  pub max_repeats : ℕ
  pub recent : List ToolSignature

unfoldable pub new_loops : ℕ → ℕ → LoopDetectionTracker
new_loops window max_repeats = record {
  window = max window 1;
  max_repeats = max max_repeats 2;
  recent = [];
}

-- `while recent.len() > n {recent.pop_front(); }`.
unfoldable pub keep_last {ℓ} : {A : Type ℓ} → ℕ → List A → List A
keep_last n xs = drop (length xs - n) xs

-- The stop messages, with the numbers and texts that they show.
pub data Stop : Type 0 where
  loop_detection : Text → ℕ → ℕ → Stop
  mistake_limit : ℕ → Stop
  edit_oscillation : Text → Stop

unfoldable pub stop_text : Stop → Text
unfolding lit decimal
stop_text (loop_detection name repeats window) =
    lit "loop detection: tool `"
    ++ (name
        ++ (lit "` with identical args repeated "
            ++ (decimal repeats
                ++ (lit " times in the last "
                    ++ (decimal window
                        ++ lit
                            " calls — stopping to avoid thrash. Change approach, re-read the file, or ask the user.")))))
stop_text (mistake_limit streak) =
    lit "mistake limit: "
    ++ (decimal streak
        ++ lit
            " consecutive tool/API failures — stopping. Review errors, fix the approach, or raise the limit.")
stop_text (edit_oscillation path) =
    lit "edit oscillation: file `"
    ++ (path
        ++ lit
            "` content returned to a previous hash (A→B→A thrash). Stop rewriting the same region; re-read the file, verify with tests, or escalate with a different approach.")

unfoldable pub observe : ToolSignature → LoopDetectionTracker → LoopDetectionTracker × Option Stop
observe sig t =
    let recent = keep_last t.window (t.recent ++ sig ∷ []) in
    let repeats = count (λ s. same_signature s sig) recent in
    (
      record t { recent = recent },
      if leb t.max_repeats repeats then some (loop_detection sig.name repeats t.window) else none,
    )

unfoldable pub reset_loops : LoopDetectionTracker → LoopDetectionTracker
reset_loops t = record t { recent = [] }

pub record MistakeTracker : Type 0 where
  pub max_consecutive : ℕ
  pub streak : ℕ

unfoldable pub new_mistakes : ℕ → MistakeTracker
new_mistakes max_consecutive = record { max_consecutive = max max_consecutive 2; streak = 0 }

unfoldable pub observe_error : Bool → MistakeTracker → MistakeTracker × Option Stop
observe_error true m =
    let streak = (m.streak + 1) % 2 ^ 64 in
    (
      record m { streak = streak },
      if leb m.max_consecutive streak then some (mistake_limit streak) else none,
    )
observe_error false m = (record m { streak = 0 }, none)

unfoldable pub reset_mistakes : MistakeTracker → MistakeTracker
reset_mistakes m = record m { streak = 0 }

-- `edit_hashes`, by path.
abbrev pub Hashes : Type 0
Hashes = List (Text × List ℕ)

unfoldable pub history : Text → Hashes → List ℕ
history path [] = []
history path ((p, hs) ∷ m) = if text_eq p path then hs else history path m

unfoldable pub set_history : Text → List ℕ → Hashes → Hashes
set_history path hs [] = (path, hs) ∷ []
set_history path hs ((p, old) ∷ m) =
    if text_eq p path then (p, hs) ∷ m else (p, old) ∷ set_history path hs m

abbrev pub last_of : List ℕ → Option ℕ
last_of [] = none
last_of (h ∷ []) = some h
last_of (h ∷ h' ∷ hs) = last_of (h' ∷ hs)

-- The last write was another one, and this one was made before.
unfoldable pub returns : ℕ → List ℕ → Bool
returns h hs = elim (last_of hs) [
  | none ↦ false
  | some last ↦ not (last == h) && any (λ x. x == h) hs
]

-- A write of the content with the hash to the path.
unfoldable pub observe_write : Text → ℕ → Hashes → Hashes × Option Stop
observe_write path h m =
    let hs = history path m in
    if returns h hs
    then (set_history path hs m, some (edit_oscillation path))
    else (set_history path (keep_last 6 (hs ++ h ∷ [])) m, none)

abbrev or_else {ℓ} : {A : Type ℓ} → Option A → Option A → Option A
or_else none y = y
or_else (some x) y = some x

abbrev non_empty : Text → Option Text
non_empty [] = none
non_empty (c ∷ s) = some (c ∷ s)

unfoldable pub mutating_tools : List Text
unfolding lit
mutating_tools = lit "write" ∷ lit "edit" ∷ lit "edit_block" ∷ lit "safe_edit" ∷ lit "ast_edit" ∷ []

-- What the guard holds.
pub record ThrashInner : Type 0 where
  pub loops : LoopDetectionTracker
  pub mistakes : MistakeTracker
  pub edit_hashes : Hashes
  pub stop_message : Option Stop

unfoldable pub with_limits : ℕ → ℕ → ThrashInner
unfolding new_loops new_mistakes
with_limits loop_repeats mistake_streak = record {
  loops = new_loops 12 loop_repeats;
  mistakes = new_mistakes mistake_streak;
  edit_hashes = [];
  stop_message = none;
}

unfoldable pub new_guard : ThrashInner
unfolding with_limits
new_guard = with_limits 3 5

unfoldable pub observe_tool_end : Bool → ThrashInner → ThrashInner × Option Stop
observe_tool_end is_error g =
    let (mistakes, stop) = observe_error is_error g.mistakes in
    (record g { mistakes = mistakes; stop_message = or_else stop g.stop_message }, stop)

unfoldable pub take_stop : ThrashInner → ThrashInner × Option Stop
take_stop g = (record g { stop_message = none }, g.stop_message)

unfoldable pub peek_stop : ThrashInner → Option Stop
peek_stop g = g.stop_message

module _ (J : JsonLib) (content_hash : Text → ℕ) where
  open J use {Value, get, as_str, to_string}

  unfoldable pub compact_args : Value → Text
  unfolding clip_400
  compact_args v = clip_400 (to_string v)

  unfoldable pub new_signature : Text → Value → ToolSignature
  unfolding compact_args
  new_signature name args = record { name = name; args_key = compact_args args }

  unfoldable pub edit_path : Value → Option Text
  edit_path args =
      or_else (get args (lit "path"))
        (or_else (get args (lit "target_file")) (get args (lit "file_path")))
      >>= as_str
      >>= non_empty

  unfoldable pub edit_body : Text → Value → Option Text
  edit_body name args =
      if text_eq name (lit "write")
      then get args (lit "content") >>= as_str
      else if one_of name (lit "edit" ∷ lit "edit_block" ∷ lit "safe_edit" ∷ [])
      then or_else (get args (lit "new_string")) (
          or_else (get args (lit "new_str"))
            (or_else (get args (lit "replacement")) (get args (lit "content"))))
        >>= as_str
      else if text_eq name (lit "ast_edit")
      then or_else (get args (lit "body"))
          (or_else (get args (lit "content")) (get args (lit "new_body")))
        >>= as_str
      else none

  unfoldable pub edit_path_and_body : Text → Value → Option (Text × Text)
  unfolding edit_path edit_body
  edit_path_and_body name args =
      edit_path args >>= (λ path. edit_body name args >>= (λ body. some (path, body)))

  unfoldable pub observe_edit_oscillation : Text → Value → Hashes → Hashes × Option Stop
  observe_edit_oscillation name args m =
      if one_of name mutating_tools
      then elim (edit_path_and_body name args) [
        | none ↦ (m, none)
        | some (path, body) ↦ observe_write path (content_hash body) m
      ]
      else (m, none)

  unfoldable pub observe_tool_start : Text → Value → ThrashInner → ThrashInner × Option Stop
  observe_tool_start name args g =
      let (loops, stop) = observe (new_signature name args) g.loops in
      elim stop [
        | some msg ↦ (record g { loops = loops; stop_message = some msg }, some msg)
        | none ↦
            let (hashes, stop') = observe_edit_oscillation name args g.edit_hashes in
            (
              record g {
                loops = loops;
                edit_hashes = hashes;
                stop_message = or_else stop' g.stop_message;
              },
              stop',
            )
      ]
