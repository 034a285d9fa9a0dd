-- ===== src/Compaction/Cut.antt =====
-- crates/pirs-agent/src/compaction.rs, lines 44 to 277: token estimates, the cut point, and the
-- check of tool pairs.
use pirs.Prelude.{
  ℕ, zero, suc, ◌+◌, ◌-◌, ◌/◌, min, Bool, true, false, not, ◌&&◌, ◌||◌, Option, none, some, List,
  [], ◌∷◌, ltb, leb, ◌==◌, if◌then◌else◌,
}
use pirs.Prelude.Lists.{length, get_elem?, drop, any, filter, count}
use pirs.Prelude.Text.{Text, text_eq, byte_len}
use pirs.Json.{JsonLib}
use pirs.Message.{
  ContentBlock, text, thinking, image, tool_call, UserContent, plain, blocks, Message, user,
  assistant, tool_result, tool_calls, is_user, is_tool_result, is_tool_use,
}

pub record CompactionConfig : Type 0 where
  pub context_window : ℕ
  pub reserve_tokens : ℕ
  pub keep_recent_tokens : ℕ
  pub min_recent_user_turns : ℕ
  pub aux_model : Option Text

abbrev pub default_config : CompactionConfig
default_config = record {
  context_window = 128_000;
  reserve_tokens = 16_384;
  keep_recent_tokens = 32_000;
  min_recent_user_turns = 4;
  aux_model = none;
}

unfoldable pub should_compact : ℕ → CompactionConfig → Bool
should_compact tokens config = ltb (config.context_window - config.reserve_tokens) tokens

module _ (J : JsonLib) where
  open J use {Value, to_string}

  unfoldable pub block_chars : ContentBlock Value → ℕ
  block_chars (text t sig) = byte_len t
  block_chars (thinking t sig redacted) = byte_len t
  block_chars (image d mime) = byte_len d / 100
  block_chars (tool_call id name arguments sig) = byte_len name + byte_len (to_string arguments)

  unfoldable pub sum_chars : List (ContentBlock Value) → ℕ
  sum_chars [] = 0
  sum_chars (b ∷ bs) = block_chars b + sum_chars bs

  abbrev user_chars : UserContent Value → ℕ
  user_chars (plain t) = byte_len t
  user_chars (blocks bs) = sum_chars bs

  abbrev message_chars : Message Value → ℕ
  message_chars (user u) = user_chars u.content
  message_chars (assistant a) = sum_chars a.content
  message_chars (tool_result r) = sum_chars r.content

  unfoldable pub estimate_message_tokens : Message Value → ℕ
  estimate_message_tokens m = message_chars m / 4 + 4

  unfoldable pub estimate_tokens : List (Message Value) → ℕ
  estimate_tokens [] = 0
  estimate_tokens (m ∷ ms) = estimate_message_tokens m + estimate_tokens ms

pub data Found : Type 0 where
  owner at_user : ℕ → Found
  nothing : Found

-- How the first loop ends: by a `return`, or at a cut from which the function goes on.
pub data Settled : Type 0 where
  returned left_at : ℕ → Settled

-- A `HashSet` of call ids.
unfoldable pub set_insert : Text → List Text → List Text
unfolding text_eq
set_insert id open_ids = if any (text_eq id) open_ids then open_ids else id ∷ open_ids

module _ {V : Type 0} where
  unfoldable pub count_user_turns : List (Message V) → ℕ
  count_user_turns messages = count is_user messages

  abbrev pub holds : (Message V → Bool) → Option (Message V) → Bool
  holds p none = false
  holds p (some m) = p m

  -- There is a message at the index, and it is of the kind.
  abbrev pub kind_at : (Message V → Bool) → List (Message V) → ℕ → Bool
  kind_at p messages i = holds p (get_elem? messages i)

  abbrev pub result_at : List (Message V) → ℕ → Bool
  result_at = kind_at is_tool_result

  -- The tool results that a list begins with.
  unfoldable pub leading_results : List (Message V) → ℕ
  leading_results [] = 0
  leading_results (m ∷ ms) = if is_tool_result m then suc (leading_results ms) else 0

  -- `while cut < len && messages[cut] is a ToolResult { cut += 1; }`.
  unfoldable pub advance : List (Message V) → ℕ → ℕ
  unfolding leading_results
  advance messages cut = cut + leading_results (drop cut messages)

  -- `while i > 0 { i -= 1; … }`: the nearest earlier user message or assistant with tool calls.
  unfoldable pub walk_back : List (Message V) → ℕ → Found
  walk_back messages zero = nothing
  walk_back messages (suc i) =
      let rest = walk_back messages i in
      if kind_at is_tool_use messages i
      then owner i
      else if kind_at is_user messages i
      then at_user i
      else rest

  -- The `match` of the inner loop, with what the outer loop does if it finds nothing.
  abbrev pub after_walk : List (Message V) → Settled → Found → Settled
  after_walk messages later (owner i) = returned i
  after_walk messages later (at_user i) =
      returned (min (advance messages (suc i)) (length messages))
  after_walk messages later nothing = later

  -- The first loop; the third argument is `messages[cut..]`.
  unfoldable pub settle : List (Message V) → ℕ → List (Message V) → Settled
  settle messages cut [] = left_at cut
  settle messages cut (m ∷ rest) =
      let later = settle messages (suc cut) rest in
      if not (is_tool_result m)
      then left_at cut
      else if cut == 0
      then left_at cut
      else after_walk messages later (walk_back messages cut)

  -- The step back to an assistant whose results start at the cut.
  unfoldable pub pull_back : List (Message V) → ℕ → ℕ
  pull_back messages zero = zero
  pull_back messages (suc c) =
      if kind_at is_tool_use messages c && result_at messages (suc c) then c else suc c

  -- The cut that the rest of the function makes of the first loop's.
  abbrev pub cut_of : List (Message V) → Settled → ℕ
  cut_of messages (returned r) = r
  cut_of messages (left_at c) = advance messages (pull_back messages c)

  unfoldable pub snap_cut_to_tool_pair_boundary : List (Message V) → ℕ → ℕ
  snap_cut_to_tool_pair_boundary [] cut = 0
  snap_cut_to_tool_pair_boundary (m ∷ ms) cut =
      let messages = m ∷ ms in
      let c = min cut (length messages) in cut_of messages (settle messages c (drop c messages))

  abbrev pub in_range : List (Message V) → ℕ → Bool
  in_range messages cut = ltb 0 cut && ltb cut (length messages)

  module _ (estimate : Message V → ℕ) where
    abbrev pub tokens_at : List (Message V) → ℕ → ℕ
    tokens_at messages i = elim (get_elem? messages i) [ none ↦ 0 | some m ↦ estimate m ]

    -- The loop of `emergency_token_cut`, over the indices below the third argument, downwards.
    unfoldable pub emergency_scan : List (Message V) → ℕ → ℕ → ℕ → Option ℕ
    emergency_scan messages keep zero acc = none
    emergency_scan messages keep (suc i) acc =
        let acc' = acc + tokens_at messages i in
        let rest = emergency_scan messages keep i acc' in
        let cut = snap_cut_to_tool_pair_boundary messages i in
        if leb keep acc' && ltb 0 i && in_range messages cut then some cut else rest

    -- What follows the loop: the first half at a boundary, or else the bare middle.
    unfoldable pub last_resort : List (Message V) → Option ℕ
    last_resort messages =
        let mid = length messages / 2 in
        let cut = snap_cut_to_tool_pair_boundary messages mid in
        if in_range messages cut then some cut else if ltb 0 mid then some mid else none

    unfoldable pub emergency_token_cut : List (Message V) → ℕ → Option ℕ
    emergency_token_cut messages keep =
        if ltb (length messages) 3
        then none
        else elim (emergency_scan messages keep (length messages) 0) [
          | some cut ↦ some cut
          | none ↦ last_resort messages
        ]

    -- The loop of `find_cut_point_ex`, over the indices below the fourth argument, downwards.
    unfoldable pub cut_scan : List (Message V) → ℕ → ℕ → ℕ → ℕ → Option ℕ → ℕ → Option ℕ
    cut_scan messages keep min_turns zero acc cut user_turns = cut
    cut_scan messages keep min_turns (suc i) acc cut user_turns =
        let acc' = acc + tokens_at messages i in
        let at_user = cut_scan messages keep min_turns i acc' (some i) (suc user_turns) in
        let past = cut_scan messages keep min_turns i acc' cut user_turns in
        if kind_at is_user messages i
        then (if leb keep acc' && (min_turns == 0 || leb min_turns (suc user_turns))
            then some i
            else at_user)
        else past

    -- What `find_cut_point_ex` does with the user message that the loop stopped at.
    unfoldable pub after_scan : List (Message V) → ℕ → Option ℕ → Option ℕ
    after_scan messages keep none = emergency_token_cut messages keep
    after_scan messages keep (some zero) = emergency_token_cut messages keep
    after_scan messages keep (some (suc c)) =
        let cut = snap_cut_to_tool_pair_boundary messages (suc c) in
        if cut == 0 then emergency_token_cut messages keep else some cut

    -- The turns to retain, clamped to those that exist.
    unfoldable pub retained_turns : List (Message V) → ℕ → ℕ
    retained_turns messages min_recent_user_turns =
        let available = count_user_turns messages in
        if min_recent_user_turns == 0 || available == 0
        then 0
        else min min_recent_user_turns available

    unfoldable pub find_cut_point_ex : List (Message V) → ℕ → ℕ → Option ℕ
    find_cut_point_ex messages keep min_recent_user_turns =
        let min_turns = retained_turns messages min_recent_user_turns in
        if ltb (length messages) 2
        then none
        else after_scan messages keep (cut_scan messages keep min_turns (length messages) 0 none 0)

    unfoldable pub find_cut_point : List (Message V) → ℕ → Option ℕ
    unfolding find_cut_point_ex
    find_cut_point messages keep = find_cut_point_ex messages keep 0

  unfoldable pub open_calls : List (ContentBlock V) → List Text → List Text
  unfolding set_insert
  open_calls [] open_ids = open_ids
  open_calls (tool_call id name arguments sig ∷ bs) open_ids =
      open_calls bs (set_insert id open_ids)
  open_calls (text t sig ∷ bs) open_ids = open_calls bs open_ids
  open_calls (thinking t sig redacted ∷ bs) open_ids = open_calls bs open_ids
  open_calls (image d mime ∷ bs) open_ids = open_calls bs open_ids

  unfoldable pub pairs_from : List Text → List (Message V) → Bool
  unfolding open_calls
  pairs_from [] [] = true
  pairs_from (id ∷ ids) [] = false
  pairs_from open_ids (user u ∷ ms) = pairs_from open_ids ms
  pairs_from open_ids (assistant a ∷ ms) = pairs_from (open_calls (tool_calls a) open_ids) ms
  pairs_from open_ids (tool_result r ∷ ms) =
      any (text_eq r.tool_call_id) open_ids
      && pairs_from (filter (λ id. not (text_eq r.tool_call_id id)) open_ids) ms

  unfoldable pub tool_pairs_intact : List (Message V) → Bool
  unfolding pairs_from
  tool_pairs_intact messages = pairs_from [] messages
