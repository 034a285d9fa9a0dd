-- ===== src/AgentLoop/Pairs.antt =====
-- Conversations whose tool calls and results are paired: how they are extended.
use pirs.Prelude.{
  ◌≡◌, refl, ap, ◌∙◌, inl, inr, Bool, true, not, ◌&&◌, ◌||◌, Option, none, some, List, [], ◌∷◌,
  ◌++◌, map, arith, Bool-cases, Option-cases, and_true,
}
use pirs.Prelude.Lists.{any, all, filter}
use pirs.Prelude.Text.{Text, text_eq, eq_of_text_eq, text_eq_refl}
use pirs.Message.{
  ContentBlock, text, thinking, image, tool_call, AssistantMessage, ToolResultMessage, Message,
  user, assistant, tool_result, is_user, is_tool_call, tool_calls,
}
use pirs.Compaction.Cut.{set_insert, open_calls, pairs_from, tool_pairs_intact}
use pirs.ToolExec.Host.{ToolCallData}
use pirs.ToolExec.Prepare.{calls_of, extract_tool_calls}
use pirs.ToolExec.Fits.{result_key, call_key}
use pirs.AgentLoop.Steer.{on_last_result}

abbrev pub mem : Text → List Text → Bool
mem x ids = any (text_eq x) ids

-- No id stands twice.
abbrev pub distinct_ids : List Text → Bool
distinct_ids [] = true
distinct_ids (i ∷ is) = not (mem i is) && distinct_ids is

-- The same members.
abbrev SameIds : List Text → List Text → Type 0
SameIds S ids = (x : Text) → mem x S ≡ mem x ids

abbrev insert_all : List Text → List Text → List Text
insert_all [] S = S
insert_all (i ∷ is) S = insert_all is (set_insert i S)

mem-set_insert : (x i : Text) (S : List Text) → mem x (set_insert i S) ≡ (text_eq x i || mem x S)
unfolding set_insert
mem-set_insert x i S = elim (Bool-cases (mem i S)) [
  | inr e ↦ rw (set_insert, e) refl
  | inl e ↦ elim (Bool-cases (text_eq x i)) [
    | inl f ↦ rw (set_insert, e, f) (rw (eq_of_text_eq x i f) e)
    | inr f ↦ rw (set_insert, e, f) refl
  ]
]

mem-insert_all : (x : Text) (is S : List Text) → mem x (insert_all is S) ≡ (mem x is || mem x S)
mem-insert_all x [] S = refl
mem-insert_all x (i ∷ is) S =
    ground (arith, mem-insert_all x is (set_insert i S), mem-set_insert x i S)

mem-filter :
    (x i : Text) (S : List Text)
    → mem x (filter (λ j. not (text_eq i j)) S) ≡ (mem x S && not (text_eq i x))
mem-filter x i [] = refl
mem-filter x i (j ∷ S) = elim (Bool-cases (text_eq x j)) [
  | inl e ↦ rw (eq_of_text_eq x j e) (ground (arith, text_eq_refl j, mem-filter j i S))
  | inr e ↦ ground (arith, mem-filter x i S)
]

nothing_open : (S : List Text) → SameIds S [] → S ≡ []
nothing_open [] h = refl
nothing_open (i ∷ S) h = let k = h i in absurd (ground (arith, text_eq_refl i, k))

module _ {V : Type 0} where
  abbrev pub ids_of : List (ToolCallData V) → List Text
  ids_of [] = []
  ids_of (c ∷ cs) = c.id ∷ ids_of cs

  open_calls-insert_all :
      (bs : List (ContentBlock V)) (S : List Text)
      → open_calls (filter is_tool_call bs) S ≡ insert_all (ids_of (calls_of bs)) S
  unfolding open_calls calls_of
  open_calls-insert_all [] S = refl
  open_calls-insert_all (tool_call id name args sig ∷ bs) S =
      open_calls-insert_all bs (set_insert id S)
  open_calls-insert_all (text t sig ∷ bs) S = open_calls-insert_all bs S
  open_calls-insert_all (thinking t sig redacted ∷ bs) S = open_calls-insert_all bs S
  open_calls-insert_all (image d mime ∷ bs) S = open_calls-insert_all bs S

  -- Results that close exactly the open calls.
  results-close :
      (S : List Text) (calls : List (ToolCallData V)) (rs : List (ToolResultMessage V))
      → map result_key rs ≡ map call_key calls
      → distinct_ids (ids_of calls) ≡ true
      → SameIds S (ids_of calls)
      → pairs_from S (map tool_result rs) ≡ true
  unfolding pairs_from
  results-close S [] [] k d h = rw (nothing_open S h) refl
  results-close S (c ∷ calls) [] k d h = absurd (ground arith)
  results-close S [] (r ∷ rs) k d h = absurd (ground arith)
  results-close S (c ∷ calls) (r ∷ rs) k d h =
      let e : r.tool_call_id ≡ c.id = ground arith in
      let k' : map result_key rs ≡ map call_key calls = ground arith in
      let (n, d') = and_true (not (mem c.id (ids_of calls))) (distinct_ids (ids_of calls)) d in
      let is_open : mem c.id S ≡ true = ground (arith, h c.id, text_eq_refl c.id) in
      let S' = filter (λ j. not (text_eq c.id j)) S in
      let h' : SameIds S' (ids_of calls) = λ x. ground (
        arith,
        mem-filter x c.id S,
        h x,
        eq_of_text_eq x c.id,
        eq_of_text_eq c.id x,
        text_eq_refl x,
      ) in
      rw (e, is_open) (results-close S' calls rs k' d' h')

  pairs_from-append :
      (S : List Text) (xs ys : List (Message V))
      → pairs_from S xs ≡ true
      → pairs_from S (xs ++ ys) ≡ pairs_from [] ys
  unfolding pairs_from
  pairs_from-append [] [] ys h = refl
  pairs_from-append (i ∷ S) [] ys h = absurd (ground arith)
  pairs_from-append [] (user u ∷ xs) ys h = pairs_from-append [] xs ys h
  pairs_from-append (i ∷ S) (user u ∷ xs) ys h = pairs_from-append (i ∷ S) xs ys h
  pairs_from-append S (assistant a ∷ xs) ys h =
      pairs_from-append (open_calls (tool_calls a) S) xs ys h
  pairs_from-append S (tool_result r ∷ xs) ys h =
      let S' = filter (λ id. not (text_eq r.tool_call_id id)) S in
      let (a, b) = and_true (mem r.tool_call_id S) (pairs_from S' xs) h in
      rw a (pairs_from-append S' xs ys b)

  pub intact-append :
      (xs ys : List (Message V))
      → tool_pairs_intact xs ≡ true
      → tool_pairs_intact ys ≡ true
      → tool_pairs_intact (xs ++ ys) ≡ true
  unfolding tool_pairs_intact
  intact-append xs ys h k = pairs_from-append [] xs ys h ∙ k

  pub users-intact : (ms : List (Message V)) → all is_user ms ≡ true → tool_pairs_intact ms ≡ true
  unfolding tool_pairs_intact pairs_from
  users-intact [] h = refl
  users-intact (user u ∷ ms) h = users-intact ms h
  users-intact (assistant a ∷ ms) h = absurd (ground arith)
  users-intact (tool_result r ∷ ms) h = absurd (ground arith)

  pairs_from-assistant :
      (a : AssistantMessage V) (S : List Text) (ms : List (Message V))
      → pairs_from S (assistant a ∷ ms) ≡ pairs_from (open_calls (tool_calls a) S) ms
  unfolding pairs_from
  pairs_from-assistant a S ms = refl

  -- An assistant message with distinct call ids, and a result for each of its calls.
  pub answered-intact :
      (a : AssistantMessage V) (rs : List (ToolResultMessage V))
      → map result_key rs ≡ map call_key (extract_tool_calls a)
      → distinct_ids (ids_of (extract_tool_calls a)) ≡ true
      → tool_pairs_intact (assistant a ∷ map tool_result rs) ≡ true
  unfolding tool_pairs_intact pairs_from tool_calls extract_tool_calls
  answered-intact a rs k d =
      let calls = calls_of a.content in
      let opened : open_calls (tool_calls a) [] ≡ insert_all (ids_of calls) [] =
        open_calls-insert_all a.content [] in
      pairs_from-assistant a [] (map tool_result rs)
      ∙ ap (λ S. pairs_from S (map tool_result rs)) opened
      ∙ results-close (insert_all (ids_of calls) []) calls rs k d
          (λ x. ground (arith, mem-insert_all x (ids_of calls) []))

  pairs_from-cons :
      (m : Message V) (S : List Text) (xs ys : List (Message V))
      → ((T : List Text) → pairs_from T xs ≡ pairs_from T ys)
      → pairs_from S (m ∷ xs) ≡ pairs_from S (m ∷ ys)
  unfolding pairs_from
  pairs_from-cons (user u) [] xs ys h = h []
  pairs_from-cons (user u) (i ∷ S) xs ys h = h (i ∷ S)
  pairs_from-cons (assistant a) S xs ys h = h (open_calls (tool_calls a) S)
  pairs_from-cons (tool_result r) S xs ys h =
      ap (λ b. mem r.tool_call_id S && b) (h (filter (λ id. not (text_eq r.tool_call_id id)) S))

  pairs_from-result :
      (r q : ToolResultMessage V) (S : List Text) (ms : List (Message V))
      → q.tool_call_id ≡ r.tool_call_id
      → pairs_from S (tool_result q ∷ ms) ≡ pairs_from S (tool_result r ∷ ms)
  unfolding pairs_from
  pairs_from-result r q S ms e =
      ap (λ i. any (text_eq i) S && pairs_from (filter (λ id. not (text_eq i id)) S) ms) e

  abbrev here :
      (ToolResultMessage V → ToolResultMessage V)
      → Message V
      → List (Message V)
      → Option (List (Message V))
  here f (user u) ms = none
  here f (assistant a) ms = none
  here f (tool_result r) ms = some (tool_result (f r) ∷ ms)

  changed-here :
      (f : ToolResultMessage V → ToolResultMessage V) (m : Message V) (S : List Text)
      (ms ms' : List (Message V))
      → ((r : ToolResultMessage V) → (f r).tool_call_id ≡ r.tool_call_id)
      → here f m ms ≡ some ms'
      → pairs_from S ms' ≡ pairs_from S (m ∷ ms)
  changed-here f (user u) S ms ms' h e = absurd (ground arith)
  changed-here f (assistant a) S ms ms' h e = absurd (ground arith)
  changed-here f (tool_result r) S ms ms' h e =
      let same : ms' ≡ tool_result (f r) ∷ ms = ground arith in
      rw same (pairs_from-result r (f r) S ms (h r))

  -- A change of the last tool result that keeps its id changes no pair.
  pub on_last_result-pairs :
      (f : ToolResultMessage V → ToolResultMessage V) (S : List Text) (ms ms' : List (Message V))
      → ((r : ToolResultMessage V) → (f r).tool_call_id ≡ r.tool_call_id)
      → on_last_result f ms ≡ some ms'
      → pairs_from S ms' ≡ pairs_from S ms
  unfolding on_last_result
  on_last_result-pairs f S [] ms' h e = absurd (ground arith)
  on_last_result-pairs f S (m ∷ ms) ms' h e = elim (Option-cases (on_last_result f ms)) [
    | inr (ms'', k) ↦
        let same : ms' ≡ m ∷ ms'' = ground arith in
        rw same (pairs_from-cons m S ms'' ms (λ T. on_last_result-pairs f T ms ms'' h k))
    | inl k ↦ changed-here f m S ms ms' h (ground arith)
  ]
