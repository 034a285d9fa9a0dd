-- ===== src/ControlPins/Adjacency.antt =====
-- What `enforce_tool_result_adjacency` does to a conversation.
use mathlib.Core.List.{Perm, perm_middle}
use mathlib.Core.List.Perm
use pirs.Prelude.{
  ℕ, zero, suc, ◌≤◌, ◌≡◌, refl, ◌∙◌, subst, inl, inr, Bool, true, false, not, ◌&&◌, ◌||◌, List, [],
  ◌∷◌, ◌++◌, append_assoc, arith, if◌then◌else◌, Bool-cases,
}
use pirs.Prelude.Lists.{length, any, all, filter}
use pirs.Message.{Message, user, assistant, tool_result, is_assistant, is_tool_result, is_tool_use}
use pirs.ControlPins.Pins.{
  group_of, after_group, regroup, adjacency_from, enforce_tool_result_adjacency,
}

module _ {V : Type 0} where
  group-append : (ms : List (Message V)) → group_of ms ++ after_group ms ≡ ms
  unfolding group_of after_group
  group-append [] = refl
  group-append (m ∷ ms) = ground (arith, group-append ms)

  length-after_group : (ms : List (Message V)) → length (after_group ms) ≤ length ms
  unfolding after_group
  length-after_group [] = omega arith
  length-after_group (m ∷ ms) = ground (arith, length-after_group ms)

  -- The results of a group, and the rest, hold its messages.
  split-perm :
      (ms : List (Message V))
      → Perm (filter is_tool_result ms ++ filter (λ m. not (is_tool_result m)) ms) ms
  split-perm [] = Perm.refl []
  split-perm (m ∷ ms) = elim (Bool-cases (is_tool_result m)) [
    | inl e ↦ rw e (Perm.cons m (split-perm ms))
    | inr e ↦
        rw e (Perm.trans (perm_middle (filter is_tool_result ms) _) (Perm.cons m (split-perm ms)))
  ]

  regroup-perm : (ms : List (Message V)) → Perm (regroup ms) ms
  unfolding regroup
  regroup-perm ms =
      elim (Bool-cases (any is_tool_result ms && any (λ m. not (is_tool_result m)) ms)) [
        | inl e ↦ rw e (split-perm ms)
        | inr e ↦ rw e (Perm.refl ms)
      ]

  adjacency_from-perm : (fuel : ℕ) (ms : List (Message V)) → Perm (adjacency_from fuel ms) ms
  unfolding adjacency_from
  adjacency_from-perm zero ms = Perm.refl ms
  adjacency_from-perm (suc fuel) [] = Perm.refl []
  adjacency_from-perm (suc fuel) (m ∷ ms) = elim (Bool-cases (is_tool_use m)) [
    | inl e ↦ rw e (
        Perm.cons m (
          Perm.trans
            (Perm.append (regroup-perm (group_of ms)) (adjacency_from-perm fuel (after_group ms)))
            (subst (λ l. Perm (group_of ms ++ after_group ms) l) (group-append ms) (Perm.refl _))))
    | inr e ↦ rw e (Perm.cons m (adjacency_from-perm fuel ms))
  ]

-- Where a conversation stands: outside the answer to a tool call, among its results, or past them.
pub data Phase : Type 0 where
  outside results others : Phase

abbrev pub stay : Phase → Bool → Phase
stay outside result = outside
stay results result = if result then results else others
stay others result = others

module _ {V : Type 0} where
  -- Reads a conversation once: after a message with tool calls, and up to the next assistant
  -- message, no result comes behind a message of another kind.
  abbrev pub phase_ok : Phase → Message V → Bool
  phase_ok others m = not (is_tool_result m)
  phase_ok outside m = true
  phase_ok results m = true

  abbrev pub next_phase : Phase → Message V → Phase
  next_phase p m =
      if is_tool_use m
      then results
      else if is_assistant m
      then outside
      else stay p (is_tool_result m)

  abbrev pub results_adjacent : Phase → List (Message V) → Bool
  results_adjacent p [] = true
  results_adjacent p (m ∷ ms) =
      (is_assistant m || phase_ok p m) && results_adjacent (next_phase p m) ms

  abbrev StartsTurn : List (Message V) → Type 0
  StartsTurn [] = Unit
  StartsTurn (m ∷ ms) = is_assistant m ≡ true

  at_turn :
      (p : Phase) (ms : List (Message V))
      → StartsTurn ms
      → results_adjacent p ms ≡ results_adjacent outside ms
  at_turn p [] h = refl
  at_turn p (m ∷ ms) h = ground arith

  past_results :
      (rs ms : List (Message V))
      → all is_tool_result rs ≡ true
      → results_adjacent results (rs ++ ms) ≡ results_adjacent results ms
  past_results [] ms h = refl
  past_results (tool_result r ∷ rs) ms h = past_results rs ms h
  past_results (user r ∷ rs) ms h = ground arith
  past_results (assistant r ∷ rs) ms h = ground arith

  abbrev is_other : Message V → Bool
  is_other (user u) = true
  is_other (assistant a) = false
  is_other (tool_result r) = false

  past_others :
      (p : Phase) (os ms : List (Message V))
      → all is_other os ≡ true
      → StartsTurn ms
      → results_adjacent p (os ++ ms) ≡ results_adjacent outside ms
  past_others p [] ms h k = at_turn p ms k
  past_others outside (user u ∷ os) ms h k = past_others outside os ms h k
  past_others results (user u ∷ os) ms h k = past_others others os ms h k
  past_others others (user u ∷ os) ms h k = past_others others os ms h k
  past_others p (assistant r ∷ os) ms h k = ground arith
  past_others p (tool_result r ∷ os) ms h k = ground arith

  filter-results : (ms : List (Message V)) → all is_tool_result (filter is_tool_result ms) ≡ true
  filter-results [] = refl
  filter-results (m ∷ ms) = ground (arith, filter-results ms)

  filter-others :
      (ms : List (Message V))
      → all (λ m. not (is_assistant m)) ms ≡ true
      → all is_other (filter (λ m. not (is_tool_result m)) ms) ≡ true
  filter-others [] h = refl
  filter-others (user u ∷ ms) h = filter-others ms h
  filter-others (assistant u ∷ ms) h = ground arith
  filter-others (tool_result u ∷ ms) h = filter-others ms h

  group_of-answers : (ms : List (Message V)) → all (λ m. not (is_assistant m)) (group_of ms) ≡ true
  unfolding group_of
  group_of-answers [] = refl
  group_of-answers (m ∷ ms) = ground (arith, group_of-answers ms)

  after_group-StartsTurn : (ms : List (Message V)) → StartsTurn (after_group ms)
  unfolding after_group
  after_group-StartsTurn [] = tt
  after_group-StartsTurn (m ∷ ms) = elim (Bool-cases (is_assistant m)) [
    | inl e ↦ rw e e
    | inr e ↦ rw e (after_group-StartsTurn ms)
  ]

  adjacency_from-StartsTurn :
      (fuel : ℕ) (ms : List (Message V)) → StartsTurn ms → StartsTurn (adjacency_from fuel ms)
  unfolding adjacency_from
  adjacency_from-StartsTurn zero ms h = h
  adjacency_from-StartsTurn (suc fuel) [] h = tt
  adjacency_from-StartsTurn (suc fuel) (m ∷ ms) h = elim (Bool-cases (is_tool_use m)) [
    | inl e ↦ rw e h
    | inr e ↦ rw e h
  ]

  none_other :
      (g : List (Message V))
      → any (λ m. not (is_tool_result m)) g ≡ false
      → all is_tool_result g ≡ true
  none_other [] h = refl
  none_other (m ∷ g) h = ground (arith, none_other g)

  none_result :
      (g : List (Message V))
      → any is_tool_result g ≡ false
      → all (λ m. not (is_assistant m)) g ≡ true
      → all is_other g ≡ true
  none_result [] h k = refl
  none_result (user u ∷ g) h k = none_result g h k
  none_result (assistant u ∷ g) h k = ground arith
  none_result (tool_result u ∷ g) h k = ground arith

  regroup-adjacent :
      (g ms : List (Message V))
      → all (λ m. not (is_assistant m)) g ≡ true
      → StartsTurn ms
      → results_adjacent results (regroup g ++ ms) ≡ results_adjacent outside ms
  unfolding regroup
  regroup-adjacent g ms h k = elim (Bool-cases (any is_tool_result g)) [
    | inr e ↦ rw e (past_others results g ms (none_result g e h) k)
    | inl e ↦ elim (Bool-cases (any (λ m. not (is_tool_result m)) g)) [
      | inr f ↦ rw (e, f) (past_results g ms (none_other g f) ∙ at_turn results ms k)
      | inl f ↦
          let rs = filter is_tool_result g in
          let os = filter (λ m. not (is_tool_result m)) g in
          rw (e, f, append_assoc)
            (past_results rs (os ++ ms) (filter-results g)
              ∙ past_others results os ms (filter-others g h) k)
    ]
  ]

  turn_of_use :
      (m : Message V) (ms : List (Message V))
      → is_tool_use m ≡ true
      → results_adjacent outside (m ∷ ms) ≡ results_adjacent results ms
  turn_of_use m ms e = ground arith

  turn_of_other :
      (m : Message V) (ms : List (Message V))
      → is_tool_use m ≡ false
      → results_adjacent outside (m ∷ ms) ≡ results_adjacent outside ms
  turn_of_other m ms e = ground arith

  adjacency_from-adjacent :
      (fuel : ℕ) (ms : List (Message V))
      → length ms ≤ fuel
      → results_adjacent outside (adjacency_from fuel ms) ≡ true
  unfolding adjacency_from
  adjacency_from-adjacent zero [] h = refl
  adjacency_from-adjacent zero (m ∷ ms) h = absurd (omega arith)
  adjacency_from-adjacent (suc fuel) [] h = refl
  adjacency_from-adjacent (suc fuel) (m ∷ ms) h = elim (Bool-cases (is_tool_use m)) [
    | inr e ↦
        rw e (
          turn_of_other m (adjacency_from fuel ms) e
          ∙ adjacency_from-adjacent fuel ms (omega arith))
    | inl e ↦
        let rest = adjacency_from fuel (after_group ms) in
        let starts = adjacency_from-StartsTurn fuel (after_group ms) (after_group-StartsTurn ms) in
        rw e (
          turn_of_use m (regroup (group_of ms) ++ rest) e
          ∙ regroup-adjacent (group_of ms) rest (group_of-answers ms) starts
          ∙ adjacency_from-adjacent fuel (after_group ms) (omega (arith, length-after_group ms)))
  ]

  -- The repair only reorders the messages, and leaves no tool result behind a message of another
  -- kind in the answer to a tool call.
  pub enforce_adjacent :
      (ms : List (Message V))
      → Perm (enforce_tool_result_adjacency ms) ms
        × (results_adjacent outside (enforce_tool_result_adjacency ms) ≡ true)
  unfolding enforce_tool_result_adjacency
  enforce_adjacent ms =
      (adjacency_from-perm (length ms) ms, adjacency_from-adjacent (length ms) ms (omega arith))
