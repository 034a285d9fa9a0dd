-- ===== src/Compaction/Boundary.antt =====
-- Where the cut point lands.
use pirs.Prelude.{
  ℕ, zero, suc, ◌≤◌, ◌<◌, min, ◌≡◌, refl, ap, ◌∙◌, ◌⊎◌, inl, inr, true, false, Option, none, some,
  List, [], ◌∷◌, arith, ◌==◌, Bool-cases, ==_iff,
}
use pirs.Prelude.Lists.{length, get_elem?, drop, length-drop, get_elem?-drop, drop-suc, drop-nil}
use pirs.Message.{Message, user, assistant, tool_result, is_user, is_tool_result, is_tool_use}
use pirs.Compaction.Cut.{
  kind_at, result_at, leading_results, advance, Found, owner, at_user, nothing, walk_back, Settled,
  returned, left_at, settle, after_walk, pull_back, cut_of, snap_cut_to_tool_pair_boundary, holds,
}

module _ {V : Type 0} where
  leading_results-stop :
      (ms : List (Message V))
      → (leading_results ms ≤ length ms) × (result_at ms (leading_results ms) ≡ false)
  unfolding leading_results
  leading_results-stop [] = (omega arith, refl)
  leading_results-stop (user u ∷ ms) = (omega arith, refl)
  leading_results-stop (assistant a ∷ ms) = (omega arith, refl)
  leading_results-stop (tool_result r ∷ ms) =
      let (bound, clean) = leading_results-stop ms in (omega arith, clean)

  advance-clean :
      (ms : List (Message V)) (cut : ℕ)
      → cut ≤ length ms
      → (advance ms cut ≤ length ms) × (result_at ms (advance ms cut) ≡ false)
  unfolding advance
  advance-clean ms cut h =
      let (bound, clean) = leading_results-stop (drop cut ms) in
      (
        omega (arith, length-drop cut ms),
        ap (holds is_tool_result) (get_elem?-drop cut (leading_results (drop cut ms)) ms) ∙ clean,
      )

  -- What the backward walk finds lies below its start, and is no tool result.
  abbrev IsFound : List (Message V) → ℕ → Found → Type 0
  IsFound ms n (owner i) = (i < n) × (result_at ms i ≡ false)
  IsFound ms n (at_user i) = i < n
  IsFound ms n nothing = Unit

  use-clean : (o : Option (Message V)) → holds is_tool_use o ≡ true → holds is_tool_result o ≡ false
  use-clean none h = refl
  use-clean (some (user u)) h = refl
  use-clean (some (assistant a)) h = refl
  use-clean (some (tool_result r)) h = ground arith

  pub user-clean :
      (o : Option (Message V)) → holds is_user o ≡ true → holds is_tool_result o ≡ false
  user-clean none h = refl
  user-clean (some (user u)) h = refl
  user-clean (some (assistant a)) h = refl
  user-clean (some (tool_result r)) h = ground arith

  IsFound-suc : (ms : List (Message V)) (n : ℕ) (f : Found) → IsFound ms n f → IsFound ms (suc n) f
  IsFound-suc ms n (owner i) (below, clean) = (omega arith, clean)
  IsFound-suc ms n (at_user i) below = omega arith
  IsFound-suc ms n nothing h = tt

  walk_back-IsFound : (ms : List (Message V)) (n : ℕ) → IsFound ms n (walk_back ms n)
  unfolding walk_back
  walk_back-IsFound ms zero = tt
  walk_back-IsFound ms (suc i) = elim (Bool-cases (kind_at is_tool_use ms i)) [
    | inl e ↦ rw e (omega arith, use-clean (get_elem? ms i) e)
    | inr e ↦ elim (Bool-cases (kind_at is_user ms i)) [
      | inl f ↦ rw (e, f) (omega arith)
      | inr f ↦ rw (e, f) (IsFound-suc ms i (walk_back ms i) (walk_back-IsFound ms i))
    ]
  ]

  -- What the first loop leaves: a returned cut is final, and one from which the function goes on
  -- holds no tool result unless it is the start of the conversation.
  abbrev IsSettled : List (Message V) → Settled → Type 0
  IsSettled ms (returned r) = (r ≤ length ms) × (result_at ms r ≡ false)
  IsSettled ms (left_at c) = (c ≤ length ms) × ((c ≡ 0) ⊎ (result_at ms c ≡ false))

  settle-found :
      (ms : List (Message V)) (cut : ℕ) (later : Settled)
      → cut < length ms
      → IsSettled ms later
      → (f : Found) → IsFound ms cut f
      → IsSettled ms (after_walk ms later f)
  settle-found ms cut later h k (owner i) (below, clean) = (omega arith, clean)
  settle-found ms cut later h k (at_user i) below =
      let (bound, clean) = advance-clean ms (suc i) (omega arith) in
      let same : min (advance ms (suc i)) (length ms) ≡ advance ms (suc i) = omega arith in
      (omega arith, rw same clean)
  settle-found ms cut later h k nothing _ = k

  settle-IsSettled :
      (ms : List (Message V)) (cut : ℕ) (rest : List (Message V))
      → drop cut ms ≡ rest
      → cut ≤ length ms
      → IsSettled ms (settle ms cut rest)
  unfolding settle
  settle-IsSettled ms cut [] e h = (h, inr (ap (holds is_tool_result) (drop-nil cut ms e)))
  settle-IsSettled ms cut (m ∷ rest) e h =
      let (e', at_cut, below) = drop-suc cut ms e in
      let ih = settle-IsSettled ms (suc cut) rest e' (omega arith) in
      elim (Bool-cases (is_tool_result m)) [
        | inr f ↦ rw f (h, inr (ap (holds is_tool_result) at_cut ∙ f))
        | inl f ↦ elim (Bool-cases (cut == 0)) [
          | inl z ↦ rw (f, z) (h, inl ((==_iff cut 0).0 z))
          | inr z ↦
              rw (f, z)
                (settle-found ms cut (settle ms (suc cut) rest) below ih (walk_back ms cut)
                  (walk_back-IsFound ms cut))
        ]
      ]

  pub pull_back-clean :
      (ms : List (Message V)) (c : ℕ)
      → c ≤ length ms
      → (c ≡ 0) ⊎ (result_at ms c ≡ false)
      → pull_back ms c ≡ c
  unfolding pull_back
  pull_back-clean ms zero h k = refl
  pull_back-clean ms (suc c) h (inl z) = absurd (omega arith)
  pull_back-clean ms (suc c) h (inr f) = ground arith

  finish :
      (ms : List (Message V)) (s : Settled)
      → IsSettled ms s
      → (cut_of ms s ≤ length ms) × (result_at ms (cut_of ms s) ≡ false)
  finish ms (returned r) h = h
  finish ms (left_at c) (bound, clean) =
      rw (pull_back-clean ms c bound clean) (advance-clean ms c bound)

  -- The snapped cut lies within the conversation, and the kept tail never starts on a tool result.
  pub snap-clean :
      (ms : List (Message V)) (cut : ℕ)
      → (snap_cut_to_tool_pair_boundary ms cut ≤ length ms)
        × (result_at ms (snap_cut_to_tool_pair_boundary ms cut) ≡ false)
  unfolding snap_cut_to_tool_pair_boundary
  snap-clean [] cut = (omega arith, refl)
  snap-clean (m ∷ ms) cut =
      let c = min cut (suc (length ms)) in
      finish (m ∷ ms) (settle (m ∷ ms) c (drop c (m ∷ ms)))
        (settle-IsSettled (m ∷ ms) c (drop c (m ∷ ms)) refl (omega arith))
