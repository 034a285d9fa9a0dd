-- ===== src/AgentLoop/Paired.antt =====
-- A conversation whose tool calls and results are paired stays so when messages are said and
-- steered.
use pirs.Prelude.{
  ◌≡◌, refl, ◌∙◌, Bool, true, false, Option, none, some, List, [], ◌∷◌, ◌++◌, arith, and_true,
}
use pirs.Prelude.Lists.{all}
use pirs.Prelude.Text.{Text}
use pirs.Json.{JsonLib}
use pirs.Message.{ToolResultMessage, Message, user, assistant, tool_result, is_user}
use pirs.Compaction.Cut.{tool_pairs_intact}
use pirs.AgentLoop.State.{LoopConfig, LoopState, emit_all, at_world, say, say_all}
use pirs.AgentLoop.Steer.{
  Steered, apply_soft_steer, steer_with, steered_by, on_last_result, push_marker, steer_texts,
  format_soft_steer_marker,
}
use pirs.AgentLoop.Results.{with_steer, steer_by}
use pirs.AgentLoop.Pairs.{intact-append, users-intact, on_last_result-pairs}

module _ {V : Type 0} where
  pub all_users-append :
      (xs ys : List (Message V))
      → all is_user xs ≡ true
      → all is_user ys ≡ true
      → all is_user (xs ++ ys) ≡ true
  all_users-append [] ys h k = k
  all_users-append (user u ∷ xs) ys h k = all_users-append xs ys h k
  all_users-append (assistant a ∷ xs) ys h k = absurd (ground arith)
  all_users-append (tool_result r ∷ xs) ys h k = absurd (ground arith)

module _ {V W : Type 0} where
  -- The conversation is paired and what is pending are user messages.
  abbrev pub IsPaired : LoopState V W → Type 0
  IsPaired s = (tool_pairs_intact s.messages ≡ true) × (all is_user s.pending ≡ true)

  pub say-IsPaired :
      (m : Message V) (s : LoopState V W) → is_user m ≡ true → IsPaired s → IsPaired (say m s)
  unfolding say emit_all
  say-IsPaired m s u (h, p) =
      (intact-append s.messages (m ∷ []) h (users-intact (m ∷ []) (ground arith)), p)

  pub say_all-IsPaired :
      (ms : List (Message V)) (s : LoopState V W)
      → all is_user ms ≡ true
      → IsPaired s
      → IsPaired (say_all ms s)
  unfolding say_all
  say_all-IsPaired [] s u p = p
  say_all-IsPaired (m ∷ ms) s u p =
      let (a, b) = and_true (is_user m) (all is_user ms) u in
      say_all-IsPaired ms (say m s) b (say-IsPaired m s a p)

module _ (J : JsonLib) (W : Type 0) (cfg : LoopConfig J.Value W) where
  open J use {Value}

  steered_by-IsPaired :
      (marker : Text) (t : Steered Value) (o : Option (List (Message Value)))
      → on_last_result (push_marker marker) t.context_messages ≡ o
      → tool_pairs_intact (steered_by marker t o).1.context_messages
        ≡ tool_pairs_intact t.context_messages
  unfolding steered_by tool_pairs_intact push_marker
  steered_by-IsPaired marker t none e = refl
  steered_by-IsPaired marker t (some ms) e =
      on_last_result-pairs (push_marker marker) [] t.context_messages ms (λ r. refl) e

  steer_with-IsPaired :
      (t : Steered Value) (ts : List Text)
      → tool_pairs_intact (steer_with t ts).1.context_messages
        ≡ tool_pairs_intact t.context_messages
  unfolding steer_with
  steer_with-IsPaired t [] = refl
  steer_with-IsPaired t (x ∷ ts) = steered_by-IsPaired (format_soft_steer_marker (x ∷ ts)) t _ refl

  with_steer-IsPaired :
      (s : LoopState Value W) (steers : List (Message Value)) (p : Bool × Steered Value)
      → all is_user steers ≡ true
      → all is_user s.pending ≡ true
      → tool_pairs_intact p.1.context_messages ≡ true
      → IsPaired (with_steer J W cfg s steers p).0
  unfolding with_steer
  with_steer-IsPaired s steers (true, t) u p h = (h, p)
  with_steer-IsPaired s steers (false, t) u p h = (h, all_users-append s.pending steers p u)

  pub steer_by-IsPaired :
      (results : List (ToolResultMessage Value)) (s : LoopState Value W)
      (p : W × List (Message Value))
      → all is_user p.1 ≡ true
      → IsPaired s
      → IsPaired (steer_by J W cfg results s p).0
  unfolding steer_by apply_soft_steer
  steer_by-IsPaired results s (w, []) u h = h
  steer_by-IsPaired results s (w, m ∷ ms) u (h, p) =
      with_steer-IsPaired (at_world w s) (m ∷ ms) _ u p
        (steer_with-IsPaired _ (steer_texts (m ∷ ms)) ∙ h)
