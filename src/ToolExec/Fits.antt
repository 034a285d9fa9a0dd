-- ===== src/ToolExec/Fits.antt =====
-- The slots of a batch: every result in a slot answers the call at its place, in a short text.
use pirs.Prelude.{
  ℕ, zero, suc, ◌≡◌, refl, inl, inr, none, some, List, [], ◌∷◌, map, arith, Bool-cases,
}
use pirs.Prelude.Lists.{get_elem?}
use pirs.Prelude.Text.{Text}
use pirs.Json.{JsonLib}
use pirs.Message.{ToolResultMessage}
use pirs.ToolExec.Host.{ToolCallData, Hooks, Host}
use pirs.ToolExec.Caps.{error_result_kind}
use pirs.ToolExec.Bounded.{IsShort, error_result_kind-IsShort}
use pirs.ToolExec.Execute.{not_run}
use pirs.ToolExec.Batch.{set_slot, Slots, filled_slot, fill_in, no_slots}

module _ {V : Type 0} where
  -- The result has the id and the tool name of the call, and a short text.
  abbrev pub IsAnswer : Text → Text → ToolResultMessage V → Type 0
  IsAnswer id name r = (r.tool_call_id ≡ id) × (r.tool_name ≡ name) × IsShort r

  abbrev pub AreShort : List (ToolResultMessage V) → Type 0
  AreShort [] = Unit {0}
  AreShort (r ∷ rs) = IsShort r × AreShort rs

  abbrev pub result_key : ToolResultMessage V → Text × Text
  result_key r = (r.tool_call_id, r.tool_name)

  abbrev pub call_key : ToolCallData V → Text × Text
  call_key call = (call.id, call.name)

module _ (J : JsonLib) (W : Type 0) (h : Host J.Value W) (hooks : Hooks J.Value W) where
  open J use {Value}

  -- Every result in a slot answers the call at its place.
  abbrev pub Fits : List (ToolCallData Value) → Slots J W h hooks → Type 0
  Fits [] [] = Unit {0}
  Fits [] (o ∷ os) = ⊥
  Fits (call ∷ calls) [] = ⊥
  Fits (call ∷ calls) (none ∷ os) = Fits calls os
  Fits (call ∷ calls) (some r ∷ os) = IsAnswer call.id call.name r × Fits calls os

  pub error_result-IsAnswer :
      (now : ℕ) (id name message kind : Text)
      → IsAnswer id name (error_result_kind J now id name message kind)
  unfolding error_result_kind
  error_result-IsAnswer now id name message kind =
      (refl, refl, error_result_kind-IsShort J now id name message kind)

  pub not_run-IsAnswer :
      (message kind : Text) (call : ToolCallData Value) (w : W)
      → IsAnswer call.id call.name (not_run J W h hooks message kind call w)
  unfolding not_run
  not_run-IsAnswer message kind call w =
      error_result-IsAnswer (h.now w) call.id call.name message kind

  pub Fits-blank : (calls : List (ToolCallData Value)) → Fits calls (no_slots J W h hooks calls)
  Fits-blank [] = tt
  Fits-blank (call ∷ calls) = Fits-blank calls

  pub set_slot-Fits :
      (calls : List (ToolCallData Value)) (slots : Slots J W h hooks) (i : ℕ)
      (call : ToolCallData Value) (r : ToolResultMessage Value)
      → get_elem? calls i ≡ some call
      → IsAnswer call.id call.name r
      → Fits calls slots
      → Fits calls (set_slot i r slots)
  unfolding set_slot
  set_slot-Fits [] slots i call r e a f = absurd (ground arith)
  set_slot-Fits (c ∷ calls) [] i call r e a f = absurd f
  set_slot-Fits (c ∷ calls) (none ∷ os) zero call r e (p, q, t) f = ((cc, cc, t), f)
  set_slot-Fits (c ∷ calls) (some x ∷ os) zero call r e (p, q, t) (g, f) = ((cc, cc, t), f)
  set_slot-Fits (c ∷ calls) (none ∷ os) (suc i) call r e a f = set_slot-Fits calls os i call r e a f
  set_slot-Fits (c ∷ calls) (some x ∷ os) (suc i) call r e a (g, f) =
      (g, set_slot-Fits calls os i call r e a f)

  filled-IsShort :
      (call : ToolCallData Value) (w : W) → IsShort (filled_slot J W h hooks call none w)
  unfolding filled_slot
  filled-IsShort call w = elim (Bool-cases (h.is_cancelled w)) [
    | inl e ↦ rw (filled_slot, e) ((not_run-IsAnswer _ _ call w).2)
    | inr e ↦ rw (filled_slot, e) ((not_run-IsAnswer _ _ call w).2)
  ]

  pub fill_in-keys :
      (calls : List (ToolCallData Value)) (slots : Slots J W h hooks) (w : W)
      → Fits calls slots
      → map result_key (fill_in J W h hooks calls slots w) ≡ map call_key calls
  unfolding fill_in filled_slot not_run error_result_kind
  fill_in-keys [] slots w f = refl
  fill_in-keys (call ∷ calls) [] w f = absurd f
  fill_in-keys (call ∷ calls) (none ∷ os) w f = ground (arith, fill_in-keys calls os w f)
  fill_in-keys (call ∷ calls) (some r ∷ os) w ((p, q, t), f) =
      rw (p, q, fill_in-keys calls os w f) refl

  pub fill_in-short :
      (calls : List (ToolCallData Value)) (slots : Slots J W h hooks) (w : W)
      → Fits calls slots
      → AreShort (fill_in J W h hooks calls slots w)
  unfolding fill_in filled_slot
  fill_in-short [] slots w f = tt
  fill_in-short (call ∷ calls) [] w f = absurd f
  fill_in-short (call ∷ calls) (none ∷ os) w f = (filled-IsShort call w, fill_in-short calls os w f)
  fill_in-short (call ∷ calls) (some r ∷ os) w ((p, q, t), f) = (t, fill_in-short calls os w f)
