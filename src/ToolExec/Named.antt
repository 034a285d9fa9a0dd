-- ===== src/ToolExec/Named.antt =====
-- Every step of a call, from its preparation to its result, keeps the call's id and name.
use pirs.Prelude.{
  ℕ, suc, ◌≡◌, refl, inl, inr, Bool, true, false, Option, none, some, List, [], ◌∷◌, arith,
  Bool-cases, Option-cases,
}
use pirs.Prelude.Lists.{get_elem?, drop, drop-suc}
use pirs.Prelude.Text.{Text}
use pirs.Prelude.Result.{Result, ok, err}
use pirs.Json.{JsonLib}
use pirs.Message.{ToolResultMessage}
use pirs.Thrash.Detectors.{Stop}
use pirs.ToolExec.Host.{
  AgentTool, ToolCallData, ToolOutput, ToolResultPatch, Hooks, Host, Run, is_visible,
}
use pirs.ToolExec.Caps.{error_result_kind, result_of, patched, recapped, apply_model_result_cap}
use pirs.ToolExec.Bounded.{IsShort, error_result_kind-IsShort, recapped-IsShort}
use pirs.ToolExec.Prepare.{
  ReadyCall, Prepared, ready, refused, refuse, after_before, prepare_with, prepare_found,
  prepare_call, last_named,
}
use pirs.ToolExec.Execute.{patch_with, finalize_result, finish, run_job}
use pirs.ToolExec.Batch.{
  set_slot, Slots, answer_unrun, perform, close_round, after_guard, round, run_sequential,
}
use pirs.ToolExec.Fits.{IsAnswer, Fits, not_run-IsAnswer, set_slot-Fits}

module _ (J : JsonLib) (W : Type 0) (h : Host J.Value W) (hooks : Hooks J.Value W) where
  open J use {Value}

  -- A job runs the call at its index.
  abbrev pub IsJobOf : List (ToolCallData Value) → ReadyCall J W → Type 0
  IsJobOf calls job =
      (call : ToolCallData Value) × (get_elem? calls job.index ≡ some call)
      × (job.id ≡ call.id)
      × (job.name ≡ call.name)

  abbrev pub AreJobs : List (ToolCallData Value) → List (ReadyCall J W) → Type 0
  AreJobs calls [] = Unit {0}
  AreJobs calls (job ∷ jobs) = IsJobOf calls job × AreJobs calls jobs

  abbrev pub index_of : Prepared J W → ℕ
  index_of (ready job) = job.index
  index_of (refused i r) = i

  abbrev pub id_of : Prepared J W → Text
  id_of (ready job) = job.id
  id_of (refused i r) = r.tool_call_id

  abbrev pub name_of : Prepared J W → Text
  name_of (ready job) = job.name
  name_of (refused i r) = r.tool_name

  abbrev pub IsShortOf : Prepared J W → Type 0
  IsShortOf (ready job) = Unit {0}
  IsShortOf (refused i r) = IsShort r

  -- A prepared call stands for the call at the index; a refusal is short.
  abbrev pub IsPrepared : ℕ → ToolCallData Value → Prepared J W → Type 0
  IsPrepared index call p =
      (index_of p ≡ index) × (id_of p ≡ call.id) × (name_of p ≡ call.name) × IsShortOf p

  after_before-IsPrepared :
      (index : ℕ) (call : ToolCallData Value) (tool : AgentTool Value W) (args : Value)
      (p : W × Option Text)
      → IsPrepared index call (after_before J W h hooks index call tool args p).1
  unfolding after_before refuse error_result_kind
  after_before-IsPrepared index call tool args (w, none) = (refl, refl, refl, tt)
  after_before-IsPrepared index call tool args (w, some reason) =
      (refl, refl, refl, error_result_kind-IsShort J (h.now w) call.id call.name _ _)

  refuse-IsPrepared :
      (message kind : Text) (index : ℕ) (call : ToolCallData Value) (w : W)
      → IsPrepared index call (refuse J W h hooks message kind index call w).1
  unfolding refuse error_result_kind
  refuse-IsPrepared message kind index call w =
      (refl, refl, refl, error_result_kind-IsShort J (h.now w) call.id call.name message kind)

  prepare_with-IsPrepared :
      (index : ℕ) (call : ToolCallData Value) (tool : AgentTool Value W) (w : W)
      → IsPrepared index call (prepare_with J W h hooks index call tool w).1
  unfolding prepare_with
  prepare_with-IsPrepared index call tool w =
      let args = h.coerce_args tool.parameters call.arguments in
      elim (Bool-cases (is_visible h w call.name)) [
        | inr v ↦ rw (prepare_with, v) (refuse-IsPrepared _ _ index call w)
        | inl v ↦ elim (Option-cases (h.validate_args tool.parameters args)) [
          | inr (e, k) ↦ rw (prepare_with, v, k) (refuse-IsPrepared _ _ index call w)
          | inl k ↦ rw (prepare_with, v, k) (after_before-IsPrepared index call tool args _)
        ]
      ]

  prepare_found-IsPrepared :
      (index : ℕ) (call : ToolCallData Value) (tools : List (AgentTool Value W)) (w : W)
      (found : Option (AgentTool Value W))
      → IsPrepared index call (prepare_found J W h hooks index call tools w found).1
  unfolding prepare_found refuse error_result_kind
  prepare_found-IsPrepared index call tools w none =
      (refl, refl, refl, error_result_kind-IsShort J (h.now w) call.id call.name _ _)
  prepare_found-IsPrepared index call tools w (some tool) =
      prepare_with-IsPrepared index call tool w

  pub prepare_call-IsPrepared :
      (index : ℕ) (call : ToolCallData Value) (tools : List (AgentTool Value W)) (w : W)
      → IsPrepared index call (prepare_call J W h hooks index call tools w).1
  unfolding prepare_call
  prepare_call-IsPrepared index call tools w =
      prepare_found-IsPrepared index call tools w (last_named call.name tools)

  -- Before the hook and the cap.
  result_of-key :
      (now : ℕ) (id name : Text) (outcome : Result (ToolOutput Value))
      → let r = result_of J now id name outcome in (r.tool_call_id ≡ id) × (r.tool_name ≡ name)
  unfolding result_of error_result_kind
  result_of-key now id name (ok out) = (refl, refl)
  result_of-key now id name (err e) = (refl, refl)

  patched-key :
      (id name : Text) (r : ToolResultMessage Value) (p : Option (ToolResultPatch Value))
      → (r.tool_call_id ≡ id) × (r.tool_name ≡ name)
      → let r' = recapped J (patched J p r) in (r'.tool_call_id ≡ id) × (r'.tool_name ≡ name)
  unfolding patched recapped apply_model_result_cap
  patched-key id name r none a = ground arith
  patched-key id name r (some p) a = ground arith

  patch_with-IsAnswer :
      (id name : Text) (r : ToolResultMessage Value) (p : W × Option (ToolResultPatch Value))
      → (r.tool_call_id ≡ id) × (r.tool_name ≡ name)
      → IsAnswer id name (patch_with J W h hooks r p).1
  unfolding patch_with
  patch_with-IsAnswer id name r (w, p) a =
      let (b, c) = patched-key id name r p a in (b, c, recapped-IsShort J (patched J p r))

  finish-IsAnswer :
      (id name : Text) (p : Run Value W × Result (ToolOutput Value))
      → IsAnswer id name (finish J W h hooks id name p).1
  unfolding finish finalize_result
  finish-IsAnswer id name (s, outcome) =
      patch_with-IsAnswer id name _ _ (result_of-key (h.now s.world) id name outcome)

  pub run_job-IsAnswer :
      (job : ReadyCall J W) (s : Run Value W)
      → IsAnswer job.id job.name (run_job J W h hooks job s).1
  unfolding run_job
  run_job-IsAnswer job s = finish-IsAnswer job.id job.name _

  perform-IsAnswer :
      (id name : Text) (s : Run Value W) (p : W × Prepared J W)
      → id_of p.1 ≡ id
      → name_of p.1 ≡ name
      → IsShortOf p.1
      → IsAnswer id name (perform J W h hooks s p).1
  unfolding perform
  perform-IsAnswer id name s (w, refused i r) a b t = (a, b, t)
  perform-IsAnswer id name s (w, ready job) a b t =
      let (c, d, u) = run_job-IsAnswer job (record s { world = w }) in (cc, cc, u)

  close_round-result :
      (p : Run Value W × ToolResultMessage Value) → (close_round J W h hooks p).result ≡ p.1
  unfolding close_round
  close_round-result (s, r) = refl

  after_guard-IsAnswer :
      (tools : List (AgentTool Value W)) (index : ℕ) (call : ToolCallData Value)
      (p : Run Value W × Option Stop)
      → IsAnswer call.id call.name (after_guard J W h hooks tools index call p).result
  unfolding after_guard answer_unrun
  after_guard-IsAnswer tools index call (s, some stop) =
      not_run-IsAnswer J W h hooks _ _ call s.world
  after_guard-IsAnswer tools index call (s, none) =
      let (i, a, b, t) = prepare_call-IsPrepared index call tools _ in
      rw close_round-result (perform-IsAnswer call.id call.name _ _ a b t)

  round-IsAnswer :
      (tools : List (AgentTool Value W)) (skip : Bool) (index : ℕ) (call : ToolCallData Value)
      (s : Run Value W)
      → IsAnswer call.id call.name (round J W h hooks tools skip index call s).result
  unfolding round answer_unrun
  round-IsAnswer tools true index call s = not_run-IsAnswer J W h hooks _ _ call s.world
  round-IsAnswer tools false index call s = after_guard-IsAnswer tools index call _

  pub run_sequential-Fits :
      (tools : List (AgentTool Value W)) (skip : Bool) (all : List (ToolCallData Value)) (index : ℕ)
      (calls : List (ToolCallData Value)) (s : Run Value W) (slots : Slots J W h hooks)
      → drop index all ≡ calls
      → Fits J W h hooks all slots
      → Fits J W h hooks all (run_sequential J W h hooks tools skip index calls s slots).1
  unfolding run_sequential
  run_sequential-Fits tools skip all index [] s slots d f = f
  run_sequential-Fits tools skip all index (call ∷ calls) s slots d f =
      let t = round J W h hooks tools skip index call s in
      let (d', e, l) = drop-suc index all d in
      let f' =
        set_slot-Fits J W h hooks all slots index call t.result e
          (round-IsAnswer tools skip index call s) f in
      let rest =
        run_sequential-Fits tools t.skip_rest all (suc index) calls t.run
          (set_slot index t.result slots) d' f' in
      elim (Bool-cases t.break) [
        | inl b ↦ rw (run_sequential, b) f'
        | inr b ↦ rw (run_sequential, b) rest
      ]
