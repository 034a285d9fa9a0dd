-- ===== src/ToolExec/Batch.antt =====
-- crates/pirs-agent/src/agent_loop/tool_exec.rs, lines 379 to 645: the two loops over the calls of a
-- batch. Tools that run at the same time are executed one after the other, in the order in which
-- they end.
use pirs.Prelude.{
  ℕ, zero, suc, Bool, true, false, ◌||◌, Option, none, some, List, [], ◌∷◌, ◌++◌, if◌then◌else◌,
}
use pirs.Prelude.Lists.{length}
use pirs.Prelude.Text.{Text, lit}
use pirs.Json.{JsonLib}
use pirs.Message.{ToolResultMessage}
use pirs.Thrash.Detectors.{Stop, stop_text}
use pirs.ToolExec.Host.{AgentTool, ToolCallData, tool_execution_end, Hooks, Host, Run}
use pirs.ToolExec.Prepare.{ReadyCall, Prepared, ready, refused, prepare_call}
use pirs.ToolExec.Execute.{
  emit, started, ended, skip_pending, guard_start, guard_end, run_job, not_run,
}

abbrev pub steer_message : Text
steer_message = lit "Skipped due to queued user message."

-- `results[index] = Some(result)`.
unfoldable pub set_slot {ℓ} : {A : Type ℓ} → ℕ → A → List (Option A) → List (Option A)
set_slot i a [] = []
set_slot zero a (o ∷ os) = some a ∷ os
set_slot (suc i) a (o ∷ os) = o ∷ set_slot i a os

-- The member at a position, or else the last, and the others.
unfoldable pub take_nth {ℓ} : {A : Type ℓ} → A → List A → ℕ → A × List A
take_nth x [] n = (x, [])
take_nth x (y ∷ ys) zero = (x, y ∷ ys)
take_nth x (y ∷ ys) (suc n) = let (z, zs) = take_nth y ys n in (z, x ∷ zs)

module _ (J : JsonLib) (W : Type 0) (h : Host J.Value W) (hooks : Hooks J.Value W) where
  open J use {Value}

  -- Slots of the results of a batch.
  abbrev pub Slots : Type 0
  Slots = List (Option (ToolResultMessage Value))

  -- One round of the sequential loop: its result, and whether the others are skipped or dropped.
  pub record Round : Type 0 where
    pub run : Run Value W
    pub result : ToolResultMessage Value
    pub skip_rest : Bool
    pub break : Bool

  unfoldable pub answer_unrun : Text → Text → ToolCallData Value → Run Value W → Round
  answer_unrun message kind call s =
      let r = not_run J W h hooks message kind call s.world in
      record {
        run = emit J W h hooks (started J W h hooks call ∷ ended J W h hooks r ∷ []) s;
        result = r;
        skip_rest = true;
        break = false;
      }

  unfoldable pub perform : Run Value W → W × Prepared J W → Run Value W × ToolResultMessage Value
  perform s (w, refused i r) = (record s { world = w }, r)
  perform s (w, ready job) = run_job J W h hooks job (record s { world = w })

  unfoldable pub close_round : Run Value W × ToolResultMessage Value → Round
  close_round (s, r) =
      let s' = emit J W h hooks (ended J W h hooks r ∷ []) (guard_end J W h hooks r.is_error s) in
      record {
        run = s';
        result = r;
        skip_rest = skip_pending J W h hooks s'.world;
        break = h.is_cancelled s'.world;
      }

  module _ (tools : List (AgentTool Value W)) where
    unfoldable pub after_guard : ℕ → ToolCallData Value → Run Value W × Option Stop → Round
    after_guard index call (s, some stop) = answer_unrun (stop_text stop) (lit "loop_detect") call s
    after_guard index call (s, none) =
        let s' = emit J W h hooks (started J W h hooks call ∷ []) s in
        close_round (perform s' (prepare_call J W h hooks index call tools s'.world))

    unfoldable pub round : Bool → ℕ → ToolCallData Value → Run Value W → Round
    round true index call s = answer_unrun steer_message (lit "skipped_steer") call s
    round false index call s = after_guard index call (guard_start J W h hooks call s)

    unfoldable pub run_sequential :
        Bool → ℕ → List (ToolCallData Value) → Run Value W → Slots → Run Value W × Slots
    run_sequential skip_rest index [] s slots = (s, slots)
    run_sequential skip_rest index (call ∷ calls) s slots =
        let t = round skip_rest index call s in
        let slots' = set_slot index t.result slots in
        let rest = run_sequential t.skip_rest (suc index) calls t.run slots' in
        if t.break then (t.run, slots') else rest

  -- What the parallel path has before it launches the tools.
  pub record Pass : Type 0 where
    pub run : Run Value W
    pub thrash_blocked : Bool
    pub steer_skip : Bool
    pub prepared : List (ReadyCall J W)
    pub slots : Slots

  -- The result of a call that does not get a task.
  unfoldable pub put_result : ℕ → ToolResultMessage Value → Pass → Pass
  put_result index r p = record p {
    run = emit J W h hooks (ended J W h hooks r ∷ []) p.run;
    slots = set_slot index r p.slots;
  }

  unfoldable pub queue : Pass → W × Prepared J W → Pass
  queue p (w, ready job) = record p {
    run = record p.run { world = w };
    prepared = p.prepared ++ job ∷ [];
  }
  queue p (w, refused i r) =
      put_result i r
        (record p { run = guard_end J W h hooks r.is_error (record p.run { world = w }) })

  module _ (tools : List (AgentTool Value W)) where
    unfoldable pub queue_guarded : ℕ → ToolCallData Value → Pass → Run Value W × Option Stop → Pass
    queue_guarded index call p (s, some stop) =
        put_result index (not_run J W h hooks (stop_text stop) (lit "loop_detect") call s.world)
          (record p { run = s; thrash_blocked = true })
    queue_guarded index call p (s, none) =
        queue (record p { run = s }) (prepare_call J W h hooks index call tools s.world)

    unfoldable pub prepare_one : ℕ → ToolCallData Value → Pass → Pass
    prepare_one index call p =
        let s = emit J W h hooks (started J W h hooks call ∷ []) p.run in
        let p' = record p {
          run = s;
          steer_skip = p.steer_skip || skip_pending J W h hooks p.run.world;
        } in
        if p.thrash_blocked
        then put_result index
            (not_run J W h hooks (lit "Skipped due to thrash stop.") (lit "skipped_thrash") call
              s.world)
            p'
        else if p'.steer_skip
        then put_result index (not_run J W h hooks steer_message (lit "skipped_steer") call s.world)
            p'
        else queue_guarded index call p' (guard_start J W h hooks call s)

    unfoldable pub prepare_all : ℕ → List (ToolCallData Value) → Pass → Pass
    prepare_all index [] p = p
    prepare_all index (call ∷ calls) p = prepare_all (suc index) calls (prepare_one index call p)

  abbrev pub job_call : ReadyCall J W → ToolCallData Value
  job_call job = record { id = job.id; name = job.name; arguments = job.args }

  -- The tools that are launched; those that are not are answered. Steering may arrive before each
  -- poll.
  unfoldable pub launch :
      List (ReadyCall J W) → Run Value W × Slots → List (ReadyCall J W) × (Run Value W × Slots)
  launch [] (s, slots) = ([], (s, slots))
  launch (job ∷ jobs) (s, slots) =
      let t = record s { world = h.meanwhile s.world } in
      let r = not_run J W h hooks steer_message (lit "skipped_steer") (job_call job) t.world in
      let skipped =
        launch jobs (emit J W h hooks (ended J W h hooks r ∷ []) t, set_slot job.index r slots) in
      let (flying, rest) = launch jobs (t, slots) in
      if skip_pending J W h hooks t.world then skipped else (job ∷ flying, rest)

  unfoldable pub land :
      ReadyCall J W → Slots → Run Value W × ToolResultMessage Value → Run Value W × Slots
  land job slots (s, r) = (
    emit J W h hooks (tool_execution_end job.id job.name r ∷ [])
        (guard_end J W h hooks r.is_error s),
    set_slot job.index r slots,
  )

  -- `while let Some(…) = in_flight.next().await`; the first argument is at least the number of tasks.
  unfoldable pub complete : ℕ → List (ReadyCall J W) → Run Value W × Slots → Run Value W × Slots
  complete zero flying (s, slots) = (s, slots)
  complete (suc fuel) [] (s, slots) = (s, slots)
  complete (suc fuel) (job ∷ jobs) (s, slots) =
      let (next, others) = take_nth job jobs (h.next_done s.world) in
      complete fuel others (land next slots (run_job J W h hooks next s))

  unfoldable pub run_prepared : Pass → Run Value W × Slots
  run_prepared p =
      let (flying, rest) = launch p.prepared (p.run, p.slots) in
      complete (length flying) flying rest

  -- The results, with one written for every call that has none.
  unfoldable pub filled_slot :
      ToolCallData Value → Option (ToolResultMessage Value) → W → ToolResultMessage Value
  filled_slot call (some r) w = r
  filled_slot call none w =
      if h.is_cancelled w
      then not_run J W h hooks (lit "Tool execution cancelled") (lit "cancelled") call w
      else not_run J W h hooks (lit "Tool execution did not complete") (lit "incomplete") call w

  unfoldable pub fill_in : List (ToolCallData Value) → Slots → W → List (ToolResultMessage Value)
  fill_in [] slots w = []
  fill_in (call ∷ calls) [] w = []
  fill_in (call ∷ calls) (o ∷ slots) w = filled_slot call o w ∷ fill_in calls slots w

  abbrev pub no_slots : List (ToolCallData Value) → Slots
  no_slots [] = []
  no_slots (call ∷ calls) = none ∷ no_slots calls

  unfoldable pub execute_tool_calls :
      Bool
      → List (AgentTool Value W)
      → List (ToolCallData Value)
      → Run Value W
      → Run Value W × List (ToolResultMessage Value)
  execute_tool_calls is_sequential tools calls s =
      let blank : Pass = record {
        run = s;
        thrash_blocked = false;
        steer_skip = false;
        prepared = [];
        slots = no_slots calls;
      } in
      let (s', slots) =
        if is_sequential
        then run_sequential tools false 0 calls s (no_slots calls)
        else run_prepared (prepare_all tools 0 calls blank) in
      (s', fill_in calls slots s'.world)
