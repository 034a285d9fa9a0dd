-- ===== src/ToolExec/Answered.antt =====
-- Every call of a batch gets one result, in the order of the calls.
use pirs.Prelude.{
  ℕ, zero, suc, ◌≡◌, refl, inl, inr, Bool, true, false, Option, none, some, List, [], ◌∷◌, ◌++◌,
  ◌||◌, map, Bool-cases,
}
use pirs.Prelude.Lists.{get_elem?, drop, drop-suc}
use pirs.Json.{JsonLib}
use pirs.Message.{ToolResultMessage}
use pirs.Thrash.Detectors.{Stop}
use pirs.ToolExec.Host.{AgentTool, ToolCallData, Hooks, Host, Run}
use pirs.ToolExec.Prepare.{ReadyCall, Prepared, ready, refused}
use pirs.ToolExec.Execute.{run_job, skip_pending}
use pirs.ToolExec.Batch.{
  set_slot, take_nth, Slots, Pass, put_result, queue, queue_guarded, prepare_one, prepare_all,
  launch, land, complete, run_prepared, fill_in, no_slots, execute_tool_calls, job_call,
}
use pirs.ToolExec.Fits.{
  IsAnswer, AreShort, not_run-IsAnswer, fill_in-short, result_key, call_key, Fits, Fits-blank,
  set_slot-Fits, fill_in-keys,
}
use pirs.ToolExec.Named.{
  IsJobOf, AreJobs, IsPrepared, prepare_call-IsPrepared, run_job-IsAnswer, run_sequential-Fits,
}

module _ (J : JsonLib) (W : Type 0) (h : Host J.Value W) (hooks : Hooks J.Value W) where
  open J use {Value}

  -- What the parallel path keeps: the slots fit, and the jobs are calls of the batch.
  abbrev IsPassOf : List (ToolCallData Value) → Pass J W h hooks → Type 0
  IsPassOf calls p = Fits J W h hooks calls p.slots × AreJobs J W h hooks calls p.prepared

  AreJobs-append :
      (calls : List (ToolCallData Value)) (jobs : List (ReadyCall J W)) (job : ReadyCall J W)
      → AreJobs J W h hooks calls jobs
      → IsJobOf J W h hooks calls job
      → AreJobs J W h hooks calls (jobs ++ job ∷ [])
  AreJobs-append calls [] job a b = (b, tt)
  AreJobs-append calls (j ∷ jobs) job (c, a) b = (c, AreJobs-append calls jobs job a b)

  put_result-IsPassOf :
      (all : List (ToolCallData Value)) (index : ℕ) (call : ToolCallData Value)
      (r : ToolResultMessage Value) (p : Pass J W h hooks)
      → get_elem? all index ≡ some call
      → IsAnswer call.id call.name r
      → IsPassOf all p
      → IsPassOf all (put_result J W h hooks index r p)
  unfolding put_result
  put_result-IsPassOf all index call r p e a (f, g) =
      (set_slot-Fits J W h hooks all p.slots index call r e a f, g)

  queue-IsPassOf :
      (all : List (ToolCallData Value)) (index : ℕ) (call : ToolCallData Value)
      (p : Pass J W h hooks) (q : W × Prepared J W)
      → get_elem? all index ≡ some call
      → IsPrepared J W h hooks index call q.1
      → IsPassOf all p
      → IsPassOf all (queue J W h hooks p q)
  unfolding queue
  queue-IsPassOf all index call p (w, ready job) e (i, a, b, t) (f, g) =
      (f, AreJobs-append all p.prepared job g (call, rw i e, a, b))
  queue-IsPassOf all index call p (w, refused i r) e (i', a, b, t) (f, g) =
      put_result-IsPassOf all i call r _ (rw i' e) (a, b, t) (f, g)

  queue_guarded-IsPassOf :
      (tools : List (AgentTool Value W)) (all : List (ToolCallData Value)) (index : ℕ)
      (call : ToolCallData Value) (p : Pass J W h hooks) (q : Run Value W × Option Stop)
      → get_elem? all index ≡ some call
      → IsPassOf all p
      → IsPassOf all (queue_guarded J W h hooks tools index call p q)
  unfolding queue_guarded
  queue_guarded-IsPassOf tools all index call p (s, some stop) e i =
      put_result-IsPassOf all index call _ _ e (not_run-IsAnswer J W h hooks _ _ call _) i
  queue_guarded-IsPassOf tools all index call p (s, none) e i =
      queue-IsPassOf all index call _ _ e
        (prepare_call-IsPrepared J W h hooks index call tools s.world) i

  prepare_one-IsPassOf :
      (tools : List (AgentTool Value W)) (all : List (ToolCallData Value)) (index : ℕ)
      (call : ToolCallData Value) (p : Pass J W h hooks)
      → get_elem? all index ≡ some call
      → IsPassOf all p
      → IsPassOf all (prepare_one J W h hooks tools index call p)
  unfolding prepare_one
  prepare_one-IsPassOf tools all index call p e i =
      let steer = p.steer_skip || skip_pending J W h hooks p.run.world in
      elim (Bool-cases p.thrash_blocked) [
        | inl b ↦
            rw (prepare_one, b)
              (put_result-IsPassOf all index call _ _ e (not_run-IsAnswer J W h hooks _ _ call _) i)
        | inr b ↦ elim (Bool-cases steer) [
          | inl c ↦
              rw (prepare_one, b, c)
                (put_result-IsPassOf all index call _ _ e (not_run-IsAnswer J W h hooks _ _ call _)
                  i)
          | inr c ↦ rw (prepare_one, b, c) (queue_guarded-IsPassOf tools all index call _ _ e i)
        ]
      ]

  pub prepare_all-IsPassOf :
      (tools : List (AgentTool Value W)) (all : List (ToolCallData Value)) (index : ℕ)
      (calls : List (ToolCallData Value)) (p : Pass J W h hooks)
      → drop index all ≡ calls
      → IsPassOf all p
      → IsPassOf all (prepare_all J W h hooks tools index calls p)
  unfolding prepare_all
  prepare_all-IsPassOf tools all index [] p d i = i
  prepare_all-IsPassOf tools all index (call ∷ calls) p d i =
      let (d', e, l) = drop-suc index all d in
      prepare_all-IsPassOf tools all (suc index) calls _ d'
        (prepare_one-IsPassOf tools all index call p e i)

  -- The tasks in flight with the slots beside them.
  abbrev AreFlying :
      List (ToolCallData Value) → List (ReadyCall J W) × (Run Value W × Slots J W h hooks) → Type 0
  AreFlying calls (jobs, (s, slots)) = AreJobs J W h hooks calls jobs × Fits J W h hooks calls slots

  answer-Fits :
      (all : List (ToolCallData Value)) (job : ReadyCall J W) (r : ToolResultMessage Value)
      (slots : Slots J W h hooks)
      → IsJobOf J W h hooks all job
      → IsAnswer job.id job.name r
      → Fits J W h hooks all slots
      → Fits J W h hooks all (set_slot job.index r slots)
  answer-Fits all job r slots (call, e, a, b) (c, d, t) f =
      set_slot-Fits J W h hooks all slots job.index call r e (cc, cc, t) f

  launch-AreFlying :
      (all : List (ToolCallData Value)) (jobs : List (ReadyCall J W)) (s : Run Value W)
      (slots : Slots J W h hooks)
      → AreJobs J W h hooks all jobs
      → Fits J W h hooks all slots
      → AreFlying all (launch J W h hooks jobs (s, slots))
  unfolding launch
  launch-AreFlying all [] s slots a f = (tt, f)
  launch-AreFlying all (job ∷ jobs) s slots (j, a) f =
      let t = record s { world = h.meanwhile s.world } in
      elim (Bool-cases (skip_pending J W h hooks t.world)) [
        | inl b ↦
            rw (launch, b)
              (launch-AreFlying all jobs _ _ a (
                answer-Fits all job _ slots j
                  (not_run-IsAnswer J W h hooks _ _ (job_call J W h hooks job) t.world) f))
        | inr b ↦ let (g, k) = launch-AreFlying all jobs t slots a f in rw (launch, b) ((j, g), k)
      ]

  take_nth-AreJobs :
      (all : List (ToolCallData Value)) (job : ReadyCall J W) (jobs : List (ReadyCall J W)) (n : ℕ)
      → IsJobOf J W h hooks all job
      → AreJobs J W h hooks all jobs
      → IsJobOf J W h hooks all (take_nth job jobs n).0
        × AreJobs J W h hooks all (take_nth job jobs n).1
  unfolding take_nth
  take_nth-AreJobs all job [] n j a = (j, a)
  take_nth-AreJobs all job (k ∷ jobs) zero j a = (j, a)
  take_nth-AreJobs all job (k ∷ jobs) (suc n) j (k', a) =
      let (i, b) = take_nth-AreJobs all k jobs n k' a in (i, (j, b))

  land-Fits :
      (all : List (ToolCallData Value)) (job : ReadyCall J W) (slots : Slots J W h hooks)
      (p : Run Value W × ToolResultMessage Value)
      → IsJobOf J W h hooks all job
      → IsAnswer job.id job.name p.1
      → Fits J W h hooks all slots
      → Fits J W h hooks all (land J W h hooks job slots p).1
  unfolding land
  land-Fits all job slots (s, r) j a f = answer-Fits all job r slots j a f

  complete-Fits :
      (all : List (ToolCallData Value)) (fuel : ℕ) (jobs : List (ReadyCall J W))
      (q : Run Value W × Slots J W h hooks)
      → AreJobs J W h hooks all jobs
      → Fits J W h hooks all q.1
      → Fits J W h hooks all (complete J W h hooks fuel jobs q).1
  unfolding complete
  complete-Fits all zero jobs (s, slots) a f = f
  complete-Fits all (suc fuel) [] (s, slots) a f = f
  complete-Fits all (suc fuel) (job ∷ jobs) (s, slots) (j, a) f =
      let (k, b) = take_nth-AreJobs all job jobs (h.next_done s.world) j a in
      let next = (take_nth job jobs (h.next_done s.world)).0 in
      complete-Fits all fuel (take_nth job jobs (h.next_done s.world)).1
        (land J W h hooks next slots (run_job J W h hooks next s)) b
        (land-Fits all next slots _ k (run_job-IsAnswer J W h hooks next s) f)

  pub run_prepared-Fits :
      (all : List (ToolCallData Value)) (p : Pass J W h hooks)
      → IsPassOf all p
      → Fits J W h hooks all (run_prepared J W h hooks p).1
  unfolding run_prepared
  run_prepared-Fits all p (f, a) =
      let (b, g) = launch-AreFlying all p.prepared p.run p.slots a f in complete-Fits all _ _ _ b g

  execute_tool_calls-Fits :
      (is_sequential : Bool) (tools : List (AgentTool Value W)) (calls : List (ToolCallData Value))
      (s : Run Value W)
      → (slots : Slots J W h hooks) × (w : W) × Fits J W h hooks calls slots
        × ((execute_tool_calls J W h hooks is_sequential tools calls s).1
            ≡ fill_in J W h hooks calls slots w)
  unfolding execute_tool_calls
  execute_tool_calls-Fits true tools calls s = (
    _,
    _,
    run_sequential-Fits J W h hooks tools false calls 0 calls s (no_slots J W h hooks calls) refl
        (Fits-blank J W h hooks calls),
    refl,
  )
  execute_tool_calls-Fits false tools calls s = (
    _,
    _,
    run_prepared-Fits calls _
        (prepare_all-IsPassOf tools calls 0 calls _ refl (Fits-blank J W h hooks calls, tt)),
    refl,
  )

  -- Sequentially or in parallel, whatever the tools, the hooks, the thrash guard, a steer or a
  -- cancellation do and in whatever order the tools end, every call of the batch gets one result,
  -- with its id and its tool name, in the order of the calls.
  pub execute_tool_calls-keys :
      (is_sequential : Bool) (tools : List (AgentTool Value W)) (calls : List (ToolCallData Value))
      (s : Run Value W)
      → map result_key (execute_tool_calls J W h hooks is_sequential tools calls s).1
        ≡ map call_key calls
  execute_tool_calls-keys is_sequential tools calls s =
      let (slots, w, f, e) = execute_tool_calls-Fits is_sequential tools calls s in
      rw e (fill_in-keys J W h hooks calls slots w f)

  -- No result of a batch shows the model more text than the cap of 20,000 characters and the note on
  -- the cut, whatever the tool returns and the hook makes of it.
  pub execute_tool_calls-short :
      (is_sequential : Bool) (tools : List (AgentTool Value W)) (calls : List (ToolCallData Value))
      (s : Run Value W)
      → AreShort (execute_tool_calls J W h hooks is_sequential tools calls s).1
  execute_tool_calls-short is_sequential tools calls s =
      let (slots, w, f, e) = execute_tool_calls-Fits is_sequential tools calls s in
      rw e (fill_in-short J W h hooks calls slots w f)
