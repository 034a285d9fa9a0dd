-- ===== src/Jobs/Wait.antt =====
-- crates/pirs-agent/src/jobs.rs, lines 158 to 202: `wait`, as the steps of one waiter between which
-- other threads may call the registry, and those calls. Clocks are not modelled: each step of the
-- waiter is told whether its deadline has passed.
use pirs.Prelude.{ℕ, suc, Bool, Option, none, some, List, [], ◌∷◌, ◌++◌, ◌==◌, if◌then◌else◌}
use pirs.Prelude.Lists.{any}
use pirs.Prelude.Text.{Text}
use pirs.Prelude.Table.{put}
use pirs.Jobs.{
  JobStatus, JobKind, is_running, Registry, set_notifier, notify, register, register_stop_flag,
  request_stop, waiters_of, set_status, set_group, set_progress_handle, set_cancel, set_steer,
  steer, get,
}

-- Where the waiter stands: before the first check, behind it, behind its registration with the
-- channel made, awaiting the channel, or returned.
pub data Phase : Type 0 where
  start checked : Phase
  registered sleeping : ℕ → Phase
  returned : Option JobStatus → Phase

-- `let current = self.get(id)?; …; if !Running {return Some(status) }`, and what follows it.
unfoldable pub observed : ℕ → Registry → Phase → Phase
observed id r next = elim (get id r) [
  | none ↦ returned none
  | some j ↦ if is_running j.status then next else returned (some j.status)
]

-- `let (tx, rx) = channel(); waiters.entry(id).or_default().push(tx)`.
unfoldable pub add_waiter : ℕ → Registry → Registry
add_waiter id r = record r {
  waiters = put id (waiters_of id r.waiters ++ r.next_channel ∷ []) r.waiters;
  next_channel = suc r.next_channel;
}

unfoldable pub is_woken : ℕ → Registry → Bool
is_woken channel r = any (λ c. c == channel) r.woken

unfoldable pub wait_step : ℕ → Bool → Registry → Phase → Registry × Phase
wait_step id timed_out r start = (r, observed id r checked)
wait_step id timed_out r checked = (add_waiter id r, registered r.next_channel)
wait_step id timed_out r (registered channel) =
    (r, observed id r (if timed_out then returned none else sleeping channel))
wait_step id timed_out r (sleeping channel) =
    if is_woken channel r
    then (r, observed id r start)
    else (r, if timed_out then returned none else sleeping channel)
wait_step id timed_out r (returned status) = (r, returned status)

-- A call by another thread.
pub data Call : Type 0 where
  register_call : JobKind → Text → Text → Option ℕ → ℕ → Call
  status_call : ℕ → JobStatus → Call
  waiter_call stop_call : ℕ → Call
  stop_flag_call progress_call cancel_call set_steer_call : ℕ → ℕ → Call
  group_call steer_call : ℕ → Text → Call
  notifier_call : ℕ → Call
  notify_call : Text → Call

unfoldable pub called : Call → Registry → Registry
called (register_call kind description path pid now) r =
    (register kind description path pid now r).0
called (status_call id status) r = set_status id status r
called (waiter_call id) r = add_waiter id r
called (stop_call id) r = (request_stop id r).0
called (stop_flag_call id flag) r = register_stop_flag id flag r
called (progress_call id progress) r = set_progress_handle id progress r
called (cancel_call id cancel) r = set_cancel id cancel r
called (set_steer_call id callback) r = set_steer id callback r
called (group_call id group) r = set_group id group r
called (steer_call id message) r = (steer id message r).0
called (notifier_call callback) r = set_notifier callback r
called (notify_call message) r = notify message r

-- A step of the waiter, or a call beside it.
pub data Step : Type 0 where
  own : Bool → Step
  other : Call → Step

unfoldable pub run : ℕ → List Step → Registry × Phase → Registry × Phase
unfolding wait_step called
run id [] s = s
run id (own timed_out ∷ steps) (r, p) = run id steps (wait_step id timed_out r p)
run id (other call ∷ steps) (r, p) = run id steps (called call r, p)
