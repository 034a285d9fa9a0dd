-- ===== src/Jobs/Samples.antt =====
-- One job, its registration and its waiter.
use pirs.Prelude.{suc, ◌≤◌, ◌<◌, max, ◌≡◌, refl, true, false, none, some, List, [], ◌∷◌, arith}
use pirs.Prelude.Lists.{length}
use pirs.Prelude.Text.{lit}
use pirs.Prelude.Table.{lookup, put, remove, remove_all, distinct, below}
use pirs.Jobs.{
  running, killed, bash, agent, Job, Registry, new_registry, finished, sort, insert, evict,
  register, update, wake, set_status, get,
}
use pirs.Jobs.Evict.{register-running}
use pirs.Jobs.Bound.{running_jobs, register-length}
use pirs.Jobs.Wait.{
  start, sleeping, returned, observed, add_waiter, is_woken, wait_step, status_call, called, Step,
  own, other, run,
}
use pirs.Jobs.Asleep.{status_of, sleeping_woken}

-- Evaluates the registry.
jobs : Unit {0}
unfolding lookup put remove remove_all distinct below finished sort insert evict register update
    wake set_status get observed add_waiter is_woken wait_step called run
jobs = tt

-- The registry with the one job.
abbrev one_job : Registry
one_job = (register bash (lit "make") (lit "/tmp/1.log") none 5 new_registry).0

abbrev make_job : Job
make_job = record {
  id = 1;
  kind = bash;
  description = lit "make";
  group = none;
  status = running;
  output_path = lit "/tmp/1.log";
  started_at = 5;
  pid = none;
  progress = none;
  steer = none;
  cancel = none;
}

register-running_example :
    (get 1 (register agent (lit "explore") (lit "/tmp/2.log") none 6 one_job).0 ≡ some make_job)
    × (1 < (register agent (lit "explore") (lit "/tmp/2.log") none 6 one_job).1)
register-running_example =
    register-running agent (lit "explore") (lit "/tmp/2.log") none 6 one_job 1 make_job
      (unfold jobs in (refl, refl)) (unfold jobs in refl) refl

register-length_example :
    length (register agent (lit "explore") (lit "/tmp/2.log") none 6 one_job).0.jobs
    ≤ max 256 (suc (running_jobs one_job.jobs))
register-length_example =
    register-length agent (lit "explore") (lit "/tmp/2.log") none 6 one_job
      (unfold jobs in (refl, refl))

-- The waiter goes to sleep, then the job is killed.
abbrev steps : List Step
steps = own false ∷ own false ∷ own false ∷ other (status_call 1 killed) ∷ []

abbrev ended : Registry
ended = (run 1 steps (one_job, start)).0

sleeping_woken_example :
    (is_woken 0 ended ≡ true)
    × ((wait_step 1 false ended (sleeping 0)).1 ≡ returned (status_of 1 ended))
sleeping_woken_example =
    sleeping_woken 1 steps one_job ended 0 (unfold jobs in (refl, refl))
      (unfold jobs in omega arith) (unfold jobs in refl) (unfold jobs in refl)
