-- ===== src/Jobs/Pool.antt =====
-- collapsarr/jobs/queue.py: which job is next, and the operations by which the pool, or a thread of
-- its own, takes it. Each `with self._cond:` block is one function.
pub mod Order
pub mod Claims
pub mod Steer
use collapsarr.Common.{
  ℕ, zero, suc, ◌+◌, ◌-◌, Bool, true, false, not, ◌&&◌, ◌||◌, Option, none, some, List, [], ◌∷◌,
  ◌++◌, Str, ◌==◌, ltb, if◌then◌else◌, length,
}
use collapsarr.Common.Int.{ℤ, ltb_ℤ, pred_ℤ}
use collapsarr.Downmix.Cancellation.{new_handle}
use collapsarr.Jobs.Job.{running, Job, is_pending, is_running}
use collapsarr.Jobs.Queue.{JobQueue, find_job, put_job}

unfoldable pub pending_jobs : List Job → List Job
unfolding is_pending
pending_jobs [] = []
pending_jobs (job ∷ jobs) =
    let rest = pending_jobs jobs in if is_pending job then job ∷ rest else rest

-- `min(pending, key=lambda job: job.priority)`, which keeps the first of the smallest.
unfoldable pub lowest_from : Job → List Job → Job
lowest_from best [] = best
lowest_from best (job ∷ jobs) =
    lowest_from (if ltb_ℤ job.priority best.priority then job else best) jobs

unfoldable pub lowest : List Job → Option Job
unfolding lowest_from
lowest [] = none
lowest (job ∷ jobs) = some (lowest_from job jobs)

unfoldable pub lowest_priority_pending : JobQueue → Option Job
unfolding pending_jobs lowest
lowest_priority_pending q = lowest (pending_jobs q.jobs)

-- `min(pending.priority for pending in ...)`; the generator is never empty where it is called.
unfoldable pub bumped_priority : Job → List Job → ℤ
unfolding pending_jobs lowest
bumped_priority job jobs = elim (lowest (pending_jobs jobs)) [
  | none ↦ job.priority
  | some first ↦ pred_ℤ first.priority
]

unfoldable pub bump_to_front : ℕ → JobQueue → JobQueue × Bool
unfolding is_pending find_job put_job bumped_priority
bump_to_front i q = elim (find_job i q.jobs) [
  | none ↦ (q, false)
  | some job ↦ if not (is_pending job) then (q, false) else (
    record q { jobs = put_job (record job { priority = bumped_priority job q.jobs }) q.jobs },
    true,
  )
]

-- A claimed job: `RUNNING`, stamped, with a fresh handle.
unfoldable pub claimed_job : ℕ → Job → Job
claimed_job now job = record job {
  status = running;
  started_at = some now;
  cancellation = some new_handle;
}

unfoldable pub force_start : ℕ → ℕ → JobQueue → JobQueue × Bool
unfolding is_pending find_job put_job claimed_job
force_start now i q = if q.is_shutdown then (q, false) else elim (find_job i q.jobs) [
  | none ↦ (q, false)
  | some job ↦ if not (is_pending job) then (q, false) else (
    record q {
      jobs = put_job (claimed_job now job) q.jobs;
      active = q.active + 1;
      force_start_threads = q.force_start_threads ++ i ∷ [];
    },
    true,
  )
]

-- One pass of the loop of `_claim_next`: the worker exits, waits, or has claimed a job.
pub data Claim : Type 0 where
  exits : Claim
  waits : Claim
  claims : Job → Claim

unfoldable pub claim_next : Bool → ℕ → JobQueue → JobQueue × Claim
unfolding lowest_priority_pending put_job claimed_job
claim_next paused now q =
    if q.is_shutdown
    then (q, exits)
    else if paused
    then (q, waits)
    else elim (lowest_priority_pending q) [
      | none ↦ (q, waits)
      | some job ↦ (
        record q { jobs = put_job (claimed_job now job) q.jobs; active = q.active + 1 },
        claims (claimed_job now job),
      )
    ]

unfoldable pub count_jobs : (Job → Bool) → List Job → ℕ
count_jobs test [] = 0
count_jobs test (job ∷ jobs) =
    let rest = count_jobs test jobs in if test job then suc rest else rest

unfoldable pub count_running : JobQueue → ℕ
unfolding count_jobs is_running
count_running q = count_jobs is_running q.jobs

unfoldable pub seed_next_priority : ℤ → JobQueue → JobQueue
seed_next_priority min_value q =
    if ltb_ℤ q.next_priority min_value then record q { next_priority = min_value } else q

unfoldable pub put_jobs : List Job → List Job → List Job
unfolding put_job
put_jobs [] jobs = jobs
put_jobs (job ∷ new) jobs = put_jobs new (put_job job jobs)

unfoldable pub rehydrate : List Job → JobQueue → JobQueue
unfolding put_jobs
rehydrate new q = record q { jobs = put_jobs new q.jobs }

unfoldable pub any_job : (Job → Bool) → List Job → Bool
any_job test [] = false
any_job test (job ∷ jobs) = test job || any_job test jobs

unfoldable pub has_active_work : JobQueue → Bool
unfolding any_job is_pending
has_active_work q = if ltb 0 q.active then true else any_job is_pending q.jobs

-- The threads that `shutdown` joins when it waits: the workers, and the force-started jobs.
unfoldable pub shutdown : JobQueue → JobQueue × Option (ℕ × List ℕ)
shutdown q =
    if q.is_shutdown
    then (q, none)
    else (record q { is_shutdown = true }, some (q.workers, q.force_start_threads))

-- The `finally` of `_run_job`.
unfoldable pub release : JobQueue → JobQueue
release q = record q { active = q.active - 1 }
