-- ===== src/Jobs/Queue.antt =====
-- collapsarr/jobs/queue.py: the state of `JobQueue` and the operations that hold its lock. Each
-- `with self._cond:` block is one function, since no other thread can act in the middle of it.
pub mod Lookup
pub mod Cancel
use collapsarr.Common.{
  ℕ, zero, suc, ◌+◌, ◌-◌, Bool, true, false, not, ◌&&◌, ◌||◌, Option, none, some, List, [], ◌∷◌,
  ◌++◌, Str, ◌==◌, ltb, if◌then◌else◌, length,
}
use collapsarr.Common.Int.{ℤ, pos, ltb_ℤ, suc_ℤ, pred_ℤ}
use collapsarr.Common.Result.{Result, ok, raise, value_error}
use collapsarr.Downmix.Targets.{DownmixSettings, default_settings}
use collapsarr.Downmix.DefaultAudio.{DefaultAudioPreference}
use collapsarr.Downmix.Cancellation.{new_handle, cancel as cancel_handle}
use collapsarr.Jobs.Job.{
  JobStatus, pending, running, downmix, set_default_audio, Job, new_job, is_pending, is_running,
}

-- `jobs` is the dict in insertion order. Of a thread only its existence matters: `workers` counts the
-- pool's, and `force_start_threads` lists the jobs of the others.
pub record JobQueue : Type 0 where
  pub max_concurrency : ℕ
  pub jobs : List Job
  pub next_priority : ℤ
  pub workers : ℕ
  pub started : Bool
  pub force_start_threads : List ℕ
  pub is_shutdown : Bool
  pub active : ℕ

unfoldable pub new_queue : ℕ → Result JobQueue
new_queue max_concurrency =
    if ltb max_concurrency 1
    then raise value_error
    else ok (record {
      max_concurrency = max_concurrency;
      jobs = [];
      next_priority = pos 0;
      workers = 0;
      started = false;
      force_start_threads = [];
      is_shutdown = false;
      active = 0;
    })

-- `self._jobs.get(job_id)`
unfoldable pub find_job : ℕ → List Job → Option Job
find_job i [] = none
find_job i (job ∷ jobs) = if job.id == i then some job else find_job i jobs

-- `self._jobs[job.id] = job`: an old entry keeps its place, a new one goes to the end.
unfoldable pub put_job : Job → List Job → List Job
put_job job [] = job ∷ []
put_job job (j ∷ jobs) = if j.id == job.id then job ∷ jobs else j ∷ put_job job jobs

-- `del self._jobs[job_id]`
unfoldable pub delete_job : ℕ → List Job → List Job
delete_job i [] = []
delete_job i (job ∷ jobs) = let rest = delete_job i jobs in if job.id == i then rest else job ∷ rest

unfoldable pub get_job : ℕ → JobQueue → Option Job
get_job i q = find_job i q.jobs

unfoldable pub list_jobs : JobQueue → List Job
list_jobs q = q.jobs

-- The lock's block of `_enqueue`.
unfoldable pub enqueue_job : Job → JobQueue → JobQueue × Job
enqueue_job job q =
    let queued : Job = record job { priority = q.next_priority } in
    (record q { next_priority = suc_ℤ q.next_priority; jobs = put_job queued q.jobs }, queued)

-- `enqueue` and `enqueue_default_audio` up to the call of the history recorder. `id` is what `uuid4`
-- returned.
unfoldable pub enqueue : ℕ → Str → DownmixSettings → JobQueue → JobQueue × Job
unfolding enqueue_job new_job
enqueue id file_path settings q = enqueue_job (new_job id file_path settings downmix none) q

unfoldable pub enqueue_default_audio : ℕ → Str → DefaultAudioPreference → JobQueue → JobQueue × Job
unfolding enqueue_job new_job
enqueue_default_audio id file_path preference q =
    enqueue_job
      (new_job id file_path (record default_settings { enabled_targets = [] }) set_default_audio
        (some preference))
      q

unfoldable pub start : JobQueue → JobQueue
start q =
    if q.started || q.is_shutdown
    then q
    else record q { workers = q.max_concurrency; started = true }

unfoldable pub cancel : ℕ → JobQueue → JobQueue × Bool
unfolding is_pending find_job delete_job
cancel i q = elim (find_job i q.jobs) [
  | none ↦ (q, false)
  | some job ↦
      if not (is_pending job) then (q, false) else (record q { jobs = delete_job i q.jobs }, true)
]

-- The job object after `handle.cancel()`.
unfoldable pub signal_job : Job → Job
unfolding cancel_handle
signal_job job = elim job.cancellation [
  | none ↦ job
  | some handle ↦ record job { cancellation = some (cancel_handle handle).0 }
]

-- The processes that `handle.cancel()` terminates.
unfoldable pub signalled_processes : Job → List ℕ
unfolding cancel_handle
signalled_processes job = elim job.cancellation [
  | none ↦ []
  | some handle ↦ (cancel_handle handle).1
]

unfoldable pub cancel_running : ℕ → JobQueue → JobQueue × List ℕ × Bool
unfolding is_running find_job put_job signal_job signalled_processes
cancel_running i q = elim (find_job i q.jobs) [
  | none ↦ (q, [], false)
  | some job ↦
      if not (is_running job)
      then (q, [], false)
      else (record q { jobs = put_job (signal_job job) q.jobs }, signalled_processes job, true)
]
