-- ===== src/Jobs/Scheduler/Guard.antt =====
-- collapsarr/jobs/scheduler.py: de-duplication under `_enqueue_lock`, among all the threads that use the
-- queue. A step is the test of a path by the thread that took the lock, its enqueue, its release, or
-- a block of the queue by any other thread. `rehydrate` is no such block: the application calls it once,
-- before the threads that enqueue exist, so that its queue is where the steps start.
pub mod Fewer
pub mod Once
use collapsarr.Common.{◌≡◌, Bool, true, false, Option, none, some, Str}
use collapsarr.Jobs.Job.{Job, is_pending}
use collapsarr.Jobs.Queue.{find_job, enqueue_job}
use collapsarr.Jobs.Threads.{System, Step, enqueues, rehydrates}
use collapsarr.Jobs.Scheduler.Active.{is_active}

-- `holder` is the path that the holder of the lock found to be inactive.
pub record Guarded : Type 0 where
  pub system : System
  pub holder : Option Str

-- The two blocks that bring new jobs.
unfoldable pub adds_jobs : {s t : System} → Step s t → Bool
adds_jobs (enqueues job p fresh) = true
adds_jobs (rehydrates new h) = true
adds_jobs _ = false

pub data GuardStep (g : Guarded) : Guarded → Type 0 where
  -- `with self._enqueue_lock`, and `_is_active` in `_is_duplicate`; where it finds a job, the lock is
  -- released and nothing has changed.
  checks :
      (path : Str)
      → g.holder ≡ none
      → is_active path g.system.queue.jobs ≡ false
      → GuardStep g (record g { holder = some path })
  -- Recently processed.
  declines : GuardStep g (record g { holder = none })
  -- `self._queue.enqueue(path, ...)` or `enqueue_default_audio(path, ...)`
  adds :
      (job : Job)
      → g.holder ≡ some job.file_path
      → is_pending job ≡ true
      → find_job job.id g.system.queue.jobs ≡ none
      → GuardStep g (record {
        system = record (g.system) { queue = (enqueue_job job g.system.queue).0 };
        holder = none;
      })
  -- A worker, a cancellation, a bump, a forced start or a seed of the priorities, whether the lock is
  -- held or not; not a rehydration.
  acts :
      {t : System} (step : Step g.system t)
      → adds_jobs step ≡ false
      → GuardStep g (record g { system = t })

pub data GuardReach (g : Guarded) : Guarded → Type 0 where
  here : GuardReach g g
  next : {h k : Guarded} → GuardReach g h → GuardStep h k → GuardReach g k
