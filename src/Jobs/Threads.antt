-- ===== src/Jobs/Threads.antt =====
-- collapsarr/jobs/queue.py: the threads that share a queue. A step is one block under the lock, by
-- any thread; `threads` holds the job of each thread that is inside `_run_job`.
pub mod Entries
pub mod Invariant
pub mod Preserved
pub mod Safety
pub mod Lifecycle
use collapsarr.Common.{ℕ, ◌≡◌, Bool, true, none, some, List, [], ◌∷◌, ◌==◌, if◌then◌else◌, In, All}
use collapsarr.Common.Int.{ℤ, ◌<ℤ◌}
use collapsarr.Common.Result.{Result}
use collapsarr.Downmix.Pipeline.{PipelineResult}
use collapsarr.Jobs.Job.{Job, is_pending, is_running}
use collapsarr.Jobs.Queue.{JobQueue, find_job, put_job, enqueue_job, start, cancel, cancel_running}
use collapsarr.Jobs.Pool.{
  bump_to_front, force_start, claims, claim_next, seed_next_priority, rehydrate, shutdown, release,
}
use collapsarr.Jobs.Run.{settled}

pub record System : Type 0 where
  pub queue : JobQueue
  pub threads : List ℕ

-- A thread leaves `_run_job`.
unfoldable pub leave : ℕ → List ℕ → List ℕ
leave i [] = []
leave i (j ∷ js) = if j == i then js else j ∷ leave i js

-- What restart rehydration passes on: pending jobs with ids of their own, behind the seeded counter.
abbrev pub Rehydratable : JobQueue → Job → Type 0
Rehydratable q job =
    (is_pending job ≡ true) × (find_job job.id q.jobs ≡ none) × (job.priority <ℤ q.next_priority)

pub data Step (s : System) : System → Type 0 where
  enqueues :
      (job : Job)
      → is_pending job ≡ true
      → find_job job.id s.queue.jobs ≡ none
      → Step s (record s { queue = (enqueue_job job s.queue).0 })
  starts : Step s (record s { queue = start s.queue })
  cancels : (i : ℕ) → Step s (record s { queue = (cancel i s.queue).0 })
  signals : (i : ℕ) → Step s (record s { queue = (cancel_running i s.queue).0 })
  bumps : (i : ℕ) → Step s (record s { queue = (bump_to_front i s.queue).0 })
  forces :
      (now i : ℕ)
      → (force_start now i s.queue).1 ≡ true
      → Step s (record { queue = (force_start now i s.queue).0; threads = i ∷ s.threads })
  takes :
      (paused : Bool) (now : ℕ) (job : Job)
      → (claim_next paused now s.queue).1 ≡ claims job
      → Step s (record { queue = (claim_next paused now s.queue).0; threads = job.id ∷ s.threads })
  settles :
      (now i : ℕ) (answer : Result PipelineResult) (job : Job)
      → In i s.threads
      → find_job i s.queue.jobs ≡ some job
      → is_running job ≡ true
      → Step s (record s {
        queue = record (s.queue) { jobs = put_job (settled now answer job) s.queue.jobs };
      })
  -- Also where a recorder raised.
  ends :
      (i : ℕ)
      → In i s.threads
      → Step s (record { queue = release s.queue; threads = leave i s.threads })
  seeds : (n : ℤ) → Step s (record s { queue = seed_next_priority n s.queue })
  rehydrates :
      (new : List Job)
      → All (Rehydratable s.queue) new
      → Step s (record s { queue = rehydrate new s.queue })
  shuts_down : Step s (record s { queue = (shutdown s.queue).0 })

pub data Reach (s : System) : System → Type 0 where
  here : Reach s s
  next : {t u : System} → Reach s t → Step t u → Reach s u
