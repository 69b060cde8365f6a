-- ===== src/Jobs/Scheduler/Guard/Fewer.antt =====
-- No block of the queue but an enqueue gives a path more jobs that wait or run.
use mathlib.Core.Bool.{true≢false}
use collapsarr.Common.{
  ℕ, ◌+◌, ◌≤◌, ◌≡◌, refl, sym, ◌∙◌, subst, inl, inr, Bool, true, false, ◌||◌, some, List, Str,
  Bool-cases, Option-cases, arith,
}
use collapsarr.Common.Int.{ℤ}
use collapsarr.Common.Result.{Result, ok, raise}
use collapsarr.Downmix.Pipeline.{PipelineResult}
use collapsarr.Jobs.Job.{Job, is_pending, is_running}
use collapsarr.Jobs.Queue.{
  JobQueue, find_job, put_job, delete_job, start, cancel, signal_job, cancel_running,
}
use collapsarr.Jobs.Queue.Lookup.{find_job-id, find_job_of-In, HasKeysOnce}
use collapsarr.Jobs.Pool.{
  count_jobs, claimed_job, bump_to_front, bumped_priority, force_start, Claim, claim_next,
  seed_next_priority, shutdown, release,
}
use collapsarr.Jobs.Pool.Claims.{claim_next-Pass, Pass, claimed-id}
use collapsarr.Jobs.Run.{settled}
use collapsarr.Jobs.Threads.{
  System, Step, enqueues, starts, cancels, signals, bumps, forces, takes, settles, ends, seeds,
  rehydrates, shuts_down,
}
use collapsarr.Jobs.Scheduler.Active.{is_active_for, count_jobs-put_old, count_jobs-delete}
use collapsarr.Jobs.Scheduler.Guard.{adds_jobs}

abbrev pub active_count : Str → List Job → ℕ
active_count path jobs = count_jobs (is_active_for path) jobs

-- No path has more active jobs behind a write than before it.
abbrev pub Fewer : List Job → List Job → Type 0
Fewer new old = (path : Str) → active_count path new ≤ active_count path old

Fewer-put :
    (old job : Job) (jobs : List Job)
    → find_job job.id jobs ≡ some old
    → ((path : Str) → is_active_for path job ≡ true → is_active_for path old ≡ true)
    → Fewer (put_job job jobs) jobs
Fewer-put old job jobs found h path = elim (Bool-cases (is_active_for path job)) [
  | inr idle ↦ ground (arith, count_jobs-put_old (is_active_for path) old job jobs found)
  | inl busy ↦
      ground (arith, count_jobs-put_old (is_active_for path) old job jobs found, h path busy)
]

-- The same job under another priority or handle, or the claim of one that waits.
keeps_active :
    (path : Str) (old job : Job)
    → job.file_path ≡ old.file_path
    → (is_pending job || is_running job) ≡ (is_pending old || is_running old)
    → is_active_for path job ≡ true
    → is_active_for path old ≡ true
unfolding is_active_for
keeps_active path old job p s e = rw s at (rw p at e)

claimed_active :
    (now : ℕ) (path : Str) (job : Job)
    → is_pending job ≡ true
    → is_active_for path (claimed_job now job) ≡ true
    → is_active_for path job ≡ true
unfolding claimed_job is_active_for is_pending is_running
claimed_active now path job p e = ground arith

settled_idle :
    (now : ℕ) (answer : Result PipelineResult) (path : Str) (job : Job)
    → is_active_for path (settled now answer job) ≡ false
unfolding settled is_active_for is_pending is_running
settled_idle now (raise e) path job = ground arith
settled_idle now (ok r) path job = ground arith

signalled_active :
    (path : Str) (job : Job)
    → is_active_for path (signal_job job) ≡ true
    → is_active_for path job ≡ true
unfolding signal_job is_active_for is_pending is_running
signalled_active path job e = elim (Option-cases job.cancellation) [
  | inl absent ↦ ground arith
  | inr (handle, present) ↦ ground arith
]

signal_job-id : (job : Job) → (signal_job job).id ≡ job.id
unfolding signal_job
signal_job-id job = elim (Option-cases job.cancellation) [
  | inl absent ↦ ground arith
  | inr (handle, present) ↦ ground arith
]

settled-id :
    (now : ℕ) (answer : Result PipelineResult) (job : Job) → (settled now answer job).id ≡ job.id
unfolding settled
settled-id now (raise e) job = refl
settled-id now (ok r) job = refl

-- A found job is found by its own id as well.
found_by_id :
    (i : ℕ) (job new : Job) (jobs : List Job)
    → find_job i jobs ≡ some job
    → new.id ≡ job.id
    → find_job new.id jobs ≡ some job
found_by_id i job new jobs found e =
    subst (λ k. find_job k jobs ≡ some job) (sym (find_job-id i jobs job found) ∙ sym e) found

same_jobs : (new old : List Job) → new ≡ old → Fewer new old
same_jobs new old e path = rw e (omega arith)

cancel-Fewer : (i : ℕ) (q : JobQueue) → Fewer (cancel i q).0.jobs q.jobs
unfolding cancel
cancel-Fewer i q path = elim (Option-cases (find_job i q.jobs)) [
  | inl absent ↦ same_jobs (cancel i q).0.jobs q.jobs (ground arith) path
  | inr (job, found) ↦ elim (Bool-cases (is_pending job)) [
    | inr claimed ↦ same_jobs (cancel i q).0.jobs q.jobs (ground arith) path
    | inl p ↦
        subst (λ js. active_count path js ≤ active_count path q.jobs) (sym (deleted job found p))
          (count_jobs-delete (is_active_for path) i q.jobs)
  ]
]
  where
    deleted :
        (job : Job)
        → find_job i q.jobs ≡ some job
        → is_pending job ≡ true
        → (cancel i q).0.jobs ≡ delete_job i q.jobs
    deleted job found p = ground arith

-- A queue whose entry was exchanged for one that is active only where the old one was.
exchanged-Fewer :
    (i : ℕ) (old job : Job) (q new : JobQueue)
    → find_job i q.jobs ≡ some old
    → job.id ≡ old.id
    → ((path : Str) → is_active_for path job ≡ true → is_active_for path old ≡ true)
    → new.jobs ≡ put_job job q.jobs
    → Fewer new.jobs q.jobs
exchanged-Fewer i old job q new found id h e path =
    subst (λ js. active_count path js ≤ active_count path q.jobs) (sym e)
      (Fewer-put old job q.jobs (found_by_id i old job q.jobs found id) h path)

cancel_running-Fewer : (i : ℕ) (q : JobQueue) → Fewer (cancel_running i q).0.jobs q.jobs
unfolding cancel_running
cancel_running-Fewer i q = elim (Option-cases (find_job i q.jobs)) [
  | inl absent ↦ same_jobs (cancel_running i q).0.jobs q.jobs (ground arith)
  | inr (job, found) ↦ elim (Bool-cases (is_running job)) [
    | inr idle ↦ same_jobs (cancel_running i q).0.jobs q.jobs (ground arith)
    | inl r ↦
        exchanged-Fewer i job (signal_job job) q (cancel_running i q).0 found (signal_job-id job)
          (λ path. signalled_active path job) (ground arith)
  ]
]

bumped_active :
    (path : Str) (n : ℤ) (job : Job)
    → is_active_for path (record job { priority = n }) ≡ true
    → is_active_for path job ≡ true
unfolding is_active_for is_pending is_running
bumped_active path n job e = e

bump-Fewer : (i : ℕ) (q : JobQueue) → Fewer (bump_to_front i q).0.jobs q.jobs
unfolding bump_to_front
bump-Fewer i q = elim (Option-cases (find_job i q.jobs)) [
  | inl absent ↦ same_jobs (bump_to_front i q).0.jobs q.jobs (ground arith)
  | inr (job, found) ↦ elim (Bool-cases (is_pending job)) [
    | inr claimed ↦ same_jobs (bump_to_front i q).0.jobs q.jobs (ground arith)
    | inl p ↦
        exchanged-Fewer i job (record job { priority = bumped_priority job q.jobs }) q
          (bump_to_front i q).0 found refl
          (λ path. bumped_active path (bumped_priority job q.jobs) job) (ground arith)
  ]
]

force-Fewer : (now i : ℕ) (q : JobQueue) → Fewer (force_start now i q).0.jobs q.jobs
unfolding force_start
force-Fewer now i q = elim (Bool-cases q.is_shutdown) [
  | inl down ↦ same_jobs (force_start now i q).0.jobs q.jobs (ground arith)
  | inr up ↦ elim (Option-cases (find_job i q.jobs)) [
    | inl absent ↦ same_jobs (force_start now i q).0.jobs q.jobs (ground arith)
    | inr (job, found) ↦ elim (Bool-cases (is_pending job)) [
      | inr claimed ↦ same_jobs (force_start now i q).0.jobs q.jobs (ground arith)
      | inl p ↦
          exchanged-Fewer i job (claimed_job now job) q (force_start now i q).0 found
            (claimed-id now job) (λ path. claimed_active now path job p) (ground arith)
    ]
  ]
]

claim-Fewer :
    (paused : Bool) (now : ℕ) (q : JobQueue)
    → HasKeysOnce q.jobs
    → Fewer (claim_next paused now q).0.jobs q.jobs
claim-Fewer paused now q once = go (claim_next paused now q) (claim_next-Pass paused now q)
  where
    go : (r : JobQueue × Claim) → Pass paused now q r → Fewer r.0.jobs q.jobs
    go r (Pass.stopped down) = same_jobs q.jobs q.jobs refl
    go r (Pass.blocked up why) = same_jobs q.jobs q.jobs refl
    go r (Pass.takes job up free m p low) =
        exchanged-Fewer job.id job (claimed_job now job) q
          (record q { jobs = put_job (claimed_job now job) q.jobs; active = q.active + 1 })
          (find_job_of-In job q.jobs once m) (claimed-id now job)
          (λ path. claimed_active now path job p) refl

-- Every other block.
pub Step-Fewer :
    {s t : System} (step : Step s t)
    → adds_jobs step ≡ false
    → HasKeysOnce s.queue.jobs
    → Fewer t.queue.jobs s.queue.jobs
unfolding adds_jobs start seed_next_priority shutdown release
Step-Fewer (enqueues job p fresh) e once = absurd (true≢false e)
Step-Fewer {s} starts e once = same_jobs (start s.queue).jobs s.queue.jobs (ground arith)
Step-Fewer {s} (cancels i) e once = cancel-Fewer i s.queue
Step-Fewer {s} (signals i) e once = cancel_running-Fewer i s.queue
Step-Fewer {s} (bumps i) e once = bump-Fewer i s.queue
Step-Fewer {s} (forces now i h) e once = force-Fewer now i s.queue
Step-Fewer {s} (takes paused now job h) e once = claim-Fewer paused now s.queue once
Step-Fewer {s} (settles now i answer job m found r) e once =
    exchanged-Fewer i job (settled now answer job) s.queue
      (record (s.queue) { jobs = put_job (settled now answer job) s.queue.jobs }) found
      (settled-id now answer job)
      (λ path busy. absurd (true≢false (sym busy ∙ settled_idle now answer path job))) refl
Step-Fewer {s} (ends i m) e once = same_jobs (release s.queue).jobs s.queue.jobs refl
Step-Fewer {s} (seeds n) e once =
    same_jobs (seed_next_priority n s.queue).jobs s.queue.jobs (ground arith)
Step-Fewer (rehydrates new h) e once = absurd (true≢false e)
Step-Fewer {s} shuts_down e once = same_jobs (shutdown s.queue).0.jobs s.queue.jobs (ground arith)
