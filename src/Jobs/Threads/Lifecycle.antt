-- ===== src/Jobs/Threads/Lifecycle.antt =====
-- A job only moves forward: pending, running, then succeeded or failed.
use collapsarr.Common.{
  ℕ, ◌≡◌, refl, sym, ◌∙◌, subst, inl, inr, Bool, true, false, some, List, [], ◌∷◌, ◌==◌, ==_iff,
  All, Bool-cases, Option-cases, arith,
}
use collapsarr.Common.Result.{Result, ok, raise}
use collapsarr.Downmix.Pipeline.{PipelineResult}
use collapsarr.Jobs.Job.{
  JobStatus, pending, running, succeeded, failed, Job, is_pending, is_running,
}
use collapsarr.Jobs.Queue.{
  JobQueue, find_job, put_job, enqueue_job, start, cancel, signal_job, cancel_running,
}
use collapsarr.Jobs.Queue.Lookup.{
  find_job-id, find_job-put_job, find_job-delete_job, find_job_of-In,
}
use collapsarr.Jobs.Pool.{
  bump_to_front, bumped_priority, claimed_job, force_start, Claim, claim_next, seed_next_priority,
  put_jobs, rehydrate, shutdown, release,
}
use collapsarr.Jobs.Pool.Claims.{Pass, claim_next-Pass}
use collapsarr.Jobs.Run.{settled}
use collapsarr.Jobs.Threads.{
  System, Rehydratable, Step, enqueues, starts, cancels, signals, bumps, forces, takes, settles,
  ends, seeds, rehydrates, shuts_down,
}
use collapsarr.Jobs.Threads.Invariant.{IsSafe}

pub data Forward : JobStatus → JobStatus → Type 0 where
  stays : {x : JobStatus} → Forward x x
  begins : Forward pending running
  succeeds : Forward running succeeded
  fails : Forward running failed

-- Every job that stands in both dicts has moved forward or stayed.
abbrev pub Moves : List Job → List Job → Type 0
Moves old new =
    (i : ℕ) (a b : Job)
    → find_job i old ≡ some a
    → find_job i new ≡ some b
    → Forward a.status b.status

same-Moves : (old new : List Job) → new ≡ old → Moves old new
same-Moves old new e i a b p q =
    let same : a ≡ b = cc in subst (λ x. Forward a.status x.status) same stays

put_job-Moves :
    (job : Job) (old new : List Job)
    → Moves old new
    → ((a : Job) → find_job job.id old ≡ some a → Forward a.status job.status)
    → Moves old (put_job job new)
put_job-Moves job old new moves h i a b p q = elim (Bool-cases (job.id == i)) [
  | inl same ↦
      let at = (==_iff job.id i).0 same in
      let is : job ≡ b = ground (arith, find_job-put_job i job new) in
      subst (λ x. Forward a.status x.status) is (h a (rw at p))
  | inr other ↦ moves i a b p (ground (arith, find_job-put_job i job new))
]

begins_of_pending :
    (a b : Job) → is_pending a ≡ true → b.status ≡ running → Forward a.status b.status
unfolding is_pending
begins_of_pending a b p e = go a.status b.status (status_pending a p) e
  where
    status_pending : (j : Job) → is_pending j ≡ true → j.status ≡ pending
    status_pending j q = ground arith

    go : (x y : JobStatus) → x ≡ pending → y ≡ running → Forward x y
    go x y p e = rw (p, e) begins

-- The entry that is written comes from the entry with its id.
from_found :
    (i : ℕ) (job written : Job) (jobs : List Job)
    → find_job i jobs ≡ some job
    → written.id ≡ i
    → Forward job.status written.status
    → Moves jobs (put_job written jobs)
from_found i job written jobs found id forward =
    put_job-Moves written jobs jobs (same-Moves jobs jobs refl) (λ a p.
      subst (λ (x : Job). Forward x.status written.status) (some_injective (sym found ∙ rw id at p))
        forward)
  where
    some_injective : {x y : Job} → some x ≡ some y → x ≡ y
    some_injective e = cc

cancel-Moves : (i : ℕ) (q : JobQueue) → Moves q.jobs (cancel i q).0.jobs
unfolding cancel
cancel-Moves i q k a b p r = elim (Option-cases (find_job i q.jobs)) [
  | inl absent ↦ same-Moves q.jobs (cancel i q).0.jobs (ground arith) k a b p r
  | inr (job, found) ↦ elim (Bool-cases (is_pending job)) [
    | inr claimed ↦ same-Moves q.jobs (cancel i q).0.jobs (ground arith) k a b p r
    | inl free ↦
        same-Moves q.jobs q.jobs refl k a b p (ground (arith, find_job-delete_job k i q.jobs))
  ]
]

signal_job-status :
    (job : Job) → ((signal_job job).status ≡ job.status) × ((signal_job job).id ≡ job.id)
unfolding signal_job
signal_job-status job = (ground arith, ground arith)

cancel_running-Moves : (i : ℕ) (q : JobQueue) → Moves q.jobs (cancel_running i q).0.jobs
unfolding cancel_running
cancel_running-Moves i q = elim (Option-cases (find_job i q.jobs)) [
  | inl absent ↦ same-Moves q.jobs (cancel_running i q).0.jobs (ground arith)
  | inr (job, found) ↦ elim (Bool-cases (is_running job)) [
    | inr idle ↦ same-Moves q.jobs (cancel_running i q).0.jobs (ground arith)
    | inl busy ↦
        let (status, id) = signal_job-status job in
        subst (Moves q.jobs) (written job found busy) (
          from_found i job (signal_job job) q.jobs found (id ∙ find_job-id i q.jobs job found)
            (subst (Forward job.status) (sym status) stays))
  ]
]
  where
    written :
        (job : Job)
        → find_job i q.jobs ≡ some job
        → is_running job ≡ true
        → put_job (signal_job job) q.jobs ≡ (cancel_running i q).0.jobs
    written job found busy = ground arith

bump_to_front-Moves : (i : ℕ) (q : JobQueue) → Moves q.jobs (bump_to_front i q).0.jobs
unfolding bump_to_front
bump_to_front-Moves i q = elim (Option-cases (find_job i q.jobs)) [
  | inl absent ↦ same-Moves q.jobs (bump_to_front i q).0.jobs (ground arith)
  | inr (job, found) ↦ elim (Bool-cases (is_pending job)) [
    | inr claimed ↦ same-Moves q.jobs (bump_to_front i q).0.jobs (ground arith)
    | inl free ↦ subst (Moves q.jobs) (written job found free) (
        from_found i job (record job { priority = bumped_priority job q.jobs }) q.jobs found
          (find_job-id i q.jobs job found) stays)
  ]
]
  where
    written :
        (job : Job)
        → find_job i q.jobs ≡ some job
        → is_pending job ≡ true
        → put_job (record job { priority = bumped_priority job q.jobs }) q.jobs
          ≡ (bump_to_front i q).0.jobs
    written job found free = ground arith

claimed_job-Moves :
    (now i : ℕ) (job : Job) (jobs : List Job)
    → find_job i jobs ≡ some job
    → is_pending job ≡ true
    → Moves jobs (put_job (claimed_job now job) jobs)
unfolding claimed_job
claimed_job-Moves now i job jobs found p =
    from_found i job (claimed_job now job) jobs found (find_job-id i jobs job found)
      (begins_of_pending job (claimed_job now job) p refl)

force_start-Moves : (now i : ℕ) (q : JobQueue) → Moves q.jobs (force_start now i q).0.jobs
unfolding force_start
force_start-Moves now i q = elim (Bool-cases q.is_shutdown) [
  | inl down ↦ same-Moves q.jobs (force_start now i q).0.jobs (ground arith)
  | inr up ↦ elim (Option-cases (find_job i q.jobs)) [
    | inl absent ↦ same-Moves q.jobs (force_start now i q).0.jobs (ground arith)
    | inr (job, found) ↦ elim (Bool-cases (is_pending job)) [
      | inr claimed ↦ same-Moves q.jobs (force_start now i q).0.jobs (ground arith)
      | inl free ↦
          subst (Moves q.jobs) (written job up found free)
            (claimed_job-Moves now i job q.jobs found free)
    ]
  ]
]
  where
    written :
        (job : Job)
        → q.is_shutdown ≡ false
        → find_job i q.jobs ≡ some job
        → is_pending job ≡ true
        → put_job (claimed_job now job) q.jobs ≡ (force_start now i q).0.jobs
    written job up found free = ground arith

claim_next-Moves :
    (paused : Bool) (now : ℕ) (s : System)
    → IsSafe s
    → Moves s.queue.jobs (claim_next paused now s.queue).0.jobs
claim_next-Moves paused now s safe =
    go (claim_next paused now s.queue) (claim_next-Pass paused now s.queue)
  where
    go : (r : JobQueue × Claim) → Pass paused now s.queue r → Moves s.queue.jobs r.0.jobs
    go r (Pass.stopped down) = same-Moves s.queue.jobs s.queue.jobs refl
    go r (Pass.blocked up why) = same-Moves s.queue.jobs s.queue.jobs refl
    go r (Pass.takes job up free m p low) =
        claimed_job-Moves now job.id job s.queue.jobs
          (find_job_of-In job s.queue.jobs safe.entries.once m) p

settled-Forward :
    (now : ℕ) (answer : Result PipelineResult) (job : Job)
    → is_running job ≡ true
    → Forward job.status (settled now answer job).status
unfolding settled is_running
settled-Forward now answer job r =
    subst (λ x. Forward x (settled now answer job).status) (sym (status_running job r)) (go answer)
  where
    status_running : (j : Job) → is_running j ≡ true → j.status ≡ running
    status_running j q = ground arith

    go : (answer : Result PipelineResult) → Forward running (settled now answer job).status
    go (raise e) = fails
    go (ok r) = elim (Bool-cases r.success) [
      | inl good ↦ simp good succeeds
      | inr bad ↦ simp bad fails
    ]

settled-id :
    (now : ℕ) (answer : Result PipelineResult) (job : Job) → (settled now answer job).id ≡ job.id
unfolding settled
settled-id now (raise e) job = refl
settled-id now (ok r) job = refl

put_jobs-Moves :
    (q : JobQueue) (new jobs : List Job)
    → All (Rehydratable q) new
    → Moves q.jobs jobs
    → Moves q.jobs (put_jobs new jobs)
unfolding put_jobs
put_jobs-Moves q [] jobs h moves = moves
put_jobs-Moves q (job ∷ new) jobs ((p, fresh, low), rest) moves =
    put_jobs-Moves q new (put_job job jobs) rest
      (put_job-Moves job q.jobs jobs moves (λ a found. cc))

-- Whatever thread acts next, a job that stands in the dict before and after keeps its status, or
-- goes from pending to running, or from running to succeeded or failed. So no job that has been
-- claimed is pending again, and none that has ended runs again.
pub Step-Moves : {s t : System} → Step s t → IsSafe s → Moves s.queue.jobs t.queue.jobs
unfolding enqueue_job start seed_next_priority rehydrate shutdown release
Step-Moves {s} (enqueues job p fresh) safe =
    put_job-Moves (record job { priority = s.queue.next_priority }) s.queue.jobs s.queue.jobs
      (same-Moves s.queue.jobs s.queue.jobs refl) (λ a found. cc)
Step-Moves {s} starts safe = same-Moves s.queue.jobs (start s.queue).jobs (ground arith)
Step-Moves {s} (cancels i) safe = cancel-Moves i s.queue
Step-Moves {s} (signals i) safe = cancel_running-Moves i s.queue
Step-Moves {s} (bumps i) safe = bump_to_front-Moves i s.queue
Step-Moves {s} (forces now i e) safe = force_start-Moves now i s.queue
Step-Moves {s} (takes paused now job e) safe = claim_next-Moves paused now s safe
Step-Moves {s} (settles now i answer job m found r) safe =
    from_found i job (settled now answer job) s.queue.jobs found
      (settled-id now answer job ∙ find_job-id i s.queue.jobs job found)
      (settled-Forward now answer job r)
Step-Moves {s} (ends i m) safe = same-Moves s.queue.jobs s.queue.jobs refl
Step-Moves {s} (seeds n) safe =
    same-Moves s.queue.jobs (seed_next_priority n s.queue).jobs (ground arith)
Step-Moves {s} (rehydrates new h) safe =
    put_jobs-Moves s.queue new s.queue.jobs h (same-Moves s.queue.jobs s.queue.jobs refl)
Step-Moves {s} shuts_down safe = same-Moves s.queue.jobs (shutdown s.queue).0.jobs (ground arith)
