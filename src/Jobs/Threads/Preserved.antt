-- ===== src/Jobs/Threads/Preserved.antt =====
-- Each operation on the dict keeps the invariant.
use collapsarr.Common.{
  ℕ, suc, ◌+◌, ◌≡◌, refl, sym, ap, subst, inl, inr, ◌≢◌, true, false, none, some, List, [], ◌∷◌,
  ◌++◌, ◌==◌, ==_iff, length, In, Bool-cases, Option-cases, arith,
}
use collapsarr.Common.Int.{pos_part, neg_part, suc_ℤ, suc_ℤ_parts}
use collapsarr.Common.Result.{Result, ok, raise}
use collapsarr.Downmix.Pipeline.{PipelineResult}
use collapsarr.Jobs.Job.{Job, is_pending, is_running}
use collapsarr.Jobs.Queue.{
  JobQueue, find_job, put_job, delete_job, enqueue_job, cancel, signal_job, cancel_running,
}
use collapsarr.Jobs.Queue.Lookup.{find_job-id, find_job-In}
use collapsarr.Jobs.Pool.{bump_to_front, bumped_priority, claimed_job, force_start}
use collapsarr.Jobs.Pool.Claims.{is_pending-priority}
use collapsarr.Jobs.Pool.Steer.{bumped_priority-below}
use collapsarr.Jobs.Run.{settled}
use collapsarr.Jobs.Threads.{System, leave}
use collapsarr.Jobs.Threads.Entries.{delete_job-GoodEntries, GoodEntries-mono, delete_job-Held}
use collapsarr.Jobs.Threads.Invariant.{
  Apart, IsSafe, not_running_of_pending, same_queue-IsSafe, write-IsSafe, pending-not_held,
  claim-IsSafe,
}

pub In-leave : (i j : ℕ) (js : List ℕ) → In j (leave i js) → In j js
unfolding leave
In-leave i j [] m = m
In-leave i j (k ∷ js) m = ground (arith, In-leave i j js)

pub leave-Apart : (i : ℕ) (js : List ℕ) → Apart js → Apart (leave i js)
unfolding leave
leave-Apart i [] h = tt
leave-Apart i (k ∷ js) h = elim (Bool-cases (k == i)) [
  | inl same ↦ rw same h.1
  | inr other ↦ rw other (λ m. h.0 (In-leave i k js m), leave-Apart i js h.1)
]

pub length-leave : (i : ℕ) (js : List ℕ) → In i js → length js ≡ suc (length (leave i js))
unfolding leave
length-leave i [] m = absurd m
length-leave i (k ∷ js) m = ground (arith, length-leave i js, ==_iff k i)

pub enqueues-IsSafe :
    {s : System} (job : Job)
    → is_pending job ≡ true
    → find_job job.id s.queue.jobs ≡ none
    → IsSafe s
    → IsSafe (record s { queue = (enqueue_job job s.queue).0 })
unfolding enqueue_job is_pending
enqueues-IsSafe {s} job p fresh safe =
    let queued : Job = record job { priority = s.queue.next_priority } in
    let raised : System = record s {
      queue = record (s.queue) { next_priority = suc_ℤ s.queue.next_priority };
    } in
    let more : IsSafe raised = record {
      entries =
          GoodEntries-mono s.queue.next_priority (suc_ℤ s.queue.next_priority) s.queue.jobs
            (omega (arith, suc_ℤ_parts s.queue.next_priority)) safe.entries;
      counted = safe.counted;
      held = safe.held;
      alone = safe.alone;
    } in
    write-IsSafe {s = raised} queued more (omega (arith, suc_ℤ_parts s.queue.next_priority))
      (not_running_of_pending queued p) (λ m. absurd (fresh_not_held safe fresh m))
  where
    fresh_not_held : IsSafe s → find_job job.id s.queue.jobs ≡ none → ¬ In job.id s.threads
    fresh_not_held safe fresh m = let (old, found, _) = safe.held job.id m in cc

pub cancels-IsSafe :
    {s : System} (i : ℕ) → IsSafe s → IsSafe (record s { queue = (cancel i s.queue).0 })
unfolding cancel
cancels-IsSafe {s} i safe = elim (Option-cases (find_job i s.queue.jobs)) [
  | inl absent ↦ same_queue-IsSafe s s.queue (cancel i s.queue).0 (ground arith) safe
  | inr (job, found) ↦ elim (Bool-cases (is_pending job)) [
    | inr claimed ↦ same_queue-IsSafe s s.queue (cancel i s.queue).0 (ground arith) safe
    | inl p ↦
        same_queue-IsSafe s (record (s.queue) { jobs = delete_job i s.queue.jobs })
          (cancel i s.queue).0 (ground arith) (deleted job found p)
  ]
]
  where
    deleted :
        (job : Job)
        → find_job i s.queue.jobs ≡ some job
        → is_pending job ≡ true
        → IsSafe (record s { queue = record (s.queue) { jobs = delete_job i s.queue.jobs } })
    deleted job found p = record {
      entries = delete_job-GoodEntries s.queue.next_priority i s.queue.jobs safe.entries;
      counted = safe.counted;
      held = λ k m. delete_job-Held i s.queue.jobs k (safe.held k m) (λ e.
          pending-not_held {s = s} i job safe found p (subst (λ n. In n s.threads) (sym e) m));
      alone = safe.alone;
    }

not_pending_of_running : (job : Job) → is_running job ≡ true → is_pending job ≡ false
unfolding is_pending is_running
not_pending_of_running job r = ground arith

same_status : (a b : Job) → b.status ≡ a.status → is_running a ≡ true → is_running b ≡ true
unfolding is_running
same_status a b e r = ground arith

signal_job-keeps :
    (job : Job)
    → ((signal_job job).id ≡ job.id)
      × ((signal_job job).status ≡ job.status)
      × ((signal_job job).priority ≡ job.priority)
      × (job.cancellation ≢ none → (signal_job job).cancellation ≢ none)
unfolding signal_job
signal_job-keeps job = elim (Option-cases job.cancellation) [
  | inl absent ↦ (ground arith, ground arith, ground arith, ground arith)
  | inr (handle, present) ↦ (ground arith, ground arith, ground arith, ground arith)
]

pub settled-keeps :
    (now : ℕ) (answer : Result PipelineResult) (job : Job)
    → ((settled now answer job).id ≡ job.id)
      × (is_pending (settled now answer job) ≡ false)
      × (is_running (settled now answer job) ≡ false)
      × ((settled now answer job).priority ≡ job.priority)
unfolding settled is_pending is_running
settled-keeps now (raise e) job = (refl, refl, refl, refl)
settled-keeps now (ok r) job = (refl, ground arith, ground arith, refl)

pub signals-IsSafe :
    {s : System} (i : ℕ) → IsSafe s → IsSafe (record s { queue = (cancel_running i s.queue).0 })
unfolding cancel_running
signals-IsSafe {s} i safe = elim (Option-cases (find_job i s.queue.jobs)) [
  | inl absent ↦ same_queue-IsSafe s s.queue (cancel_running i s.queue).0 (ground arith) safe
  | inr (job, found) ↦ elim (Bool-cases (is_running job)) [
    | inr idle ↦ same_queue-IsSafe s s.queue (cancel_running i s.queue).0 (ground arith) safe
    | inl r ↦
        same_queue-IsSafe s (record (s.queue) { jobs = put_job (signal_job job) s.queue.jobs })
          (cancel_running i s.queue).0 (ground arith) (signalled job found r)
  ]
]
  where
    signalled :
        (job : Job)
        → find_job i s.queue.jobs ≡ some job
        → is_running job ≡ true
        → IsSafe
            (record s { queue = record (s.queue) { jobs = put_job (signal_job job) s.queue.jobs } })
    signalled job found r =
        let (id, status, priority, handle) = signal_job-keeps job in
        let m = find_job-In i s.queue.jobs job found in
        write-IsSafe {s = s} (signal_job job) safe
          (omega (arith, safe.entries.below job m, ap pos_part priority, ap neg_part priority))
          (λ _. handle (safe.entries.handles job m r))
          (λ _. not_pending_of_running (signal_job job) (same_status job (signal_job job) status r))

pub bumps-IsSafe :
    {s : System} (i : ℕ) → IsSafe s → IsSafe (record s { queue = (bump_to_front i s.queue).0 })
unfolding bump_to_front
bumps-IsSafe {s} i safe = elim (Option-cases (find_job i s.queue.jobs)) [
  | inl absent ↦ same_queue-IsSafe s s.queue (bump_to_front i s.queue).0 (ground arith) safe
  | inr (job, found) ↦ elim (Bool-cases (is_pending job)) [
    | inr claimed ↦ same_queue-IsSafe s s.queue (bump_to_front i s.queue).0 (ground arith) safe
    | inl p ↦
        same_queue-IsSafe s
          (record (s.queue) {
            jobs =
                put_job (record job { priority = bumped_priority job s.queue.jobs }) s.queue.jobs;
          })
          (bump_to_front i s.queue).0 (ground arith) (bumped job found p)
  ]
]
  where
    bumped :
        (job : Job)
        → find_job i s.queue.jobs ≡ some job
        → is_pending job ≡ true
        → IsSafe (record s {
          queue = record (s.queue) {
            jobs =
                put_job (record job { priority = bumped_priority job s.queue.jobs }) s.queue.jobs;
          };
        })
    bumped job found p =
        let front : Job = record job { priority = bumped_priority job s.queue.jobs } in
        let m = find_job-In i s.queue.jobs job found in
        let q = is_pending-priority job (bumped_priority job s.queue.jobs) p in
        write-IsSafe {s = s} front safe
          (omega
            (arith, bumped_priority-below job job s.queue.jobs m p m p, safe.entries.below job m))
          (not_running_of_pending front q)
          (λ n. absurd (
            pending-not_held {s = s} i job safe found p
              (subst (λ k. In k s.threads) (find_job-id i s.queue.jobs job found) n)))

force_start-queue :
    (q : JobQueue) (now i : ℕ) (job : Job)
    → q.is_shutdown ≡ false
    → find_job i q.jobs ≡ some job
    → is_pending job ≡ true
    → record q {
      jobs = put_job (claimed_job now job) q.jobs;
      active = q.active + 1;
      force_start_threads = q.force_start_threads ++ i ∷ [];
    }
      ≡ (force_start now i q).0
unfolding force_start
force_start-queue q now i job up found p = ground arith

pub forces-IsSafe :
    {s : System} (now i : ℕ)
    → (force_start now i s.queue).1 ≡ true
    → IsSafe s
    → IsSafe (record { queue = (force_start now i s.queue).0; threads = i ∷ s.threads })
unfolding force_start
forces-IsSafe {s} now i e safe = elim (Bool-cases s.queue.is_shutdown) [
  | inl down ↦ ground arith
  | inr up ↦ elim (Option-cases (find_job i s.queue.jobs)) [
    | inl absent ↦ ground arith
    | inr (job, found) ↦ elim (Bool-cases (is_pending job)) [
      | inr claimed ↦ ground arith
      | inl p ↦
          subst (λ q. IsSafe (record { queue = q; threads = i ∷ s.threads }))
            (force_start-queue s.queue now i job up found p)
            (claim-IsSafe {s = s} now i job (s.queue.force_start_threads ++ i ∷ []) safe found p)
    ]
  ]
]
