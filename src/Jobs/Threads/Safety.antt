-- ===== src/Jobs/Threads/Safety.antt =====
-- No two threads run one job, and the count of active jobs is the number of threads that run one.
use mathlib.Core.Bool.{true≢false}
use mathlib.Core.Path.{subst₂}
use collapsarr.Common.{
  ℕ, ◌≡◌, ◌↔◌, ltb, refl, sym, ap, ◌∙◌, subst, inl, inr, Bool, true, false, some, List, [], ◌∷◌,
  length, In, All, Bool-cases, arith,
}
use collapsarr.Common.Int.{pos, pos_part, neg_part, ℤ, ◌<ℤ◌, ltb_ℤ, ltb_ℤ→lt}
use collapsarr.Common.Result.{Result, ok}
use collapsarr.Downmix.Pipeline.{PipelineResult}
use collapsarr.Jobs.Job.{Job, is_pending}
use collapsarr.Jobs.Queue.{JobQueue, find_job, put_job, new_queue, start}
use collapsarr.Jobs.Queue.Lookup.{find_job-In, find_job_of-In}
use collapsarr.Jobs.Pool.{
  claimed_job, Claim, claims, claim_next, seed_next_priority, any_job, has_active_work, put_jobs,
  rehydrate, shutdown, release,
}
use collapsarr.Jobs.Pool.Claims.{NonePending, Pass, claim_next-Pass, claimed-id}
use collapsarr.Jobs.Run.{settled}
use collapsarr.Jobs.Threads.{
  System, leave, Rehydratable, Step, enqueues, starts, cancels, signals, bumps, forces, takes,
  settles, ends, seeds, rehydrates, shuts_down, Reach, here, next,
}
use collapsarr.Jobs.Threads.Entries.{Held, GoodEntries, GoodEntries-mono}
use collapsarr.Jobs.Threads.Invariant.{
  IsSafe, not_running_of_pending, same_queue-IsSafe, write-IsSafe, claim-IsSafe,
}
use collapsarr.Jobs.Threads.Preserved.{
  In-leave, leave-Apart, length-leave, enqueues-IsSafe, cancels-IsSafe, signals-IsSafe,
  bumps-IsSafe, forces-IsSafe, settled-keeps,
}

abbrev id_of : Job → ℕ
id_of job = job.id

claims_injective : (a b : Job) → claims a ≡ claims b → a ≡ b
claims_injective a b e = cc

takes-IsSafe :
    {s : System} (paused : Bool) (now : ℕ) (job : Job)
    → (claim_next paused now s.queue).1 ≡ claims job
    → IsSafe s
    → IsSafe (record { queue = (claim_next paused now s.queue).0; threads = job.id ∷ s.threads })
takes-IsSafe {s} paused now job e safe =
    go (claim_next paused now s.queue) (claim_next-Pass paused now s.queue) e
  where
    go :
        (r : JobQueue × Claim)
        → Pass paused now s.queue r
        → r.1 ≡ claims job
        → IsSafe (record { queue = r.0; threads = job.id ∷ s.threads })
    go r (Pass.stopped down) e = cc
    go r (Pass.blocked up why) e = cc
    go r (Pass.takes first up free m p low) e =
        let same : first.id ≡ job.id =
          sym (claimed-id now first) ∙ ap id_of (claims_injective (claimed_job now first) job e) in
        claim-IsSafe {s = s} now job.id first s.queue.force_start_threads safe
          (subst (λ k. find_job k s.queue.jobs ≡ some first) same
            (find_job_of-In first s.queue.jobs safe.entries.once m))
          p

settles-IsSafe :
    {s : System} (now i : ℕ) (answer : Result PipelineResult) (job : Job)
    → find_job i s.queue.jobs ≡ some job
    → IsSafe s
    → IsSafe (record s {
      queue = record (s.queue) { jobs = put_job (settled now answer job) s.queue.jobs };
    })
settles-IsSafe {s} now i answer job found safe =
    let (id, idle, done, priority) = settled-keeps now answer job in
    let m = find_job-In i s.queue.jobs job found in
    write-IsSafe {s = s} (settled now answer job) safe
      (omega (arith, safe.entries.below job m, ap pos_part priority, ap neg_part priority))
      (λ r. absurd (true≢false (sym r ∙ done))) (λ _. idle)

ends-IsSafe :
    {s : System} (i : ℕ)
    → In i s.threads
    → IsSafe s
    → IsSafe (record { queue = release s.queue; threads = leave i s.threads })
unfolding release
ends-IsSafe {s} i m safe = record {
  entries = safe.entries;
  counted = omega (arith, safe.counted, length-leave i s.threads m);
  held = λ k n. safe.held k (In-leave i k s.threads n);
  alone = leave-Apart i s.threads safe.alone;
}

seeds-IsSafe :
    {s : System} (n : ℤ) → IsSafe s → IsSafe (record s { queue = seed_next_priority n s.queue })
unfolding seed_next_priority
seeds-IsSafe {s} n safe = elim (Bool-cases (ltb_ℤ s.queue.next_priority n)) [
  | inr not_more ↦ same_queue-IsSafe s s.queue (seed_next_priority n s.queue) (ground arith) safe
  | inl more ↦
      same_queue-IsSafe s (record (s.queue) { next_priority = n }) (seed_next_priority n s.queue)
        (ground arith)
        (record {
          entries =
              GoodEntries-mono s.queue.next_priority n s.queue.jobs
                (omega (arith, ltb_ℤ→lt s.queue.next_priority n more)) safe.entries;
          counted = safe.counted;
          held = safe.held;
          alone = safe.alone;
        })
]

-- A rehydrated job belongs to no thread.
abbrev Unheld : System → Job → Type 0
Unheld s job =
    (is_pending job ≡ true) × (¬ In job.id s.threads) × (job.priority <ℤ s.queue.next_priority)

put_jobs-IsSafe :
    (s : System) (new : List Job)
    → All (Unheld s) new
    → IsSafe s
    → IsSafe (record s { queue = record (s.queue) { jobs = put_jobs new s.queue.jobs } })
unfolding put_jobs
put_jobs-IsSafe s [] h safe = safe
put_jobs-IsSafe s (job ∷ new) ((p, away, low), rest) safe =
    put_jobs-IsSafe (record s { queue = record (s.queue) { jobs = put_job job s.queue.jobs } }) new
      rest (write-IsSafe {s = s} job safe low (not_running_of_pending job p) (λ m. absurd (away m)))

All-Unheld :
    (s : System) (new : List Job) → IsSafe s → All (Rehydratable s.queue) new → All (Unheld s) new
All-Unheld s [] safe h = tt
All-Unheld s (job ∷ new) safe ((p, fresh, low), rest) =
    ((p, λ m. let (old, found, _) = safe.held job.id m in cc, low), All-Unheld s new safe rest)

-- The invariant reads only the dict, the counter of priorities and the count of active jobs.
same_parts-IsSafe :
    (s : System) (q : JobQueue)
    → s.queue.jobs ≡ q.jobs
    → s.queue.next_priority ≡ q.next_priority
    → s.queue.active ≡ q.active
    → IsSafe s
    → IsSafe (record s { queue = q })
same_parts-IsSafe s q jobs counter active safe = record {
  entries = subst₂ GoodEntries counter jobs safe.entries;
  counted = omega (arith, safe.counted, active);
  held = λ i m. subst (λ l. Held l i) jobs (safe.held i m);
  alone = safe.alone;
}

-- Every step keeps the invariant.
pub Step-IsSafe : {s t : System} → Step s t → IsSafe s → IsSafe t
unfolding start rehydrate shutdown
Step-IsSafe (enqueues job p fresh) safe = enqueues-IsSafe job p fresh safe
Step-IsSafe {s} starts safe =
    same_parts-IsSafe s (start s.queue) (ground arith) (ground arith) (ground arith) safe
Step-IsSafe (cancels i) safe = cancels-IsSafe i safe
Step-IsSafe (signals i) safe = signals-IsSafe i safe
Step-IsSafe (bumps i) safe = bumps-IsSafe i safe
Step-IsSafe (forces now i e) safe = forces-IsSafe now i e safe
Step-IsSafe (takes paused now job e) safe = takes-IsSafe paused now job e safe
Step-IsSafe (settles now i answer job m found r) safe = settles-IsSafe now i answer job found safe
Step-IsSafe (ends i m) safe = ends-IsSafe i m safe
Step-IsSafe (seeds n) safe = seeds-IsSafe n safe
Step-IsSafe {s} (rehydrates new h) safe = put_jobs-IsSafe s new (All-Unheld s new safe h) safe
Step-IsSafe {s} shuts_down safe =
    same_parts-IsSafe s (shutdown s.queue).0 (ground arith) (ground arith) (ground arith) safe

pub new_queue-IsSafe :
    (n : ℕ) (q : JobQueue) → new_queue n ≡ ok q → IsSafe (record { queue = q; threads = [] })
unfolding new_queue
new_queue-IsSafe n q e = elim (Bool-cases (ltb n 1)) [
  | inl low ↦ ground arith
  | inr enough ↦
      let made : record {
        max_concurrency = n;
        jobs = [];
        next_priority = pos 0;
        workers = 0;
        started = false;
        force_start_threads = [];
        is_shutdown = false;
        active = 0;
      }
          ≡ q =
        ground arith in
      subst (λ (r : JobQueue). IsSafe (record { queue = r; threads = [] })) made
        (record {
          entries = record { once = tt; below = λ x m. absurd m; handles = λ x m. absurd m };
          counted = refl;
          held = λ i m. absurd m;
          alone = tt;
        })
]

-- In every state that the threads can reach from a new queue: ids are unique in the dict, every
-- priority stands below the counter, a running job has its kill handle, the count of active jobs is
-- the number of threads that run one, no two of them run the same job, and the job of each is in the
-- dict and no longer pending.
pub Reach-IsSafe :
    (n : ℕ) (q : JobQueue) (t : System)
    → new_queue n ≡ ok q
    → Reach (record { queue = q; threads = [] }) t
    → IsSafe t
Reach-IsSafe n q t e here = new_queue-IsSafe n q e
Reach-IsSafe n q t e (next {t = u} r step) = Step-IsSafe step (Reach-IsSafe n q u e r)

any_job_iff :
    (test : Job → Bool) (jobs : List Job)
    → (any_job test jobs ≡ false) ↔ ((job : Job) → In job jobs → test job ≡ false)
unfolding any_job
any_job_iff test [] = (λ _ job m. absurd m, λ _. refl)
any_job_iff test (job ∷ jobs) = (
  λ e x m. elim m [
    | inl same ↦ ground arith
    | inr old ↦ (any_job_iff test jobs).0 (ground arith) x old
  ],
  λ h. ground (arith, h job (inl refl), (any_job_iff test jobs).1 (λ x m. h x (inr m))),
)

-- `wait_idle` stops waiting exactly when no thread runs a job, its after-effects included, and no
-- job is pending.
pub has_active_work_iff :
    (n : ℕ) (q : JobQueue) (t : System)
    → new_queue n ≡ ok q
    → Reach (record { queue = q; threads = [] }) t
    → (has_active_work t.queue ≡ false) ↔ ((t.threads ≡ []) × NonePending t.queue.jobs)
unfolding has_active_work
has_active_work_iff n q t e r =
    let counted = (Reach-IsSafe n q t e r).counted in
    let none_pending = any_job_iff is_pending t.queue.jobs in
    (
      λ idle. (length-zero t.threads (ground (arith, counted)), none_pending.0 (ground arith)),
      λ (empty, h). ground (arith, none_pending.1 h, counted, ap length empty),
    )
  where
    length-zero : (xs : List ℕ) → length xs ≡ 0 → xs ≡ []
    length-zero [] z = refl
    length-zero (x ∷ xs) z = absurd (omega arith)
