-- ===== src/Jobs/Threads/Invariant.antt =====
-- The invariant of the threads that share a queue, and the two ways in which an entry is written.
use mathlib.Core.Bool.{true≢false}
use collapsarr.Common.{
  ℕ, ◌+◌, ◌≡◌, refl, sym, ap, ◌∙◌, subst, inl, inr, true, false, some, List, [], ◌∷◌, length, In,
  arith,
}
use collapsarr.Common.Int.{◌<ℤ◌}
use collapsarr.Jobs.Job.{Job, is_pending, is_running}
use collapsarr.Jobs.Queue.{JobQueue, find_job, put_job}
use collapsarr.Jobs.Queue.Lookup.{find_job-id, find_job-In}
use collapsarr.Jobs.Pool.{claimed_job}
use collapsarr.Jobs.Threads.{System}
use collapsarr.Jobs.Threads.Entries.{
  Held, HasHandle, GoodEntries, put_job-GoodEntries, put_job-Held, put_job-Held_self,
}

-- No id occurs twice.
abbrev pub Apart : List ℕ → Type 0
Apart [] = Unit
Apart (i ∷ is) = ¬ In i is × Apart is

pub record IsSafe (s : System) : Type 0 where
  pub entries : GoodEntries s.queue.next_priority s.queue.jobs
  pub counted : s.queue.active ≡ length s.threads
  pub held : (i : ℕ) → In i s.threads → Held s.queue.jobs i
  pub alone : Apart s.threads

pub not_running_of_pending : (job : Job) → is_pending job ≡ true → HasHandle job
unfolding is_pending is_running
not_running_of_pending job p r = ground arith

-- What is safe of a queue is safe of an equal one.
pub same_queue-IsSafe :
    (s : System) (a b : JobQueue)
    → a ≡ b
    → IsSafe (record s { queue = a })
    → IsSafe (record s { queue = b })
same_queue-IsSafe s a b e safe = subst (λ q. IsSafe (record s { queue = q })) e safe

-- One entry is written, and no thread comes or goes.
pub write-IsSafe :
    {s : System} (job : Job)
    → IsSafe s
    → job.priority <ℤ s.queue.next_priority
    → HasHandle job
    → (In job.id s.threads → is_pending job ≡ false)
    → IsSafe (record s { queue = record (s.queue) { jobs = put_job job s.queue.jobs } })
write-IsSafe {s} job safe p h q = record {
  entries = put_job-GoodEntries s.queue.next_priority job s.queue.jobs safe.entries p h;
  counted = safe.counted;
  held = λ i m.
      put_job-Held job s.queue.jobs i (safe.held i m)
        (λ e. q (subst (λ k. In k s.threads) (sym e) m));
  alone = safe.alone;
}

-- A pending entry belongs to no thread.
pub pending-not_held :
    {s : System} (i : ℕ) (job : Job)
    → IsSafe s
    → find_job i s.queue.jobs ≡ some job
    → is_pending job ≡ true
    → ¬ In i s.threads
pending-not_held i job safe found p m =
    let (old, found', q) = safe.held i m in
    let same : job ≡ old = cc in true≢false (sym p ∙ ap is_pending same ∙ q)

-- A thread claims a pending entry.
pub claim-IsSafe :
    {s : System} (now i : ℕ) (job : Job) (forced : List ℕ)
    → IsSafe s
    → find_job i s.queue.jobs ≡ some job
    → is_pending job ≡ true
    → IsSafe (record {
      queue = record (s.queue) {
        jobs = put_job (claimed_job now job) s.queue.jobs;
        active = s.queue.active + 1;
        force_start_threads = forced;
      };
      threads = i ∷ s.threads;
    })
unfolding claimed_job is_pending
claim-IsSafe {s} now i job forced safe found p = record {
  entries =
      put_job-GoodEntries s.queue.next_priority (claimed_job now job) s.queue.jobs safe.entries
        (safe.entries.below job (find_job-In i s.queue.jobs job found)) (λ _ e. cc);
  counted = omega (arith, safe.counted);
  held = λ k m. elim m [
    | inl e ↦
        subst (Held (put_job (claimed_job now job) s.queue.jobs))
          (find_job-id i s.queue.jobs job found ∙ e)
          (put_job-Held_self (claimed_job now job) s.queue.jobs refl)
    | inr old ↦ put_job-Held (claimed_job now job) s.queue.jobs k (safe.held k old) (λ _. refl)
  ];
  alone = (pending-not_held i job safe found p, safe.alone);
}
