-- ===== src/Jobs/Threads/Entries.antt =====
-- The dict under each step: what a thread's job, the priorities and the handles look like after one
-- entry is written.
use collapsarr.Common.{
  ℕ, ◌≡◌, sym, subst, inl, inr, ◌≢◌, true, false, none, some, List, ◌==◌, ==_iff, In, Bool-cases,
  arith,
}
use collapsarr.Common.Int.{ℤ, ◌<ℤ◌, ◌≤ℤ◌}
use collapsarr.Jobs.Job.{Job, is_pending, is_running}
use collapsarr.Jobs.Queue.{find_job, put_job, delete_job}
use collapsarr.Jobs.Queue.Lookup.{
  find_job-put_job, find_job-delete_job, In-put_job, In-delete_job, HasKeysOnce,
  put_job-HasKeysOnce, delete_job-HasKeysOnce,
}

-- The job of a thread stands in the dict, and is not pending.
abbrev pub Held : List Job → ℕ → Type 0
Held jobs i = (job : Job) × (find_job i jobs ≡ some job) × (is_pending job ≡ false)

-- A running job has the handle by which it can be killed.
abbrev pub HasHandle : Job → Type 0
HasHandle job = is_running job ≡ true → job.cancellation ≢ none

pub record GoodEntries (next_priority : ℤ) (jobs : List Job) : Type 0 where
  pub once : HasKeysOnce jobs
  pub below : (x : Job) → In x jobs → x.priority <ℤ next_priority
  pub handles : (x : Job) → In x jobs → HasHandle x

pub put_job-GoodEntries :
    (n : ℤ) (job : Job) (jobs : List Job)
    → GoodEntries n jobs
    → job.priority <ℤ n
    → HasHandle job
    → GoodEntries n (put_job job jobs)
put_job-GoodEntries n job jobs g p h = record {
  once = put_job-HasKeysOnce job jobs g.once;
  below = λ x i. elim (In-put_job x job jobs i) [ inl e ↦ rw e p | inr old ↦ g.below x old ];
  handles = λ x i. elim (In-put_job x job jobs i) [
    | inl e ↦ subst HasHandle (sym e) h
    | inr old ↦ g.handles x old
  ];
}

pub delete_job-GoodEntries :
    (n : ℤ) (i : ℕ) (jobs : List Job) → GoodEntries n jobs → GoodEntries n (delete_job i jobs)
delete_job-GoodEntries n i jobs g = record {
  once = delete_job-HasKeysOnce i jobs g.once;
  below = λ x m. g.below x (In-delete_job x i jobs m);
  handles = λ x m. g.handles x (In-delete_job x i jobs m);
}

pub put_job-Held :
    (job : Job) (jobs : List Job) (i : ℕ)
    → Held jobs i
    → (job.id ≡ i → is_pending job ≡ false)
    → Held (put_job job jobs) i
put_job-Held job jobs i (old, found, p) h = elim (Bool-cases (job.id == i)) [
  | inl same ↦ (job, ground (arith, find_job-put_job i job jobs), h ((==_iff job.id i).0 same))
  | inr other ↦ (old, ground (arith, find_job-put_job i job jobs), p)
]

pub put_job-Held_self :
    (job : Job) (jobs : List Job) → is_pending job ≡ false → Held (put_job job jobs) job.id
put_job-Held_self job jobs p =
    (job, ground (arith, find_job-put_job job.id job jobs, ==_iff job.id job.id), p)

pub GoodEntries-mono :
    (n m : ℤ) (jobs : List Job) → n ≤ℤ m → GoodEntries n jobs → GoodEntries m jobs
GoodEntries-mono n m jobs le g = record {
  once = g.once;
  below = λ x i. omega (arith, g.below x i, le);
  handles = g.handles;
}

-- The thread of another job does not notice a deletion.
pub delete_job-Held :
    (k : ℕ) (jobs : List Job) (i : ℕ) → Held jobs i → k ≢ i → Held (delete_job k jobs) i
delete_job-Held k jobs i (job, found, p) n =
    (job, ground (arith, find_job-delete_job i k jobs, ==_iff k i), p)
