-- ===== src/Jobs/Queue/Cancel.antt =====
-- What `cancel` does to the dict.
use collapsarr.Common.{
  ℕ, ◌≡◌, ◌⊎◌, inl, inr, true, false, none, some, ◌==◌, Bool-cases, Option-cases, if◌then◌else◌,
  arith,
}
use collapsarr.Jobs.Job.{Job, is_pending}
use collapsarr.Jobs.Queue.{JobQueue, find_job, cancel}
use collapsarr.Jobs.Queue.Lookup.{find_job-delete_job}

-- What a cancel does: it succeeds exactly for a job that is pending, and then the id is gone and
-- every other entry is as before; else nothing changes.
pub cancel_lem :
    (i : ℕ) (q : JobQueue)
    → (((cancel i q).1 ≡ true)
        × ((job : Job) × (find_job i q.jobs ≡ some job) × (is_pending job ≡ true))
        × ((k : ℕ) → find_job k (cancel i q).0.jobs ≡ (if i == k then none else find_job k q.jobs)))
      ⊎ (((cancel i q).1 ≡ false)
          × ((job : Job) → find_job i q.jobs ≡ some job → is_pending job ≡ false)
          × ((cancel i q).0 ≡ q))
unfolding cancel
cancel_lem i q = elim (Option-cases (find_job i q.jobs)) [
  | inl absent ↦ inr (ground arith, λ job e. ground arith, ground arith)
  | inr (job, found) ↦ elim (Bool-cases (is_pending job)) [
    | inl p ↦
        inl (ground arith, (job, found, p), λ k. ground (arith, find_job-delete_job k i q.jobs))
    | inr p ↦ inr (ground arith, λ j e. ground arith, ground arith)
  ]
]
