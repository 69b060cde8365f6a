-- ===== src/Jobs/Scheduler/Active.antt =====
-- collapsarr/jobs/scheduler.py: the jobs that are waiting or running for a path, as the de-duplication
-- reads them, and how a write of one entry changes their number.
use collapsarr.Common.{
  ℕ, ◌+◌, ◌≤◌, ◌≡◌, refl, inl, inr, Bool, false, ◌&&◌, ◌||◌, Option, none, some, List, [], ◌∷◌, Str,
  str_eq, ◌==◌, if◌then◌else◌, Bool-cases, arith,
}
use collapsarr.Jobs.Job.{Job, is_pending, is_running}
use collapsarr.Jobs.Queue.{find_job, put_job, delete_job}
use collapsarr.Jobs.Pool.{count_jobs, any_job}

-- `job.file_path == path and job.status in _ACTIVE_STATUSES`
unfoldable pub is_active_for : Str → Job → Bool
unfolding is_pending is_running
is_active_for path job = str_eq job.file_path path && (is_pending job || is_running job)

unfoldable pub is_active : Str → List Job → Bool
unfolding any_job is_active_for
is_active path jobs = any_job (is_active_for path) jobs

unfoldable pub find_active_job : Str → List Job → Option Job
unfolding is_active_for
find_active_job path [] = none
find_active_job path (job ∷ jobs) =
    let rest = find_active_job path jobs in if is_active_for path job then some job else rest

unfoldable pub count_pending : List Job → ℕ
unfolding count_jobs is_pending
count_pending jobs = count_jobs is_pending jobs

abbrev pub one_if : Bool → ℕ
one_if b = if b then 1 else 0

module _ (test : Job → Bool) where
  -- A new entry adds itself.
  pub count_jobs-put_new :
      (job : Job) (jobs : List Job)
      → find_job job.id jobs ≡ none
      → count_jobs test (put_job job jobs) ≡ count_jobs test jobs + one_if (test job)
  unfolding count_jobs put_job find_job
  count_jobs-put_new job [] e = ground arith
  count_jobs-put_new job (j ∷ jobs) e = ground (arith, count_jobs-put_new job jobs)

  -- An old entry is exchanged.
  pub count_jobs-put_old :
      (old job : Job) (jobs : List Job)
      → find_job job.id jobs ≡ some old
      → count_jobs test (put_job job jobs) + one_if (test old)
        ≡ count_jobs test jobs + one_if (test job)
  unfolding count_jobs put_job find_job
  count_jobs-put_old old job [] e = ground arith
  count_jobs-put_old old job (j ∷ jobs) e = elim (Bool-cases (j.id == job.id)) [
    | inl same ↦ rw same (ground arith)
    | inr other ↦ rw other (ground (arith, count_jobs-put_old old job jobs))
  ]

  pub count_jobs-delete :
      (i : ℕ) (jobs : List Job) → count_jobs test (delete_job i jobs) ≤ count_jobs test jobs
  unfolding count_jobs delete_job
  count_jobs-delete i [] = omega arith
  count_jobs-delete i (j ∷ jobs) = ground (arith, count_jobs-delete i jobs)

  -- Whatever stands in the dict, a write adds one at most.
  pub count_jobs-put_le :
      (job : Job) (jobs : List Job) → count_jobs test (put_job job jobs) ≤ count_jobs test jobs + 1
  unfolding count_jobs put_job
  count_jobs-put_le job [] = ground arith
  count_jobs-put_le job (j ∷ jobs) = ground (arith, count_jobs-put_le job jobs)

  pub any_job-count : (jobs : List Job) → any_job test jobs ≡ false → count_jobs test jobs ≡ 0
  unfolding count_jobs any_job
  any_job-count [] e = refl
  any_job-count (j ∷ jobs) e = ground (arith, any_job-count jobs)
