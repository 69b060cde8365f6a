-- ===== src/Jobs/Queue/Lookup.antt =====
-- The dict of jobs: what a lookup finds after each write.
use collapsarr.Common.{
  ℕ, ◌≡◌, refl, ◌⊎◌, ◌≢◌, inl, inr, ◌≢◌, none, some, List, [], ◌∷◌, ◌==◌, ==_iff, if◌then◌else◌, In,
  Bool-cases, arith,
}
use collapsarr.Jobs.Job.{Job}
use collapsarr.Jobs.Queue.{find_job, put_job, delete_job}

pub find_job-id : (i : ℕ) (jobs : List Job) (job : Job) → find_job i jobs ≡ some job → job.id ≡ i
unfolding find_job
find_job-id i [] job e = ground arith
find_job-id i (j ∷ jobs) job e = ground (arith, find_job-id i jobs job)

pub find_job-In : (i : ℕ) (jobs : List Job) (job : Job) → find_job i jobs ≡ some job → In job jobs
unfolding find_job
find_job-In i [] job e = ground arith
find_job-In i (j ∷ jobs) job e = ground (arith, find_job-In i jobs job)

pub find_job-put_job :
    (i : ℕ) (job : Job) (jobs : List Job)
    → find_job i (put_job job jobs) ≡ (if job.id == i then some job else find_job i jobs)
unfolding find_job put_job
find_job-put_job i job [] = refl
find_job-put_job i job (j ∷ jobs) = ground (arith, find_job-put_job i job jobs)

pub find_job-delete_job :
    (i k : ℕ) (jobs : List Job)
    → find_job i (delete_job k jobs) ≡ (if k == i then none else find_job i jobs)
unfolding find_job delete_job
find_job-delete_job i k [] = ground arith
find_job-delete_job i k (j ∷ jobs) = ground (arith, find_job-delete_job i k jobs)

-- Where the jobs of the dict after a write come from.
pub In-put_job : (x job : Job) (jobs : List Job) → In x (put_job job jobs) → (x ≡ job) ⊎ In x jobs
unfolding put_job
In-put_job x job [] i = ground arith
In-put_job x job (j ∷ jobs) i = ground (arith, In-put_job x job jobs)

pub In-delete_job : (x : Job) (k : ℕ) (jobs : List Job) → In x (delete_job k jobs) → In x jobs
unfolding delete_job
In-delete_job x k [] i = i
In-delete_job x k (j ∷ jobs) i = ground (arith, In-delete_job x k jobs)

-- A dict has each key once.
abbrev pub HasKeysOnce : List Job → Type 0
HasKeysOnce [] = Unit
HasKeysOnce (job ∷ jobs) = (find_job job.id jobs ≡ none) × HasKeysOnce jobs

pub put_job-HasKeysOnce :
    (job : Job) (jobs : List Job) → HasKeysOnce jobs → HasKeysOnce (put_job job jobs)
unfolding put_job find_job
put_job-HasKeysOnce job [] h = (refl, tt)
put_job-HasKeysOnce job (j ∷ jobs) h = elim (Bool-cases (j.id == job.id)) [
  | inl same ↦ rw same (ground (arith), h.1)
  | inr other ↦ rw other (
    ground (arith, find_job-put_job j.id job jobs, ==_iff j.id job.id),
    put_job-HasKeysOnce job jobs h.1,
  )
]

pub delete_job-HasKeysOnce :
    (k : ℕ) (jobs : List Job) → HasKeysOnce jobs → HasKeysOnce (delete_job k jobs)
unfolding delete_job
delete_job-HasKeysOnce k [] h = tt
delete_job-HasKeysOnce k (j ∷ jobs) h = elim (Bool-cases (j.id == k)) [
  | inl same ↦ rw same (delete_job-HasKeysOnce k jobs h.1)
  | inr other ↦ rw other (
    ground (arith, find_job-delete_job j.id k jobs, ==_iff j.id k),
    delete_job-HasKeysOnce k jobs h.1,
  )
]

-- Every job of the dict is found by its own id.
pub find_job_of-In :
    (job : Job) (jobs : List Job) → HasKeysOnce jobs → In job jobs → find_job job.id jobs ≡ some job
unfolding find_job
find_job_of-In job [] h i = absurd i
find_job_of-In job (j ∷ jobs) h (inl e) = ground (arith, ==_iff j.id job.id)
find_job_of-In job (j ∷ jobs) h (inr i) =
    ground (arith, ==_iff j.id job.id, find_job_of-In job jobs h.1 i)

pub In-put_job_self : (job : Job) (jobs : List Job) → In job (put_job job jobs)
unfolding put_job
In-put_job_self job [] = inl refl
In-put_job_self job (j ∷ jobs) = ground (arith, In-put_job_self job jobs)

pub find_job-none :
    (i : ℕ) (jobs : List Job) (x : Job) → find_job i jobs ≡ none → In x jobs → x.id ≢ i
unfolding find_job
find_job-none i [] x e m = absurd m
find_job-none i (j ∷ jobs) x e (inl same) = ground (arith, ==_iff j.id i)
find_job-none i (j ∷ jobs) x e (inr m) = find_job-none i jobs x (ground arith) m

pub In-put_job_other :
    (x job : Job) (jobs : List Job) → In x jobs → x.id ≢ job.id → In x (put_job job jobs)
unfolding put_job
In-put_job_other x job [] i n = absurd i
In-put_job_other x job (j ∷ jobs) (inl e) n = ground (arith, ==_iff j.id job.id)
In-put_job_other x job (j ∷ jobs) (inr i) n = ground (arith, In-put_job_other x job jobs)
