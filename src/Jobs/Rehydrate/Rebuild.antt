-- ===== src/Jobs/Rehydrate/Rebuild.antt =====
-- The jobs that a restart makes of the pending rows.
use collapsarr.Common.{
  ℕ, ◌≡◌, refl, sym, ap, ◌∙◌, ◌↔◌, ◌⊎◌, inl, inr, true, some, List, [], ◌∷◌, ◌==◌, ==_iff, In,
  Bool-cases, Option-cases, arith,
}
use collapsarr.Jobs.Job.{
  JobStatus, pending, running, succeeded, failed, JobKind, downmix, set_default_audio, Job,
  is_pending,
}
use collapsarr.Jobs.Queue.{find_job, put_job}
use collapsarr.Jobs.Queue.Lookup.{find_job-put_job}
use collapsarr.Jobs.Pool.{put_jobs}
use collapsarr.Jobs.History.{JobHistory, status_eq}
use collapsarr.Jobs.Rehydrate.{
  Restart, live_job, Reconstructed, rebuilt, unresolved, reconstruct_kind, reconstruct_job,
  pending_rows, insert_row, sort_rows, add_rebuilt, rebuild_all,
}

-- A job stands for a row.
pub record Matches (row : JobHistory) (job : Job) : Type 0 where
  pub id : row.job_id ≡ some job.id
  pub file_path : job.file_path ≡ row.file_path
  pub kind : job.kind ≡ row.kind
  pub priority : job.priority ≡ row.priority
  pub waits : is_pending job ≡ true

reconstruct_kind-Matches :
    (restart : Restart) (i : ℕ) (row : JobHistory) (kind : JobKind) (job : Job)
    → row.job_id ≡ some i
    → reconstruct_kind restart i row kind ≡ rebuilt job
    → Matches row job
unfolding reconstruct_kind live_job is_pending
reconstruct_kind-Matches restart i row downmix job e h = record {
  id = ground arith;
  file_path = ground arith;
  kind = ground arith;
  priority = ground arith;
  waits = ground arith;
}
reconstruct_kind-Matches restart i row set_default_audio job e h =
    elim (Option-cases restart.preference) [
      | inl unset ↦ absurd (ground arith)
      | inr (p, set) ↦ record {
        id = ground arith;
        file_path = ground arith;
        kind = ground arith;
        priority = ground arith;
        waits = ground arith;
      }
    ]

pub reconstruct_job-Matches :
    (restart : Restart) (row : JobHistory) (job : Job)
    → reconstruct_job restart row ≡ rebuilt job
    → Matches row job
unfolding reconstruct_job
reconstruct_job-Matches restart row job h = elim (Option-cases row.job_id) [
  | inl none_there ↦ absurd (ground arith)
  | inr (i, e) ↦ reconstruct_kind-Matches restart i row row.kind job e (ground arith)
]

status_eq-pending : (s : JobStatus) → status_eq s pending ≡ true → s ≡ pending
unfolding status_eq
status_eq-pending pending e = refl
status_eq-pending running e = ground arith
status_eq-pending succeeded e = ground arith
status_eq-pending failed e = ground arith

pub pending_rows_iff :
    (rows : List JobHistory) (r : JobHistory)
    → In r (pending_rows rows) ↔ (In r rows × (status_eq r.status pending ≡ true))
unfolding pending_rows
pending_rows_iff [] r = ground arith
pending_rows_iff (row ∷ rows) r = ground (arith, pending_rows_iff rows r)

insert_row_iff :
    (row r : JobHistory) (rows : List JobHistory)
    → In r (insert_row row rows) ↔ ((row ≡ r) ⊎ In r rows)
unfolding insert_row
insert_row_iff row r [] = (λ i. i, λ i. i)
insert_row_iff row r (x ∷ rows) = ground (arith, insert_row_iff row r rows)

pub sort_rows_iff : (rows : List JobHistory) (r : JobHistory) → In r (sort_rows rows) ↔ In r rows
unfolding sort_rows
sort_rows_iff [] r = (λ i. i, λ i. i)
sort_rows_iff (row ∷ rows) r =
    ground (arith, insert_row_iff row r (sort_rows rows), sort_rows_iff rows r)

In-add_rebuilt :
    (c : Reconstructed) (jobs : List Job) (job : Job)
    → In job (add_rebuilt c jobs)
    → (c ≡ rebuilt job) ⊎ In job jobs
unfolding add_rebuilt
In-add_rebuilt (rebuilt first) jobs job (inl e) = inl (ap (λ j. rebuilt j) e)
In-add_rebuilt (rebuilt first) jobs job (inr i) = inr i
In-add_rebuilt (unresolved reason) jobs job i = inr i

add_rebuilt-In :
    (c : Reconstructed) (jobs : List Job) (job : Job)
    → (c ≡ rebuilt job) ⊎ In job jobs
    → In job (add_rebuilt c jobs)
unfolding add_rebuilt
add_rebuilt-In (rebuilt first) jobs job (inl e) = ground arith
add_rebuilt-In (rebuilt first) jobs job (inr i) = inr i
add_rebuilt-In (unresolved reason) jobs job (inl e) = ground arith
add_rebuilt-In (unresolved reason) jobs job (inr i) = i

In-rebuild_all :
    (restart : Restart) (rows : List JobHistory) (job : Job)
    → In job (rebuild_all restart rows)
    → (row : JobHistory) × In row rows × (reconstruct_job restart row ≡ rebuilt job)
unfolding rebuild_all
In-rebuild_all restart [] job i = absurd i
In-rebuild_all restart (row ∷ rows) job i =
    elim (In-add_rebuilt (reconstruct_job restart row) (rebuild_all restart rows) job i) [
      | inl e ↦ (row, inl refl, e)
      | inr m ↦ let (r, j, h) = In-rebuild_all restart rows job m in (r, inr j, h)
    ]

pub rebuild_all-In :
    (restart : Restart) (rows : List JobHistory) (row : JobHistory) (job : Job)
    → In row rows
    → reconstruct_job restart row ≡ rebuilt job
    → In job (rebuild_all restart rows)
unfolding rebuild_all
rebuild_all-In restart [] row job i h = absurd i
rebuild_all-In restart (r ∷ rows) row job (inl e) h =
    add_rebuilt-In (reconstruct_job restart r) (rebuild_all restart rows) job
      (inl (ap (reconstruct_job restart) e ∙ h))
rebuild_all-In restart (r ∷ rows) row job (inr i) h =
    add_rebuilt-In (reconstruct_job restart r) (rebuild_all restart rows) job
      (inr (rebuild_all-In restart rows row job i h))

-- The column of the ids is unique.
abbrev pub HasIdsOnce : List JobHistory → Type 0
HasIdsOnce rows =
    (a b : JobHistory) (i : ℕ)
    → In a rows
    → In b rows
    → a.job_id ≡ some i
    → b.job_id ≡ some i
    → a ≡ b

-- The jobs of the restart.
abbrev pub jobs_of : Restart → List JobHistory → List Job
jobs_of restart rows = rebuild_all restart (sort_rows (pending_rows rows))

pub job_of-row :
    (restart : Restart) (rows : List JobHistory) (job : Job)
    → In job (jobs_of restart rows)
    → (row : JobHistory) × In row rows × (reconstruct_job restart row ≡ rebuilt job)
job_of-row restart rows job i =
    let (row, m, h) = In-rebuild_all restart (sort_rows (pending_rows rows)) job i in
    (row, ((pending_rows_iff rows row).0 ((sort_rows_iff (pending_rows rows) row).0 m)).0, h)

rebuilt_injective : (a b : Job) → rebuilt a ≡ rebuilt b → a ≡ b
rebuilt_injective a b e = ground arith

-- Two jobs with one id come from one row.
pub same_job :
    (restart : Restart) (rows : List JobHistory) (a b : Job)
    → HasIdsOnce rows
    → In a (jobs_of restart rows)
    → In b (jobs_of restart rows)
    → b.id ≡ a.id
    → b ≡ a
same_job restart rows a b once i j e =
    let (r, m, h) = job_of-row restart rows a i in
    let (q, n, k) = job_of-row restart rows b j in
    let from_a = reconstruct_job-Matches restart r a h in
    let from_b = reconstruct_job-Matches restart q b k in
    let same : q ≡ r = once q r a.id n m (from_b.id ∙ ap (λ x. some x) e) from_a.id in
    rebuilt_injective b a (sym k ∙ ap (reconstruct_job restart) same ∙ h)

find_job-kept :
    (js jobs : List Job) (job : Job)
    → find_job job.id jobs ≡ some job
    → ((k : Job) → In k js → k.id ≡ job.id → k ≡ job)
    → find_job job.id (put_jobs js jobs) ≡ some job
unfolding put_jobs
find_job-kept [] jobs job found same = found
find_job-kept (k ∷ js) jobs job found same =
    find_job-kept js (put_job k jobs) job
      (find_job-put_job job.id k jobs ∙ (elim (Bool-cases (k.id == job.id)) [
        | inl e ↦ rw e (ap (λ x. some x) (same k (inl refl) ((==_iff k.id job.id).0 e)))
        | inr e ↦ rw e found
      ]))
      (λ x i. same x (inr i))

pub find_job-put_jobs :
    (js jobs : List Job) (job : Job)
    → In job js
    → ((k : Job) → In k js → k.id ≡ job.id → k ≡ job)
    → find_job job.id (put_jobs js jobs) ≡ some job
unfolding put_jobs
find_job-put_jobs [] jobs job i same = absurd i
find_job-put_jobs (k ∷ js) jobs job (inr i) same =
    find_job-put_jobs js (put_job k jobs) job i (λ x m. same x (inr m))
find_job-put_jobs (k ∷ js) jobs job (inl e) same =
    find_job-kept js (put_job k jobs) job
      (find_job-put_job job.id k jobs
        ∙ rw ((==_iff k.id job.id).1 (ap (λ j. j.id) e)) (ap (λ x. some x) e))
      (λ x m. same x (inr m))
