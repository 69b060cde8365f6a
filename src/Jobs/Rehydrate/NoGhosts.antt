-- ===== src/Jobs/Rehydrate/NoGhosts.antt =====
-- Behind a restart every row that still waits has its job, and every job may be put on the queue.
use collapsarr.Common.{
  ◌≡◌, refl, sym, ◌∙◌, subst, ◌⊎◌, inl, inr, true, none, some, List, [], ◌∷◌, map, In, All,
  All-of_In, Bool-cases, arith,
}
use collapsarr.Common.Int.{ℤ, ltb_ℤ, ltb_ℤ→lt, ltb_ℤ→le, ◌<ℤ◌, ◌≤ℤ◌, suc_ℤ, suc_ℤ_parts}
use collapsarr.Jobs.Job.{JobStatus, pending, running, succeeded, failed, Job}
use collapsarr.Jobs.Queue.{JobQueue, find_job}
use collapsarr.Jobs.Pool.{seed_next_priority, rehydrate}
use collapsarr.Jobs.History.{JobHistory, status_eq}
use collapsarr.Jobs.Threads.{Rehydratable}
use collapsarr.Jobs.Rehydrate.{
  Restart, Reconstructed, rebuilt, unresolved, reconstruct_job, mark_unrehydratable, row_unless,
  restart_row, pending_rows, sort_rows, max_priority, seed_from, rehydrate_pending_jobs,
}
use collapsarr.Jobs.Rehydrate.Rebuild.{
  Matches, reconstruct_job-Matches, pending_rows_iff, sort_rows_iff, rebuild_all-In, HasIdsOnce,
  jobs_of, job_of-row, same_job, find_job-put_jobs,
}

max_priority-start : (rows : List JobHistory) (n : ℤ) → n ≤ℤ max_priority n rows
unfolding max_priority
max_priority-start [] n = omega arith
max_priority-start (row ∷ rows) n = elim (Bool-cases (ltb_ℤ n row.priority)) [
  | inl less ↦
      rw less (omega (arith, ltb_ℤ→lt n row.priority less, max_priority-start rows row.priority))
  | inr more ↦ rw more (max_priority-start rows n)
]

max_priority-In :
    (rows : List JobHistory) (n : ℤ) (row : JobHistory)
    → In row rows
    → row.priority ≤ℤ max_priority n rows
unfolding max_priority
max_priority-In [] n row i = absurd i
max_priority-In (r ∷ rows) n row (inr i) = max_priority-In rows _ row i
max_priority-In (r ∷ rows) n row (inl e) =
    subst (λ x. x.priority ≤ℤ max_priority n (r ∷ rows)) e
      (elim (Bool-cases (ltb_ℤ n r.priority)) [
        | inl less ↦ rw less (max_priority-start rows r.priority)
        | inr more ↦ rw more (omega (arith, ltb_ℤ→le n r.priority more, max_priority-start rows n))
      ])

seeded-above : (m : ℤ) (q : JobQueue) → m ≤ℤ (seed_next_priority m q).next_priority
unfolding seed_next_priority
seeded-above m q = elim (Bool-cases (ltb_ℤ q.next_priority m)) [
  | inl less ↦ rw less (omega arith)
  | inr more ↦ rw more (ltb_ℤ→le q.next_priority m more)
]

seed_from-above :
    (rows : List JobHistory) (q : JobQueue) (row : JobHistory)
    → In row rows
    → row.priority <ℤ (seed_from rows q).next_priority
unfolding seed_from
seed_from-above [] q row i = absurd i
seed_from-above (r ∷ rows) q row i = omega (
  arith,
  first_or_later,
  suc_ℤ_parts (max_priority r.priority rows),
  seeded-above (suc_ℤ (max_priority r.priority rows)) q,
)
  where
    first_or_later : row.priority ≤ℤ max_priority r.priority rows
    first_or_later = elim i [
      | inl e ↦
          subst (λ x. x.priority ≤ℤ max_priority r.priority rows) e
            (max_priority-start rows r.priority)
      | inr m ↦ max_priority-In rows r.priority row m
    ]

seed_next_priority-jobs : (m : ℤ) (q : JobQueue) → (seed_next_priority m q).jobs ≡ q.jobs
unfolding seed_next_priority
seed_next_priority-jobs m q = elim (Bool-cases (ltb_ℤ q.next_priority m)) [
  | inl less ↦ rw less refl
  | inr more ↦ rw more refl
]

seed_from-jobs : (rows : List JobHistory) (q : JobQueue) → (seed_from rows q).jobs ≡ q.jobs
unfolding seed_from
seed_from-jobs [] q = refl
seed_from-jobs (r ∷ rows) q = seed_next_priority-jobs (suc_ℤ (max_priority r.priority rows)) q

-- How a row stands behind the restart: its job is over, or it waits and its job is on the queue.
pub data RowEnd (q : JobQueue) (row : JobHistory) : Type 0 where
  over : (row.status ≡ succeeded) ⊎ (row.status ≡ failed) → RowEnd q row
  waits :
      (job : Job)
      → row.status ≡ pending
      → find_job job.id q.jobs ≡ some job
      → Matches row job
      → RowEnd q row

In-map :
    (f : JobHistory → JobHistory) (rows : List JobHistory) (r : JobHistory)
    → In r (map f rows)
    → (row : JobHistory) × In row rows × (f row ≡ r)
In-map f [] r i = absurd i
In-map f (row ∷ rows) r (inl e) = (row, inl refl, e)
In-map f (row ∷ rows) r (inr i) = let (x, m, e) = In-map f rows r i in (x, inr m, e)

module _ (restart : Restart) (rows : List JobHistory) (q : JobQueue) (once : HasIdsOnce rows) where
  abbrev queue_after : JobQueue
  queue_after = (rehydrate_pending_jobs restart rows q).1

  live :
      (row : JobHistory) (job : Job)
      → In row rows
      → status_eq row.status pending ≡ true
      → reconstruct_job restart row ≡ rebuilt job
      → find_job job.id queue_after.jobs ≡ some job
  unfolding rehydrate_pending_jobs rehydrate
  live row job i p h =
      let m =
        rebuild_all-In restart (sort_rows (pending_rows rows)) row job
          ((sort_rows_iff (pending_rows rows) row).1 ((pending_rows_iff rows row).1 (i, p))) h in
      find_job-put_jobs (jobs_of restart rows) (seed_from rows q).jobs job m
        (λ k n e. same_job restart rows job k once m n e)

  row_unless-RowEnd :
      (row : JobHistory) (c : Reconstructed)
      → In row rows
      → row.status ≡ pending
      → reconstruct_job restart row ≡ c
      → RowEnd queue_after (row_unless restart row c)
  unfolding row_unless mark_unrehydratable status_eq
  row_unless-RowEnd row (rebuilt job) i p h =
      waits job p (live row job i (rw p refl) h) (reconstruct_job-Matches restart row job h)
  row_unless-RowEnd row (unresolved reason) i p h = over (inr refl)

  restart_row-RowEnd :
      (row : JobHistory) (s : JobStatus)
      → In row rows
      → row.status ≡ s
      → RowEnd queue_after (restart_row restart s row)
  unfolding restart_row mark_unrehydratable
  restart_row-RowEnd row pending i e = row_unless-RowEnd row (reconstruct_job restart row) i e refl
  restart_row-RowEnd row running i e = over (inr refl)
  restart_row-RowEnd row succeeded i e = over (inl e)
  restart_row-RowEnd row failed i e = over (inr e)

  rows-RowEnd :
      (r : JobHistory) → In r (rehydrate_pending_jobs restart rows q).0 → RowEnd queue_after r
  unfolding rehydrate_pending_jobs
  rows-RowEnd r i =
      let (row, m, e) = In-map (λ x. restart_row restart x.status x) rows r i in
      subst (RowEnd queue_after) e (restart_row-RowEnd row row.status m refl)

  jobs-Rehydratable :
      q.jobs ≡ [] → All (Rehydratable (seed_from rows q)) (rehydrate_pending_jobs restart rows q).2
  unfolding rehydrate_pending_jobs find_job
  jobs-Rehydratable new =
      All-of_In (Rehydratable (seed_from rows q)) (jobs_of restart rows) (λ job i.
        let (row, m, h) = job_of-row restart rows job i in
        let match = reconstruct_job-Matches restart row job h in
        (
          match.waits,
          subst (λ js. find_job job.id js ≡ none) (sym (seed_from-jobs rows q ∙ new)) refl,
          subst (λ n. n <ℤ (seed_from rows q).next_priority) (sym match.priority)
              (seed_from-above rows q row m),
        ))

-- A restart leaves no ghost: on a queue with no jobs, it leaves every row of the history over, or
-- pending with a pending job on the queue that has its id, path, kind and priority, and no row running;
-- and the jobs that it puts on the queue have ids of their own and priorities behind the seeded
-- counter, as the threads' invariant asks of them. The ids of the history's rows are unique.
pub rehydrate_pending_jobs-RowEnd :
    (restart : Restart) (rows : List JobHistory) (q : JobQueue)
    → HasIdsOnce rows
    → q.jobs ≡ []
    → All
        (RowEnd (rehydrate_pending_jobs restart rows q).1)
        (rehydrate_pending_jobs restart rows q).0
      × All (Rehydratable (seed_from rows q)) (rehydrate_pending_jobs restart rows q).2
rehydrate_pending_jobs-RowEnd restart rows q once new =
    (All-of_In _ _ (rows-RowEnd restart rows q once), jobs-Rehydratable restart rows q once new)
