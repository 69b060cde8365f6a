-- ===== src/Jobs/Pool/Steer.antt =====
-- How a bump and an enqueue steer the next pass of `_claim_next`.
use collapsarr.Common.{
  ℕ, ◌≡◌, refl, sym, ap, ◌∙◌, inl, inr, true, false, none, some, List, In, All-In, Option-cases,
  arith,
}
use mathlib.Core.Bool.{true≢false}
use collapsarr.Common.Int.{ℤ, ◌<ℤ◌, ◌≤ℤ◌, pred_ℤ_parts}
use collapsarr.Jobs.Job.{Job, is_pending}
use collapsarr.Jobs.Queue.{JobQueue, find_job, put_job, enqueue_job}
use collapsarr.Jobs.Queue.Lookup.{
  find_job-In, find_job-id, In-put_job, In-put_job_self, In-put_job_other, find_job-none,
}
use collapsarr.Jobs.Pool.{
  pending_jobs, lowest, bumped_priority, bump_to_front, claimed_job, Claim, claims, claim_next,
}
use collapsarr.Jobs.Pool.Order.{
  Lowest, FirstLowest-Lowest, FirstLowest-In, lowest-FirstLowest, In-pending_jobs,
}
use collapsarr.Jobs.Pool.Claims.{
  NonePending-of_lowest, claim_next-takes, is_pending-priority, claimed-id, claimed-started,
}

-- Where a job is pending, one is the lowest, and none is below it.
lowest_of_pending :
    (x : Job) (jobs : List Job)
    → In x jobs
    → is_pending x ≡ true
    → (b : Job) × (lowest (pending_jobs jobs) ≡ some b) × Lowest b (pending_jobs jobs)
lowest_of_pending x jobs i p = elim (Option-cases (lowest (pending_jobs jobs))) [
  | inl empty ↦ absurd (true≢false (sym p ∙ NonePending-of_lowest jobs empty x i))
  | inr (b, found) ↦ (
    b,
    found,
    FirstLowest-Lowest b (pending_jobs jobs) (lowest-FirstLowest (pending_jobs jobs) b found),
  )
]

Lowest-le :
    (b x : Job) (jobs : List Job)
    → Lowest b (pending_jobs jobs)
    → In x jobs
    → is_pending x ≡ true
    → b.priority ≤ℤ x.priority
Lowest-le b x jobs low i p =
    All-In (λ j. b.priority ≤ℤ j.priority) x (pending_jobs jobs) low
      ((In-pending_jobs x jobs).1 (i, p))

-- A pending job below all pending others is the one that is taken.
lowest-put_job :
    (job : Job) (jobs : List Job)
    → is_pending job ≡ true
    → ((x : Job) → In x jobs → is_pending x ≡ true → job.priority <ℤ x.priority)
    → lowest (pending_jobs (put_job job jobs)) ≡ some job
lowest-put_job job jobs p below =
    let (b, found, low) = lowest_of_pending job (put_job job jobs) (In-put_job_self job jobs) p in
    let le = Lowest-le b job (put_job job jobs) low (In-put_job_self job jobs) p in
    let first = lowest-FirstLowest (pending_jobs (put_job job jobs)) b found in
    let (i, q) =
      (In-pending_jobs b (put_job job jobs)).0
        (FirstLowest-In b (pending_jobs (put_job job jobs)) first) in
    elim (In-put_job b job jobs i) [
      | inl same ↦ rw same at found
      | inr old ↦ absurd (omega (arith, le, below b old q))
    ]

bump_to_front-true :
    (i : ℕ) (q : JobQueue)
    → (bump_to_front i q).1 ≡ true
    → (job : Job) × (find_job i q.jobs ≡ some job)
      × (is_pending job ≡ true)
      × ((bump_to_front i q).0 ≡ record q {
        jobs = put_job (record job { priority = bumped_priority job q.jobs }) q.jobs;
      })
unfolding bump_to_front
bump_to_front-true i q e = elim (Option-cases (find_job i q.jobs)) [
  | inl absent ↦ ground arith
  | inr (job, found) ↦ (job, found, ground arith, ground arith)
]

pub bumped_priority-below :
    (job x : Job) (jobs : List Job)
    → In job jobs
    → is_pending job ≡ true
    → In x jobs
    → is_pending x ≡ true
    → bumped_priority job jobs <ℤ x.priority
unfolding bumped_priority
bumped_priority-below job x jobs i p j r =
    let (b, found, low) = lowest_of_pending job jobs i p in
    let le = Lowest-le b x jobs low j r in
    rw (found, bumped_priority) (omega (arith, pred_ℤ_parts b.priority, le))

-- After a successful bump the next pass that is free to claim takes that very job, whatever the
-- priorities were.
pub bump_to_front-claim_next :
    (i now : ℕ) (q : JobQueue)
    → q.is_shutdown ≡ false
    → (bump_to_front i q).1 ≡ true
    → (job : Job) × ((claim_next false now (bump_to_front i q).0).1 ≡ claims job)
      × (job.id ≡ i)
      × (job.started_at ≡ some now)
bump_to_front-claim_next i now q up bumped =
    let (job, found, p, e) = bump_to_front-true i q bumped in
    let front : Job = record job { priority = bumped_priority job q.jobs } in
    let next : JobQueue = record q { jobs = put_job front q.jobs } in
    let here = find_job-In i q.jobs job found in
    let first =
      lowest-put_job front q.jobs (is_pending-priority job (bumped_priority job q.jobs) p)
        (λ x j r. bumped_priority-below job x q.jobs here p j r) in
    (
      claimed_job now front,
      ap (λ (s : JobQueue). (claim_next false now s).1) e
          ∙ ap (λ (s : JobQueue × Claim). s.1)
              (sym (claim_next-takes false now next front up refl first)),
      claimed-id now front ∙ find_job-id i q.jobs job found,
      claimed-started now front,
    )

-- Every job of the dict has a priority below the counter's next one.
abbrev pub PrioritiesBelow : ℤ → List Job → Type 0
PrioritiesBelow n jobs = (x : Job) → In x jobs → x.priority <ℤ n

-- A new job goes behind all others: where every priority stands below the counter and some job is
-- pending, the pass that follows an enqueue takes a job that was there before.
pub enqueue_job-claim_next :
    (new : Job) (now : ℕ) (q : JobQueue) (x : Job)
    → PrioritiesBelow q.next_priority q.jobs
    → q.is_shutdown ≡ false
    → find_job new.id q.jobs ≡ none
    → In x q.jobs
    → is_pending x ≡ true
    → (job : Job) × In job q.jobs
      × ((claim_next false now (enqueue_job new q).0).1 ≡ claims (claimed_job now job))
unfolding enqueue_job
enqueue_job-claim_next new now q x below up fresh i p =
    let queued : Job = record new { priority = q.next_priority } in
    let kept = In-put_job_other x queued q.jobs i (find_job-none new.id q.jobs x fresh i) in
    let (b, found, low) = lowest_of_pending x (put_job queued q.jobs) kept p in
    let le = Lowest-le b x (put_job queued q.jobs) low kept p in
    let (m, _) =
      (In-pending_jobs b (put_job queued q.jobs)).0
        (FirstLowest-In b _ (lowest-FirstLowest (pending_jobs (put_job queued q.jobs)) b found)) in
    elim (In-put_job b queued q.jobs m) [
      | inl same ↦
          let at : queued.priority ≤ℤ x.priority = rw same at le in
          absurd (omega (arith, at, below x i))
      | inr old ↦ (
        b,
        old,
        ap (λ (s : JobQueue × Claim). s.1)
            (sym (claim_next-takes false now (enqueue_job new q).0 b up refl found)),
      )
    ]
