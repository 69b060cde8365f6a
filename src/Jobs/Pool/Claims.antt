-- ===== src/Jobs/Pool/Claims.antt =====
-- What one pass of `_claim_next` does, and how the other operations steer it.
use collapsarr.Common.{
  ℕ, ◌+◌, ◌≡◌, refl, subst, ◌⊎◌, inl, inr, Bool, true, false, none, some, List, In, Bool-cases,
  Option-cases, arith,
}
use collapsarr.Common.Int.{ℤ}
use collapsarr.Jobs.Job.{Job, is_pending}
use collapsarr.Jobs.Queue.{JobQueue, put_job}
use collapsarr.Jobs.Pool.{
  pending_jobs, lowest, claimed_job, Claim, exits, waits, claims, claim_next,
}
use collapsarr.Jobs.Pool.Order.{
  FirstLowest, FirstLowest-In, lowest-FirstLowest, lowest-none, In-pending_jobs,
}

-- No job of the dict is pending.
abbrev pub NonePending : List Job → Type 0
NonePending jobs = (job : Job) → In job jobs → is_pending job ≡ false

pub NonePending-of_lowest : (jobs : List Job) → lowest (pending_jobs jobs) ≡ none → NonePending jobs
NonePending-of_lowest jobs e job i = elim (Bool-cases (is_pending job)) [
  | inr f ↦ f
  | inl t ↦
      let here : In job (pending_jobs jobs) = (In-pending_jobs job jobs).1 (i, t) in
      absurd (rw (lowest-none (pending_jobs jobs) e) at here)
]

-- The three outcomes of a pass: the worker exits, it waits, or it takes a job.
pub data Pass (paused : Bool) (now : ℕ) (q : JobQueue) : JobQueue × Claim → Type 0 where
  stopped : q.is_shutdown ≡ true → Pass paused now q (q, exits)
  blocked :
      q.is_shutdown ≡ false → (paused ≡ true) ⊎ NonePending q.jobs → Pass paused now q (q, waits)
  takes :
      (job : Job)
      → q.is_shutdown ≡ false
      → paused ≡ false
      → In job q.jobs
      → is_pending job ≡ true
      → FirstLowest job (pending_jobs q.jobs)
      → Pass paused now q (
        record q { jobs = put_job (claimed_job now job) q.jobs; active = q.active + 1 },
        claims (claimed_job now job),
      )

pub is_pending-priority :
    (job : Job) (n : ℤ) → is_pending job ≡ true → is_pending (record job { priority = n }) ≡ true
unfolding is_pending
is_pending-priority job n p = p

pub claimed-id : (now : ℕ) (job : Job) → (claimed_job now job).id ≡ job.id
unfolding claimed_job
claimed-id now job = refl

pub claimed-started : (now : ℕ) (job : Job) → (claimed_job now job).started_at ≡ some now
unfolding claimed_job
claimed-started now job = refl

module _ (paused : Bool) (now : ℕ) (q : JobQueue) where
  abbrev Takes : Job → JobQueue × Claim
  Takes job = (
    record q { jobs = put_job (claimed_job now job) q.jobs; active = q.active + 1 },
    claims (claimed_job now job),
  )

  claim_next-stopped : q.is_shutdown ≡ true → (q, exits) ≡ claim_next paused now q
  unfolding claim_next
  claim_next-stopped down = ground arith

  claim_next-paused : q.is_shutdown ≡ false → paused ≡ true → (q, waits) ≡ claim_next paused now q
  unfolding claim_next
  claim_next-paused up held = ground arith

  pub claim_next-empty :
      q.is_shutdown ≡ false
      → lowest (pending_jobs q.jobs) ≡ none
      → (q, waits) ≡ claim_next paused now q
  unfolding claim_next
  claim_next-empty up empty = ground arith

  pub claim_next-takes :
      (job : Job)
      → q.is_shutdown ≡ false
      → paused ≡ false
      → lowest (pending_jobs q.jobs) ≡ some job
      → Takes job ≡ claim_next paused now q
  unfolding claim_next
  claim_next-takes job up free found = ground arith

  -- A pass of the loop exits when the queue is shut down; it waits when claiming is paused or nothing
  -- is pending; else it takes the first of the pending jobs with the lowest priority, and changes
  -- nothing but that job and the count of active ones.
  pub claim_next-Pass : Pass paused now q (claim_next paused now q)
  claim_next-Pass = elim (Bool-cases q.is_shutdown) [
    | inl down ↦ subst (Pass paused now q) (claim_next-stopped down) (Pass.stopped down)
    | inr up ↦ elim (Bool-cases paused) [
      | inl held ↦
          subst (Pass paused now q) (claim_next-paused up held) (Pass.blocked up (inl held))
      | inr free ↦ elim (Option-cases (lowest (pending_jobs q.jobs))) [
        | inl empty ↦
            subst (Pass paused now q) (claim_next-empty up empty)
              (Pass.blocked up (inr (NonePending-of_lowest q.jobs empty)))
        | inr (job, found) ↦
            let first = lowest-FirstLowest (pending_jobs q.jobs) job found in
            let (i, p) =
              (In-pending_jobs job q.jobs).0 (FirstLowest-In job (pending_jobs q.jobs) first) in
            subst (Pass paused now q) (claim_next-takes job up free found)
              (Pass.takes job up free i p first)
      ]
    ]
  ]
