-- ===== src/Jobs/Line/Answers.antt =====
-- Each request is answered by the queue as by the line, and a line stands for the queue after it.
use collapsarr.Common.{
  ℕ, ◌+◌, ◌≡◌, refl, sym, ap, ◌∙◌, subst, ◌⊎◌, inl, inr, true, false, none, some, List, [], ◌∷◌,
  ◌++◌, Bool-cases, Option-cases, ==_iff, arith,
}
use collapsarr.Common.Int.{ℤ}
use collapsarr.Jobs.Job.{Job, is_pending}
use collapsarr.Jobs.Queue.{JobQueue, find_job, put_job, delete_job, enqueue_job, cancel}
use collapsarr.Jobs.Queue.Lookup.{find_job-id}
use collapsarr.Jobs.Pool.{
  bumped_priority, bump_to_front, claimed_job, force_start, Claim, claim_next,
}
use collapsarr.Jobs.Pool.Claims.{claim_next-takes, claim_next-empty, is_pending-priority}
use collapsarr.Jobs.Line.{
  Request, adds, bumps, cancels, starts, asks, Reply, done, took, claimed_id, handle, stands_in,
  leaves, serve,
}
use collapsarr.Jobs.Line.Ascending.{
  job_ids, without, job_ids-without, job_ids-append, leaves-absent, leaves-missing,
}
use collapsarr.Jobs.Line.Represents.{
  Represents, stands_in-found, stands_in-missing, Represents-put_job, Represents-delete_job,
  lowest-front, lowest-empty, front_id,
}
use collapsarr.Jobs.Line.Joins.{Represents-enqueue, Represents-bump}

-- A new job is pending, and its id is new.
abbrev pub IsLegal : Request → JobQueue → Type 0
IsLegal (adds job) q = (is_pending job ≡ true) × (find_job job.id q.jobs ≡ none)
IsLegal (bumps i) q = Unit
IsLegal (cancels i) q = Unit
IsLegal (starts i now) q = Unit
IsLegal (asks now) q = Unit

claimed-Represents :
    (jobs : List Job) (next : ℤ) (line : List Job)
    → Represents jobs next line
    → (now : ℕ) (job : Job)
    → Represents (put_job (claimed_job now job) jobs) next (without job.id line)
unfolding is_pending claimed_job
claimed-Represents jobs next line r now job =
    Represents-put_job jobs next line r (claimed_job now job) refl

list_cases : (js : List Job) → (js ≡ []) ⊎ ((j : Job) × (ks : List Job) × (js ≡ j ∷ ks))
list_cases [] = inl refl
list_cases (j ∷ js) = inr (j, js, refl)

-- A line that stands for the queue after a request, and the two replies.
abbrev pub Answers : List ℕ × Reply → JobQueue × Reply → Type 0
Answers spec end =
    (after : List Job) × Represents end.0.jobs end.0.next_priority after
    × (job_ids after ≡ spec.0)
    × (end.1 ≡ spec.1)
    × (end.0.is_shutdown ≡ false)

-- Whether the id's job is pending, and with that whether it stands in the line.
data Standing (i : ℕ) (q : JobQueue) (is : List ℕ) : Type 0 where
  pends :
      (job : Job)
      → find_job i q.jobs ≡ some job
      → is_pending job ≡ true
      → stands_in i is ≡ true
      → Standing i q is
  gone : find_job i q.jobs ≡ none → stands_in i is ≡ false → Standing i q is
  busy :
      (job : Job)
      → find_job i q.jobs ≡ some job
      → is_pending job ≡ false
      → stands_in i is ≡ false
      → Standing i q is

module _ (q : JobQueue) (line : List Job) (r : Represents q.jobs q.next_priority line)
    (up : q.is_shutdown ≡ false) where
  standing : (i : ℕ) → Standing i q (job_ids line)
  standing i = elim (Option-cases (find_job i q.jobs)) [
    | inl absent ↦
        Standing.gone absent
          (stands_in-missing q.jobs q.next_priority line r i (λ job found. absurd (cc)))
    | inr (job, found) ↦ elim (Bool-cases (is_pending job)) [
      | inl p ↦
          Standing.pends job found p (stands_in-found q.jobs q.next_priority line r i job found p)
      | inr p ↦
          Standing.busy job found p
            (stands_in-missing q.jobs q.next_priority line r i (λ j e. ground arith))
    ]
  ]

  accepted :
      (request : Request) (end : JobQueue × Reply) (is : List ℕ) (after : List Job)
      → end ≡ handle request q
      → (is, end.1) ≡ serve request (job_ids line)
      → Represents end.0.jobs end.0.next_priority after
      → job_ids after ≡ is
      → end.0.is_shutdown ≡ false
      → Answers (serve request (job_ids line)) (handle request q)
  accepted request end is after e f h same running_on =
      rw (← e, ← f) (after, h, same, refl, running_on)

  -- A request that is refused changes neither side.
  refused :
      (request : Request)
      → (q, done false) ≡ handle request q
      → (job_ids line, done false) ≡ serve request (job_ids line)
      → Answers (serve request (job_ids line)) (handle request q)
  refused request e f = accepted request (q, done false) (job_ids line) line e f r refl up

  bump-Answers : (i : ℕ) → Answers (serve (bumps i) (job_ids line)) (handle (bumps i) q)
  unfolding handle bump_to_front serve
  bump-Answers i = elim (standing i) [
    | Standing.gone absent out ↦ refused (bumps i) (ground arith) (ground arith)
    | Standing.busy job found p out ↦ refused (bumps i) (ground arith) (ground arith)
    | Standing.pends job found p stands ↦
        let front : Job = record job { priority = bumped_priority job q.jobs } in
        let same = find_job-id i q.jobs job found in
        accepted (bumps i) (record q { jobs = put_job front q.jobs }, done true)
          (i ∷ leaves i (job_ids line)) (front ∷ without front.id line) (ground arith)
          (ground arith)
          (Represents-bump q.jobs q.next_priority line r job front
            (subst (λ k. find_job k q.jobs ≡ some job) (sym same) found) p
            (is_pending-priority job (bumped_priority job q.jobs) p) refl)
          (ap (λ is. job.id ∷ is) (job_ids-without job.id line)
            ∙ ap (λ k. k ∷ leaves k (job_ids line)) same)
          up
  ]

  cancel-Answers : (i : ℕ) → Answers (serve (cancels i) (job_ids line)) (handle (cancels i) q)
  unfolding handle cancel serve
  cancel-Answers i = elim (standing i) [
    | Standing.gone absent out ↦
        refused (cancels i) (ground arith) (ground (arith, leaves-missing i (job_ids line)))
    | Standing.busy job found p out ↦
        refused (cancels i) (ground arith) (ground (arith, leaves-missing i (job_ids line)))
    | Standing.pends job found p stands ↦
        accepted (cancels i) (record q { jobs = delete_job i q.jobs }, done true)
          (leaves i (job_ids line)) (without i line) (ground arith) (ground arith)
          (Represents-delete_job q.jobs q.next_priority line r i) (job_ids-without i line) up
  ]

  start-Answers :
      (i now : ℕ) → Answers (serve (starts i now) (job_ids line)) (handle (starts i now) q)
  unfolding handle force_start serve
  start-Answers i now = elim (standing i) [
    | Standing.gone absent out ↦
        refused (starts i now) (ground arith) (ground (arith, leaves-missing i (job_ids line)))
    | Standing.busy job found p out ↦
        refused (starts i now) (ground arith) (ground (arith, leaves-missing i (job_ids line)))
    | Standing.pends job found p stands ↦
        let same = find_job-id i q.jobs job found in
        accepted (starts i now)
          (
            record q {
              jobs = put_job (claimed_job now job) q.jobs;
              active = q.active + 1;
              force_start_threads = q.force_start_threads ++ i ∷ [];
            },
            done true,
          )
          (leaves i (job_ids line)) (without job.id line) (ground arith) (ground arith)
          (claimed-Represents q.jobs q.next_priority line r now job)
          (rw same (job_ids-without i line)) up
  ]

  add-Answers :
      (job : Job)
      → IsLegal (adds job) q
      → Answers (serve (adds job) (job_ids line)) (handle (adds job) q)
  unfolding handle enqueue_job serve is_pending
  add-Answers job (p, fresh) =
      let queued : Job = record job { priority = q.next_priority } in
      (
        line ++ queued ∷ [],
        Represents-enqueue q.jobs q.next_priority line r queued p fresh refl,
        job_ids-append line queued,
        refl,
        up,
      )

  front-Answers :
      (now : ℕ) (first : Job) (rest : List Job)
      → line ≡ first ∷ rest
      → Answers (serve (asks now) (job_ids line)) (handle (asks now) q)
  unfolding handle serve claim_next
  front-Answers now first rest e =
      let found = lowest-front q.jobs q.next_priority line r first rest e in
      accepted (asks now)
        (
          record q { jobs = put_job (claimed_job now first) q.jobs; active = q.active + 1 },
          took (some first.id),
        )
        (job_ids rest) (without first.id line)
        (ap (λ (s : JobQueue × Claim). (s.0, took (claimed_id s.1)))
          (claim_next-takes false now q first up refl found))
        (rw e refl) (claimed-Represents q.jobs q.next_priority line r now first)
        (job_ids-without first.id line
          ∙ rw e (
              ground (
                arith,
                ==_iff first.id first.id,
                leaves-absent first.id rest
                    (λ x m. front_id q.jobs q.next_priority line r first rest x e m),
              )))
        up

  ask-Answers : (now : ℕ) → Answers (serve (asks now) (job_ids line)) (handle (asks now) q)
  unfolding handle serve claim_next
  ask-Answers now = elim (list_cases line) [
    | inl e ↦
        accepted (asks now) (q, took none) [] line
          (ap (λ (s : JobQueue × Claim). (s.0, took (claimed_id s.1)))
            (claim_next-empty false now q up (lowest-empty q.jobs q.next_priority line r e)))
          (rw e refl) r (rw e refl) up
    | inr (first, rest, e) ↦ front-Answers now first rest e
  ]

  pub handle-Answers :
      (request : Request)
      → IsLegal request q
      → Answers (serve request (job_ids line)) (handle request q)
  handle-Answers (adds job) legal = add-Answers job legal
  handle-Answers (bumps i) legal = bump-Answers i
  handle-Answers (cancels i) legal = cancel-Answers i
  handle-Answers (starts i now) legal = start-Answers i now
  handle-Answers (asks now) legal = ask-Answers now
