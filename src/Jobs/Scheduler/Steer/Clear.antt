-- ===== src/Jobs/Scheduler/Steer/Clear.antt =====
-- What "Clear queue" removes, and what it leaves.
use collapsarr.Common.{
  ℕ, suc, ◌+◌, ◌≡◌, refl, sym, ap, ◌∙◌, subst, inl, inr, true, false, none, some, List, [], ◌∷◌,
  ◌==◌, ==_iff, if◌then◌else◌, length, Bool-cases, arith,
}
use collapsarr.Jobs.Job.{Job, is_pending}
use collapsarr.Jobs.Queue.{JobQueue, find_job, delete_job, get_job, cancel}
use collapsarr.Jobs.Queue.Lookup.{HasKeysOnce, delete_job-HasKeysOnce}
use collapsarr.Jobs.Pool.{count_jobs}
use collapsarr.Jobs.History.{delete_job_history}
use collapsarr.Jobs.Scheduler.Active.{count_pending}
use collapsarr.Jobs.Scheduler.Store.{Store, World}
use collapsarr.Jobs.Scheduler.Steer.{
  cancel_known, cancel_found, cancel_one, then_top_up, ClearQueueResult, count_clear, clear_ids,
  pending_ids, clear_queue,
}

-- The jobs that do not wait.
abbrev pub claimed_jobs : List Job → List Job
claimed_jobs [] = []
claimed_jobs (job ∷ jobs) =
    let rest = claimed_jobs jobs in if is_pending job then rest else job ∷ rest

delete_job-absent : (i : ℕ) (jobs : List Job) → find_job i jobs ≡ none → delete_job i jobs ≡ jobs
unfolding find_job delete_job
delete_job-absent i [] e = refl
delete_job-absent i (j ∷ jobs) e = ground (arith, delete_job-absent i jobs)

-- What is known of the first waiting job of a dict.
record FirstPending (i : ℕ) (is : List ℕ) (jobs : List Job) : Type 0 where
  job : Job
  found : find_job i jobs ≡ some job
  waits : is_pending job ≡ true
  rest : pending_ids (delete_job i jobs) ≡ is
  others : claimed_jobs (delete_job i jobs) ≡ claimed_jobs jobs

first_pending :
    (i : ℕ) (is : List ℕ) (jobs : List Job)
    → HasKeysOnce jobs
    → pending_ids jobs ≡ i ∷ is
    → FirstPending i is jobs
unfolding find_job delete_job pending_ids
first_pending i is [] once e = absurd (ground arith)
first_pending i is (j ∷ jobs) once e = elim (Bool-cases (is_pending j)) [
  | inl p ↦
      let same : j.id ≡ i = ground arith in
      let absent : find_job i jobs ≡ none = subst (λ k. find_job k jobs ≡ none) same once.0 in
      let at : (j.id == i) ≡ true = (==_iff j.id i).1 same in
      record {
        job = j;
        found = ground arith;
        waits = p;
        rest = rw at (rw (delete_job-absent i jobs absent) (ground arith));
        others = rw at (rw (delete_job-absent i jobs absent) (ground arith));
      }
  | inr p ↦
      let later = first_pending i is jobs once.1 (ground arith) in
      let other : (j.id == i) ≡ false = ground (arith, ==_iff j.id i, later.found, once.0) in
      record {
        job = later.job;
        found = rw other later.found;
        waits = later.waits;
        rest = rw other (rw p later.rest);
        others = rw other (rw p (ap (λ js. j ∷ js) later.others));
      }
]

none_pending : (jobs : List Job) → pending_ids jobs ≡ [] → jobs ≡ claimed_jobs jobs
unfolding pending_ids
none_pending [] e = refl
none_pending (j ∷ jobs) e = elim (Bool-cases (is_pending j)) [
  | inl p ↦ ground arith
  | inr p ↦ rw p (ap (λ js. j ∷ js) (none_pending jobs (ground arith)))
]

cancel-pending :
    (i : ℕ) (q : JobQueue) (job : Job)
    → find_job i q.jobs ≡ some job
    → is_pending job ≡ true
    → cancel i q ≡ (record q { jobs = delete_job i q.jobs }, true)
unfolding cancel
cancel-pending i q job found p = ground arith

-- The store behind the cancellation of the first waiting job.
cancel_one-pending :
    (i : ℕ) (is : List ℕ) (s : Store)
    → FirstPending i is s.queue.jobs
    → (t : Store) × (cancel_one i s ≡ (t, some true)) × (t.queue.jobs ≡ delete_job i s.queue.jobs)
unfolding cancel_one cancel_found cancel_known get_job
cancel_one-pending i is s first = (
  record s {
    queue = record (s.queue) { jobs = delete_job i s.queue.jobs };
    history = (delete_job_history i s.history).0;
  },
  rw first.found (rw (cancel-pending i s.queue first.job first.found first.waits) refl),
  refl,
)

-- What the loop leaves: the jobs that did not wait, in their order.
pub record IsCleared (s : Store) (r : ClearQueueResult) (n : ℕ) (end : Store × ClearQueueResult)
    : Type 0 where
  pub jobs : end.0.queue.jobs ≡ claimed_jobs s.queue.jobs
  pub cancelled : end.1.cancelled ≡ r.cancelled + n
  pub already_running : end.1.already_running ≡ r.already_running

clear_ids-IsCleared :
    (is : List ℕ) (r : ClearQueueResult) (s : Store)
    → HasKeysOnce s.queue.jobs
    → pending_ids s.queue.jobs ≡ is
    → IsCleared s r (length is) (clear_ids is r s)
unfolding clear_ids count_clear
clear_ids-IsCleared [] r s once e = record {
  jobs = none_pending s.queue.jobs e;
  cancelled = omega arith;
  already_running = refl;
}
clear_ids-IsCleared (i ∷ is) r s once e =
    let first = first_pending i is s.queue.jobs once e in
    let (t, same, deleted) = cancel_one-pending i is s first in
    let rest =
      clear_ids-IsCleared is (record r { cancelled = suc r.cancelled }) t
        (subst HasKeysOnce (sym deleted) (delete_job-HasKeysOnce i s.queue.jobs once))
        (ap pending_ids deleted ∙ first.rest) in
    rw same (record {
      jobs = rest.jobs ∙ ap claimed_jobs deleted ∙ first.others;
      cancelled = omega (arith, rest.cancelled);
      already_running = rest.already_running;
    })

length-pending_ids : (jobs : List Job) → length (pending_ids jobs) ≡ count_pending jobs
unfolding pending_ids count_pending count_jobs
length-pending_ids [] = refl
length-pending_ids (j ∷ jobs) = ground (arith, length-pending_ids jobs)

-- `clear_queue`, where no worker acts in between, cancels every pending job and no other: it leaves the
-- jobs that are running or done as they are, in their order, counts as many cancelled ones as were
-- pending and none that were too late, and then tops the queue up once.
pub clear_queue-cleared :
    (world : World) (s : Store)
    → HasKeysOnce s.queue.jobs
    → (t : Store) × (r : ClearQueueResult) × (clear_queue world s ≡ then_top_up world r t)
      × (t.queue.jobs ≡ claimed_jobs s.queue.jobs)
      × (r.cancelled ≡ count_pending s.queue.jobs)
      × (r.already_running ≡ 0)
unfolding clear_queue
clear_queue-cleared world s once =
    let ids = pending_ids s.queue.jobs in
    let start : ClearQueueResult = record { cancelled = 0; already_running = 0 } in
    let cleared = clear_ids-IsCleared ids start s once refl in
    (
      (clear_ids ids start s).0,
      (clear_ids ids start s).1,
      refl,
      cleared.jobs,
      omega (arith, cleared.cancelled, length-pending_ids s.queue.jobs),
      cleared.already_running,
    )
