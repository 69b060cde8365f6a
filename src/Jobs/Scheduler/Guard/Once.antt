-- ===== src/Jobs/Scheduler/Guard/Once.antt =====
-- No path ever has two jobs that wait or run.
use collapsarr.Common.{
  ℕ, ◌+◌, ◌≤◌, ◌≡◌, refl, sym, ap, ◌∙◌, subst, inl, inr, Bool, false, none, some, List, [], Str,
  str_eq, str_eq_iff, Bool-cases, arith,
}
use collapsarr.Common.Result.{ok}
use collapsarr.Jobs.Job.{Job}
use collapsarr.Jobs.Queue.{JobQueue, new_queue, find_job, enqueue_job}
use collapsarr.Jobs.Pool.{count_jobs}
use collapsarr.Jobs.Threads.{System, enqueues}
use collapsarr.Jobs.Threads.Invariant.{IsSafe}
use collapsarr.Jobs.Threads.Safety.{Step-IsSafe, new_queue-IsSafe}
use collapsarr.Jobs.Scheduler.Active.{
  is_active_for, is_active, one_if, count_jobs-put_new, any_job-count,
}
use collapsarr.Jobs.Scheduler.Guard.{
  Guarded, GuardStep, checks, declines, adds, acts, GuardReach, here, next,
}
use collapsarr.Jobs.Scheduler.Guard.Fewer.{active_count, Step-Fewer}

pub record IsGuarded (g : Guarded) : Type 0 where
  pub safe : IsSafe g.system
  pub once : (path : Str) → active_count path g.system.queue.jobs ≤ 1
  pub free : (path : Str) → g.holder ≡ some path → active_count path g.system.queue.jobs ≡ 0

injective : (a b : Str) → some a ≡ some b → a ≡ b
injective a b e = ground arith

is_active-count :
    (path : Str) (jobs : List Job) → is_active path jobs ≡ false → active_count path jobs ≡ 0
unfolding is_active
is_active-count path jobs e = any_job-count (is_active_for path) jobs e

-- Another path has no part in a job.
other_path :
    (path : Str) (job : Job) → str_eq job.file_path path ≡ false → is_active_for path job ≡ false
unfolding is_active_for
other_path path job e = rw e refl

added_count :
    (path : Str) (job : Job) (q : JobQueue)
    → find_job job.id q.jobs ≡ none
    → active_count path (enqueue_job job q).0.jobs
      ≡ active_count path q.jobs
        + one_if (is_active_for path (record job { priority = q.next_priority }))
unfolding enqueue_job
added_count path job q fresh =
    count_jobs-put_new (is_active_for path) (record job { priority = q.next_priority }) q.jobs fresh

one_if_le : (b : Bool) → one_if b ≤ 1
one_if_le b = ground arith

GuardStep-IsGuarded : {g h : Guarded} → GuardStep g h → IsGuarded g → IsGuarded h
GuardStep-IsGuarded {g} (checks path e idle) i = record {
  safe = i.safe;
  once = i.once;
  free = λ p h.
      subst (λ k. active_count k g.system.queue.jobs ≡ 0) (injective path p h)
        (is_active-count path g.system.queue.jobs idle);
}
GuardStep-IsGuarded {g} declines i = record {
  safe = i.safe;
  once = i.once;
  free = λ p h. absurd (ground arith);
}
GuardStep-IsGuarded {g} (adds job e p fresh) i = record {
  safe = Step-IsSafe (enqueues job p fresh) i.safe;
  once = λ path. elim (Bool-cases (str_eq job.file_path path)) [
    | inl same ↦ omega (
      arith,
      added_count path job g.system.queue fresh,
      i.free path (e ∙ ap (λ k. some k) ((str_eq_iff job.file_path path).0 same)),
      one_if_le (is_active_for path (record job { priority = g.system.queue.next_priority })),
    )
    | inr other ↦ omega (
      arith,
      added_count path job g.system.queue fresh,
      i.once path,
      ap one_if (other_path path (record job { priority = g.system.queue.next_priority }) other),
    )
  ];
  free = λ p h. absurd (ground arith);
}
GuardStep-IsGuarded {g} (acts step e) i = record {
  safe = Step-IsSafe step i.safe;
  once = λ path. omega (arith, Step-Fewer step e i.safe.entries.once path, i.once path);
  free = λ path h. omega (arith, Step-Fewer step e i.safe.entries.once path, i.free path h);
}

GuardReach-IsGuarded : {g h : Guarded} → GuardReach g h → IsGuarded g → IsGuarded h
GuardReach-IsGuarded here i = i
GuardReach-IsGuarded (next r step) i = GuardStep-IsGuarded step (GuardReach-IsGuarded r i)

-- A new queue is safe and empty.
pub new_queue-once :
    (n : ℕ) (q : JobQueue)
    → new_queue n ≡ ok q
    → IsSafe (record { queue = q; threads = [] }) × ((path : Str) → active_count path q.jobs ≤ 1)
unfolding new_queue count_jobs
new_queue-once n q e =
    let empty : q.jobs ≡ [] = ground arith in
    (
      new_queue-IsSafe n q e,
      λ path. subst (λ js. active_count path js ≤ 1) (sym empty) (omega arith),
    )

-- However the threads interleave, no path ever has two jobs that are pending or running, of whatever
-- kind, provided that: at the start, which may be a rehydrated queue, no path has two, no thread holds
-- the enqueue lock, and the invariant of the threads holds; every enqueue is made by the holder of the
-- lock, behind the test of its path, under an id that is not in use; and nothing is rehydrated later.
pub GuardReach-once :
    (system : System) (g : Guarded) (path : Str)
    → IsSafe system
    → ((p : Str) → active_count p system.queue.jobs ≤ 1)
    → GuardReach (record { system = system; holder = none }) g
    → active_count path g.system.queue.jobs ≤ 1
GuardReach-once system g path safe once r =
    (GuardReach-IsGuarded r
        (record { safe = safe; once = once; free = λ p h. absurd (ground arith) })).once
      path
