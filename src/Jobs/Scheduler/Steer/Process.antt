-- ===== src/Jobs/Scheduler/Steer/Process.antt =====
-- What "Process Now" returns.
use collapsarr.Common.{
  ℕ, ◌≡◌, refl, sym, ap, ◌∙◌, subst, inl, inr, true, false, Option, none, some, List, [], ◌∷◌, Str,
  str_eq, str_eq_iff, ==_iff, In, Bool-cases, arith,
}
use collapsarr.Common.Result.{Exception, Result, ok, raise}
use collapsarr.Jobs.Job.{Job, is_pending, is_running}
use collapsarr.Jobs.Queue.{JobQueue, find_job, put_job, get_job}
use collapsarr.Jobs.Queue.Lookup.{HasKeysOnce, find_job-put_job, find_job_of-In}
use collapsarr.Jobs.Pool.{claimed_job, force_start}
use collapsarr.Jobs.Scheduler.Active.{is_active_for, find_active_job}
use collapsarr.Jobs.Scheduler.Store.{Store, World, after_action}
use collapsarr.Jobs.Scheduler.Enqueue.{
  trigger_file, settings_with_extra_languages, EnqueueRequest, no_source,
}
use collapsarr.Jobs.Scheduler.Enqueue.Effect.{
  IsWanted, EnqueueEnd, declined, raised, added, enqueue_file-EnqueueEnd,
}
use collapsarr.Jobs.Scheduler.Steer.{
  settled_job_or_none, start_now, start_new, process_active, process_now,
}

find_active_job-lem :
    (path : Str) (jobs : List Job) (job : Job)
    → find_active_job path jobs ≡ some job
    → In job jobs × (is_active_for path job ≡ true)
unfolding find_active_job
find_active_job-lem path [] job e = ground arith
find_active_job-lem path (j ∷ jobs) job e = elim (Bool-cases (is_active_for path j)) [
  | inl busy ↦ (ground arith, ground arith)
  | inr idle ↦ let (i, a) = find_active_job-lem path jobs job (ground arith) in (inr i, a)
]

-- No job waits or runs for the path.
abbrev pub IsIdle : Str → List Job → Type 0
IsIdle path jobs =
    (job : Job)
    → In job jobs
    → job.file_path ≡ path
    → (is_pending job ≡ false) × (is_running job ≡ false)

find_active_job-none :
    (path : Str) (jobs : List Job) → find_active_job path jobs ≡ none → IsIdle path jobs
unfolding find_active_job is_active_for
find_active_job-none path [] e job i same = absurd i
find_active_job-none path (j ∷ jobs) e job (inl at) same =
    let here : str_eq job.file_path path ≡ true = (str_eq_iff job.file_path path).1 same in
    ground arith
find_active_job-none path (j ∷ jobs) e job (inr i) same =
    find_active_job-none path jobs (ground arith) job i same

active-running :
    (path : Str) (job : Job)
    → is_active_for path job ≡ true
    → is_pending job ≡ false
    → is_running job ≡ true
unfolding is_active_for
active-running path job e p = ground arith

-- The request of `trigger_file` for a path.
abbrev pub trigger_request : World → Str → EnqueueRequest
trigger_request world path = record {
  file_path = path;
  settings = some (settings_with_extra_languages world.downmix_settings []);
  ids = no_source;
  respect_tracked = false;
  bypass_dedup_window = true;
}

-- What a call of `process_now` for `path` may give back.
pub data ProcessEnd (world : World) (path : Str) (s : Store)
    : Store × Result (Option Job) → Type 0 where
  -- The job is on the queue, and runs the path.
  processed :
      (t : Store) (job : Job)
      → find_job job.id t.queue.jobs ≡ some job
      → job.file_path ≡ path
      → is_running job ≡ true
      → ProcessEnd world path s (t, ok (some job))
  -- The queue is shutting down.
  too_late : (t : Store) → s.queue.is_shutdown ≡ true → ProcessEnd world path s (t, ok none)
  -- No job waits or runs for the path, and none is to be made.
  unwanted :
      (t : Store)
      → IsIdle path s.queue.jobs
      → ¬ IsWanted world (trigger_request world path) s
      → ProcessEnd world path s (t, ok none)
  -- The probe raised.
  raises :
      (t : Store) (e : Exception) → IsIdle path s.queue.jobs → ProcessEnd world path s (t, raise e)

active-path : (path : Str) (job : Job) → is_active_for path job ≡ true → job.file_path ≡ path
unfolding is_active_for
active-path path job e = (str_eq_iff job.file_path path).0 (ground arith)

claimed_facts :
    (now : ℕ) (job : Job)
    → ((claimed_job now job).id ≡ job.id)
      × ((claimed_job now job).file_path ≡ job.file_path)
      × (is_running (claimed_job now job) ≡ true)
unfolding claimed_job is_running
claimed_facts now job = (refl, refl, refl)

force_start-claims :
    (now i : ℕ) (q : JobQueue) (job : Job)
    → q.is_shutdown ≡ false
    → find_job i q.jobs ≡ some job
    → is_pending job ≡ true
    → ((force_start now i q).1 ≡ true)
      × ((force_start now i q).0.jobs ≡ put_job (claimed_job now job) q.jobs)
unfolding force_start
force_start-claims now i q job up found p = (ground arith, ground arith)

force_start-shut :
    (now i : ℕ) (q : JobQueue) → q.is_shutdown ≡ true → force_start now i q ≡ (q, false)
unfolding force_start
force_start-shut now i q down = ground arith

module _ (world : World) (path : Str) (s : Store) where
  start_now-ProcessEnd :
      (t : Store) (job : Job)
      → t.queue.is_shutdown ≡ s.queue.is_shutdown
      → find_job job.id t.queue.jobs ≡ some job
      → job.file_path ≡ path
      → is_pending job ≡ true
      → ProcessEnd world path s (start_now world job.id t)
  unfolding start_now settled_job_or_none get_job
  start_now-ProcessEnd t job same_state found p w = elim (Bool-cases t.queue.is_shutdown) [
    | inl down ↦
        rw (force_start-shut world.now job.id t.queue down)
          (rw found (rw w (too_late _ (sym same_state ∙ down))))
    | inr up ↦
        let (started, jobs) = force_start-claims world.now job.id t.queue job up found w in
        let (id, same_path, runs) = claimed_facts world.now job in
        let live : find_job job.id (force_start world.now job.id t.queue).0.jobs
            ≡ some (claimed_job world.now job) =
          ap (find_job job.id) jobs
          ∙ find_job-put_job job.id (claimed_job world.now job) t.queue.jobs
          ∙ rw ((==_iff (claimed_job world.now job).id job.id).1 id) refl in
        rw started (
          rw live (
            processed _ (claimed_job world.now job)
              (subst
                (λ k.
                  find_job k (force_start world.now job.id t.queue).0.jobs
                  ≡ some (claimed_job world.now job))
                (sym id) live)
              (same_path ∙ p) runs))
  ]

  -- Behind `trigger_file` for the same path.
  start_new-ProcessEnd :
      IsIdle path s.queue.jobs
      → world.as_path path ≡ path
      → (answer : Store × Result (Option Job))
      → EnqueueEnd world (trigger_request world path) s answer
      → ProcessEnd world path s (after_action (start_new world) answer)
  unfolding after_action start_new
  start_new-ProcessEnd idle same answer (declined t kept n) = unwanted t idle n
  start_new-ProcessEnd idle same answer (raised t e kept) = raises t e idle
  start_new-ProcessEnd idle same answer (added t job put wanted) =
      start_now-ProcessEnd t job put.is_shutdown
        (ap (find_job job.id) put.jobs
          ∙ find_job-put_job job.id job s.queue.jobs
          ∙ rw ((==_iff job.id job.id).1 refl) refl)
        (put.file_path ∙ same) put.pending

  process_active-ProcessEnd :
      HasKeysOnce s.queue.jobs
      → world.as_path path ≡ path
      → (active : Option Job) → find_active_job path s.queue.jobs ≡ active
      → ProcessEnd world path s (process_active world path active s)
  unfolding process_active trigger_file
  process_active-ProcessEnd once same none e =
      start_new-ProcessEnd (find_active_job-none path s.queue.jobs e) same _
        (enqueue_file-EnqueueEnd world (trigger_request world path) s)
  process_active-ProcessEnd once same (some job) e =
      let (i, busy) = find_active_job-lem path s.queue.jobs job e in
      let found = find_job_of-In job s.queue.jobs once i in
      elim (Bool-cases (is_pending job)) [
        | inl w ↦ rw w (start_now-ProcessEnd s job refl found (active-path path job busy) w)
        | inr w ↦
            rw w
              (processed s job found (active-path path job busy) (active-running path job busy w))
      ]

-- "Process Now" returns a job of the path that is on the queue and running. It returns none only where the queue is shutting down, or
-- where no job of the path waits or runs and the path, with the window bypassed and without the gate of
-- the tracked files, is not wanted; and it raises only where a new job would have been probed for.
-- The dict of jobs has no id twice, and a path made from a path is the same.
pub process_now-ProcessEnd :
    (world : World) (file_path : Str) (s : Store)
    → HasKeysOnce s.queue.jobs
    → world.as_path (world.as_path file_path) ≡ world.as_path file_path
    → ProcessEnd world (world.as_path file_path) s (process_now world file_path s)
unfolding process_now
process_now-ProcessEnd world file_path s once same =
    process_active-ProcessEnd world (world.as_path file_path) s once same _ refl
