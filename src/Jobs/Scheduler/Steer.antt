-- ===== src/Jobs/Scheduler/Steer.antt =====
-- collapsarr/jobs/scheduler.py: cancelling, clearing, bumping, requeueing and starting jobs on demand.
pub mod Clear
pub mod Process
pub mod Requeue
use collapsarr.Common.{
  ℕ, suc, ◌+◌, Bool, true, false, not, Option, none, some, List, [], ◌∷◌, ◌++◌, Str, str_eq, leb,
  if◌then◌else◌,
}
use collapsarr.Common.Result.{Result, ok, raise}
use collapsarr.Downmix.Targets.{has_language}
use collapsarr.Jobs.Job.{JobStatus, failed, downmix, Job, is_pending}
use collapsarr.Jobs.Queue.{JobQueue, get_job, cancel, cancel_running}
use collapsarr.Jobs.Pool.{pending_jobs, bump_to_front, force_start, count_running}
use collapsarr.Jobs.History.{JobHistory, delete_job_history, list_job_history}
use collapsarr.Jobs.Scheduler.Active.{find_active_job}
use collapsarr.Jobs.Scheduler.Store.{Store, World, Action, after_action}
use collapsarr.Jobs.Scheduler.Enqueue.{trigger_file}
use collapsarr.Jobs.Scheduler.TopUp.{top_up}

-- None for an unknown id, else whether the call was in time.
unfoldable pub cancel_known : ℕ → Store → JobQueue × Bool → Store × Option Bool
unfolding delete_job_history
cancel_known i s (q, true) =
    (record s { queue = q; history = (delete_job_history i s.history).0 }, some true)
cancel_known i s (q, false) = (record s { queue = q }, some false)

unfoldable pub cancel_found : ℕ → Store → Option Job → Store × Option Bool
unfolding cancel_known cancel
cancel_found i s none = (s, none)
cancel_found i s (some job) = cancel_known i s (cancel i s.queue)

unfoldable pub cancel_one : ℕ → Store → Store × Option Bool
unfolding get_job cancel_found
cancel_one i s = cancel_found i s (get_job i s.queue)

-- `self.top_up(session=session)`, with an answer behind it.
unfoldable pub then_top_up : {A : Type 0} → World → A → Action A
unfolding top_up after_action
then_top_up world answer s = after_action (λ _ t. (t, ok answer)) (top_up world s)

-- The kill of a job that is not pending; the killed processes are not a part of the answer.
unfoldable pub cancel_claimed :
    World → Store → JobQueue × List ℕ × Bool → Store × Result (Option Bool)
unfolding then_top_up
cancel_claimed world s (q, killed, true) = then_top_up world (some true) (record s { queue = q })
cancel_claimed world s (q, killed, false) = (record s { queue = q }, ok (some false))

unfoldable pub cancel_rest : World → ℕ → Store × Option Bool → Store × Result (Option Bool)
unfolding cancel_running cancel_claimed then_top_up
cancel_rest world i (s, none) = (s, ok none)
cancel_rest world i (s, some true) = then_top_up world (some true) s
cancel_rest world i (s, some false) = cancel_claimed world s (cancel_running i s.queue)

unfoldable pub cancel_job : World → ℕ → Action (Option Bool)
unfolding cancel_one cancel_rest
cancel_job world i s = cancel_rest world i (cancel_one i s)

unfoldable pub bump_job_to_front : ℕ → Store → Store × Option Bool
unfolding get_job bump_to_front
bump_job_to_front i s = elim (get_job i s.queue) [
  | none ↦ (s, none)
  | some job ↦ let (q, moved) = bump_to_front i s.queue in (record s { queue = q }, some moved)
]

unfoldable pub would_exceed_concurrency_limit : Store → Bool
unfolding count_running
would_exceed_concurrency_limit s = leb s.queue.max_concurrency (count_running s.queue)

pub record ClearQueueResult : Type 0 where
  pub cancelled : ℕ
  pub already_running : ℕ

-- `if self._cancel_one(...)`, where None is false.
unfoldable pub count_clear : Option Bool → ClearQueueResult → ClearQueueResult
count_clear (some true) r = record r { cancelled = suc r.cancelled }
count_clear _ r = record r { already_running = suc r.already_running }

unfoldable pub clear_ids : List ℕ → ClearQueueResult → Store → Store × ClearQueueResult
unfolding cancel_one count_clear
clear_ids [] r s = (s, r)
clear_ids (i ∷ is) r s = let (t, answer) = cancel_one i s in clear_ids is (count_clear answer r) t

unfoldable pub pending_ids : List Job → List ℕ
unfolding is_pending
pending_ids [] = []
pending_ids (job ∷ jobs) =
    let rest = pending_ids jobs in if is_pending job then job.id ∷ rest else rest

unfoldable pub clear_queue : World → Action ClearQueueResult
unfolding clear_ids pending_ids then_top_up
clear_queue world s =
    let (t, r) =
      clear_ids (pending_ids s.queue.jobs) (record { cancelled = 0; already_running = 0 }) s in
    then_top_up world r t

-- `force_start` in the job queue, and `_settled_job_or_none` on the job object, which is the entry
-- of the dict.
unfoldable pub settled_job_or_none : Bool → Option Job → Option Job
unfolding is_pending
settled_job_or_none started none = none
settled_job_or_none true (some job) = some job
settled_job_or_none false (some job) = if is_pending job then none else some job

unfoldable pub start_now : World → ℕ → Action (Option Job)
unfolding force_start get_job settled_job_or_none
start_now world i s =
    let (q, started) = force_start world.now i s.queue in
    (record s { queue = q }, ok (settled_job_or_none started (get_job i q)))

unfoldable pub start_new : World → Option Job → Action (Option Job)
unfolding start_now
start_new world none s = (s, ok none)
start_new world (some job) s = start_now world job.id s

unfoldable pub process_active : World → Str → Option Job → Action (Option Job)
unfolding is_pending start_now trigger_file start_new after_action
process_active world path (some job) s =
    if is_pending job then start_now world job.id s else (s, ok (some job))
process_active world path none s =
    after_action (start_new world) (trigger_file world path [] true s)

unfoldable pub process_now : World → Str → Action (Option Job)
unfolding find_active_job process_active
process_now world file_path s =
    let path = world.as_path file_path in
    process_active world path (find_active_job path s.queue.jobs) s

pub record BulkRequeueResult : Type 0 where
  pub requeued : List Job
  pub skipped : List Str

unfoldable pub note_requeue : Str → BulkRequeueResult → Option Job → BulkRequeueResult
note_requeue path r none = record r { skipped = r.skipped ++ path ∷ [] }
note_requeue path r (some job) = record r { requeued = r.requeued ++ job ∷ [] }

-- The loop over the failed rows; `seen` is a set.
unfoldable pub requeue_rows :
    World → List Str → List JobHistory → BulkRequeueResult → Action BulkRequeueResult
unfolding has_language trigger_file note_requeue after_action
requeue_rows world seen [] r s = (s, ok r)
requeue_rows world seen (row ∷ rows) r s =
    if has_language seen row.file_path
    then requeue_rows world seen rows r s
    else after_action
        (λ job. requeue_rows world (row.file_path ∷ seen) rows (note_requeue row.file_path r job))
        (trigger_file world row.file_path [] false s)

unfoldable pub requeue_all_failed : World → Action BulkRequeueResult
unfolding list_job_history requeue_rows
requeue_all_failed world s =
    requeue_rows world [] (list_job_history none (some failed) (some downmix) s.history)
      (record { requeued = []; skipped = [] }) s
