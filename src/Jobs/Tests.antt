-- ===== src/Jobs/Tests.antt =====
-- Small queues, what the operations do on them, and the theorems at these inputs.
use collapsarr.Common.{
  ℕ, ◌≡◌, refl, ◌⊎◌, ◌↔◌, inl, true, false, none, some, [], ◌∷◌, codes, str_eq, ◌==◌, if◌then◌else◌,
  In, arith,
}
use collapsarr.Common.Int.{pos, suc_ℤ, pred_ℤ}
use collapsarr.Common.Result.{ok, raise, other_error, value_error}
use collapsarr.Downmix.Targets.{stereo, default_settings}
use collapsarr.Downmix.Pipeline.{success, PipelineResult}
use collapsarr.Jobs.Job.{JobStatus, downmix, Job, is_pending, is_running}
use collapsarr.Jobs.Queue.{JobQueue, new_queue, find_job, put_job, delete_job, enqueue_job, cancel}
use collapsarr.Jobs.Queue.Cancel.{cancel_lem}
use collapsarr.Jobs.Pool.{
  pending_jobs, lowest, bumped_priority, bump_to_front, claimed_job, force_start, claims,
  claim_next, has_active_work, count_running,
}
use collapsarr.Jobs.Pool.Claims.{NonePending, Pass, claim_next-Pass}
use collapsarr.Jobs.Pool.Steer.{bump_to_front-claim_next, enqueue_job-claim_next}
use collapsarr.Jobs.Run.{
  text, Kwargs, get_key, GlobalSettings, resolve_pipeline_kwargs, shared_kwargs, auto_key,
  ffmpeg_key, Hook, Hooks, record_history, record_tracked_media, run_pipeline, run_body,
}
use collapsarr.Jobs.Run.Kwargs.{
  or_else, provided, path_value, get_key-resolve_pipeline_kwargs, get_key-shared-resolve,
}
use collapsarr.Jobs.Run.Outcomes.{Settled, Quiet, expected_calls, run_body-Quiet}
use collapsarr.Jobs.Threads.{System, enqueues, takes, Reach, here, next}
use collapsarr.Jobs.Threads.Invariant.{IsSafe}
use collapsarr.Jobs.Threads.Safety.{Reach-IsSafe, has_active_work_iff}
use collapsarr.Jobs.Threads.Lifecycle.{Moves, Step-Moves}

program : Unit {0}
unfolding new_queue find_job put_job delete_job enqueue_job cancel pending_jobs lowest
    bumped_priority bump_to_front claimed_job force_start claim_next has_active_work count_running
    is_pending is_running suc_ℤ pred_ℤ
program = tt

abbrev film : ℕ → Job
film id = record {
  file_path = codes "/media/film.mkv";
  settings = default_settings;
  id = id;
  kind = downmix;
  preference = none;
  priority = pos id;
  status = JobStatus.pending;
  result = none;
  error = none;
  started_at = none;
  ended_at = none;
  cancellation = none;
}

abbrev empty_queue : JobQueue
empty_queue = record {
  max_concurrency = 1;
  jobs = [];
  next_priority = pos 0;
  workers = 0;
  started = false;
  force_start_threads = [];
  is_shutdown = false;
  active = 0;
}

abbrev two_films : JobQueue
two_films = record empty_queue { jobs = film 0 ∷ film 1 ∷ []; next_priority = pos 2 }

new_queue_zero : new_queue 0 ≡ raise value_error
unfolding program
new_queue_zero = refl

claim_next_first : (claim_next false 7 two_films).1 ≡ claims (claimed_job 7 (film 0))
unfolding program
claim_next_first = refl

claim_next_bumped :
    (claim_next false 7 (bump_to_front 1 two_films).0).1
    ≡ claims
        (record (claimed_job 7 (film 1)) { priority = bumped_priority (film 1) two_films.jobs })
unfolding program
claim_next_bumped = refl

force_start_runs : count_running (force_start 7 1 two_films).0 ≡ 1
unfolding program
force_start_runs = refl

claim_next-Pass_example : Pass true 7 two_films (claim_next true 7 two_films)
claim_next-Pass_example = claim_next-Pass true 7 two_films

bump_to_front-claim_next_example :
    (job : Job) × ((claim_next false 7 (bump_to_front 1 two_films).0).1 ≡ claims job)
    × (job.id ≡ 1)
    × (job.started_at ≡ some 7)
unfolding program
bump_to_front-claim_next_example = bump_to_front-claim_next 1 7 two_films refl refl

enqueue_job-claim_next_example :
    (job : Job) × In job two_films.jobs
    × ((claim_next false 7 (enqueue_job (film 2) two_films).0).1 ≡ claims (claimed_job 7 job))
unfolding program
enqueue_job-claim_next_example =
    enqueue_job-claim_next (film 2) 7 two_films (film 0) (λ x m. ground arith) refl refl (inl refl)
      refl

cancel_lem_example :
    (((cancel 1 two_films).1 ≡ true)
      × ((job : Job) × (find_job 1 two_films.jobs ≡ some job) × (is_pending job ≡ true))
      × ((k : ℕ)
          → find_job k (cancel 1 two_films).0.jobs
            ≡ (if 1 == k then none else find_job k two_films.jobs)))
    ⊎ (((cancel 1 two_films).1 ≡ false)
        × ((job : Job) → find_job 1 two_films.jobs ≡ some job → is_pending job ≡ false)
        × ((cancel 1 two_films).0 ≡ two_films))
cancel_lem_example = cancel_lem 1 two_films

abbrev start_state : System
start_state = record { queue = empty_queue; threads = [] }

abbrev queued : JobQueue
queued = (enqueue_job (film 0) empty_queue).0

abbrev claimed : System
claimed = record { queue = (claim_next false 7 queued).0; threads = 0 ∷ [] }

Reach-claimed : Reach start_state claimed
unfolding program
Reach-claimed =
    next (next here (enqueues (film 0) refl refl)) (takes false 7 (claimed_job 7 (film 0)) refl)

new_queue_one : new_queue 1 ≡ ok empty_queue
unfolding program
new_queue_one = refl

Reach-IsSafe_example : IsSafe claimed
Reach-IsSafe_example = Reach-IsSafe 1 empty_queue claimed new_queue_one Reach-claimed

has_active_work_iff_example :
    (has_active_work claimed.queue ≡ false)
    ↔ ((claimed.threads ≡ []) × NonePending claimed.queue.jobs)
has_active_work_iff_example = has_active_work_iff 1 empty_queue claimed new_queue_one Reach-claimed

start_state-IsSafe : IsSafe start_state
start_state-IsSafe = Reach-IsSafe 1 empty_queue start_state new_queue_one here

Step-Moves_example : Moves empty_queue.jobs queued.jobs
unfolding program
Step-Moves_example =
    Step-Moves {s = start_state} {t = record start_state { queue = queued }}
      (enqueues (film 0) refl refl) start_state-IsSafe

abbrev result : PipelineResult
result = record {
  outcome = success;
  success = true;
  detail = codes "done";
  tracks_added = [];
  remux_result = none;
  apply_result = none;
}

abbrev returns : Hook
returns = some (λ _. ok tt)

abbrev quiet_hooks : Hooks
quiet_hooks = record {
  pipeline_runner = λ _ _ _ _. ok result;
  default_audio_pipeline_runner = λ _ _ _ _. raise other_error;
  pipeline_kwargs = [];
  history_recorder = returns;
  failure_notifier = returns;
  tracked_media_recorder = returns;
  plex_analyzer = returns;
  job_terminal_hook = returns;
}

quiet_hooks-Quiet : Quiet quiet_hooks
unfolding record_history record_tracked_media
quiet_hooks-Quiet = record { history_returns = λ job. refl; tracked_returns = λ job. ground arith }

run_body-Quiet_example :
    (done : Job) × (run_body quiet_hooks 9 (claimed_job 7 (film 0))
      ≡ (done, (expected_calls quiet_hooks (claimed_job 7 (film 0)) done, ok tt)))
    × Settled 9 (claimed_job 7 (film 0)) (run_pipeline quiet_hooks (claimed_job 7 (film 0))) done
run_body-Quiet_example = run_body-Quiet quiet_hooks 9 (claimed_job 7 (film 0)) quiet_hooks-Quiet

abbrev broken_hooks : Hooks
broken_hooks = record quiet_hooks { history_recorder = some (λ _. raise other_error) }

abbrev row : GlobalSettings
row = record {
  default_tracked = true;
  recently_processed_window_minutes = 60;
  auto_queue_paused = false;
  auto_set_default_audio = true;
  default_audio_language = some (codes "eng");
  default_audio_channel_tier = some stereo;
  ffmpeg_path = some (codes "/opt/ffmpeg");
}

abbrev pinned : Kwargs
pinned = (ffmpeg_key, text (codes "/usr/bin/ffmpeg")) ∷ []

get_key-resolve_pipeline_kwargs_example :
    get_key ffmpeg_key (resolve_pipeline_kwargs pinned row)
    ≡ or_else (get_key ffmpeg_key pinned) (provided row ffmpeg_key)
get_key-resolve_pipeline_kwargs_example = get_key-resolve_pipeline_kwargs ffmpeg_key pinned row

get_key-shared-resolve_example :
    get_key auto_key (shared_kwargs (resolve_pipeline_kwargs pinned row)) ≡ (
      if str_eq auto_key ffmpeg_key
      then or_else (get_key ffmpeg_key pinned) (path_value row.ffmpeg_path)
      else none)
get_key-shared-resolve_example = get_key-shared-resolve auto_key pinned row
