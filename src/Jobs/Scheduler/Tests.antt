-- ===== src/Jobs/Scheduler/Tests.antt =====
-- A small store, what the scheduler does with it, and the theorems at these inputs.
use collapsarr.Common.{
  ℕ, ◌+◌, ◌≤◌, ◌<◌, ◌≡◌, refl, ◌⊎◌, true, false, none, some, List, [], ◌∷◌, map, Str, codes, str_eq,
  arith,
}
use collapsarr.Common.Int.{pos}
use collapsarr.Common.Result.{ok}
use collapsarr.Downmix.Stream.{AudioStreamInfo}
use collapsarr.Downmix.Targets.{stereo, default_settings, has_language}
use collapsarr.Arr.Paths.{MonitoredFile}
use collapsarr.Media.Rows.{MediaTables}
use collapsarr.Jobs.Job.{JobStatus, failed, downmix, Job, is_pending}
use collapsarr.Jobs.Queue.{JobQueue, new_queue, find_job, put_job, enqueue_job}
use collapsarr.Jobs.Pool.{any_job, count_jobs, put_jobs, rehydrate, seed_next_priority}
use collapsarr.Jobs.Run.{GlobalSettings}
use collapsarr.Jobs.History.{JobHistory, list_job_history, passes, status_eq, kind_eq}
use collapsarr.Jobs.Scheduler.Active.{is_active_for, is_active, count_pending}
use collapsarr.Jobs.Scheduler.Guard.{Guarded, checks, adds, GuardReach, here, next}
use collapsarr.Jobs.Scheduler.Guard.Fewer.{active_count}
use collapsarr.Jobs.Scheduler.Guard.Once.{new_queue-once, GuardReach-once}
use collapsarr.Jobs.Threads.{System, seeds, rehydrates}
use collapsarr.Jobs.Threads.Invariant.{IsSafe}
use collapsarr.Jobs.Threads.Safety.{Step-IsSafe}
use collapsarr.Jobs.Scheduler.Store.{Store, World, after_action}
use collapsarr.Jobs.Scheduler.Enqueue.{
  EnqueueRequest, no_source, is_duplicate, is_recently_processed, any_recent, is_recent,
  is_terminal, enqueue_file, trigger_file,
}
use collapsarr.Jobs.Scheduler.Enqueue.Effect.{EnqueueEnd, enqueue_file-EnqueueEnd}
use collapsarr.Jobs.Scheduler.TopUp.{auto_queue_limit, top_up}
use collapsarr.Jobs.Scheduler.TopUp.Bound.{top_up-limit}
use collapsarr.Jobs.Scheduler.Steer.{
  then_top_up, ClearQueueResult, clear_queue, requeue_rows, requeue_all_failed, process_now,
  note_requeue,
}
use collapsarr.Jobs.Scheduler.Steer.Clear.{claimed_jobs, clear_queue-cleared}
use collapsarr.Jobs.Scheduler.Steer.Process.{ProcessEnd, process_now-ProcessEnd}
use collapsarr.Jobs.Scheduler.Steer.Requeue.{IsAccounted, requeue_all_failed-IsAccounted}
use collapsarr.Jobs.Scheduler.DefaultAudio.{trigger_set_default_audio}
use collapsarr.Jobs.Scheduler.DefaultAudio.Needed.{DefaultAudioEnd, trigger-DefaultAudioEnd}

abbrev film_path : Str
film_path = codes "/media/film.mkv"

abbrev surround : List AudioStreamInfo
surround =
    record {
      index = 1;
      codec = codes "ac3";
      channels = 6;
      channel_layout = codes "5.1(side)";
      language = codes "eng";
      is_default = true;
    }
    ∷ []

abbrev film : ℕ → JobStatus → Job
film id status = record {
  file_path = film_path;
  settings = default_settings;
  id = id;
  kind = downmix;
  preference = none;
  priority = pos id;
  status = status;
  result = none;
  error = none;
  started_at = none;
  ended_at = none;
  cancellation = none;
}

abbrev queue_of : List Job → JobQueue
queue_of jobs = record {
  max_concurrency = 1;
  jobs = jobs;
  next_priority = pos 9;
  workers = 1;
  started = true;
  force_start_threads = [];
  is_shutdown = false;
  active = 0;
}

abbrev settings_row : GlobalSettings
settings_row = record {
  default_tracked = true;
  recently_processed_window_minutes = 60;
  auto_queue_paused = false;
  auto_set_default_audio = false;
  default_audio_language = some (codes "eng");
  default_audio_channel_tier = some stereo;
  ffmpeg_path = none;
}

-- A job for the film that failed at the time 5.
abbrev failed_row : JobHistory
failed_row = record {
  job_id = some 1;
  file_path = film_path;
  status = failed;
  kind = downmix;
  priority = pos 0;
  started_at = some 4;
  ended_at = some 5;
  exit_code = none;
  error_text = none;
  target = some (codes "stereo");
  language = none;
}

abbrev no_media : MediaTables
no_media = record { files = []; statuses = []; next_id = 1 }

abbrev store : List Job → List JobHistory → Store
store jobs history = record {
  queue = queue_of jobs;
  history = history;
  media = no_media;
  settings = settings_row;
  nodes = [];
  instances = record { id = 1 } ∷ [];
  mappings = [];
  ids = 0;
}

abbrev film_file : MonitoredFile
film_file = record {
  instance_id = 1;
  file_path = film_path;
  sonarr_episode_id = none;
  radarr_movie_id = some 3;
}

-- An hour and a half behind the failure.
abbrev world : World
world = record {
  downmix_settings = default_settings;
  probe = λ path. ok surround;
  fetch_monitored_files = λ i. ok (film_file ∷ []);
  as_path = λ path. path;
  uuid = λ n. n + 10;
  text = λ e. [];
  now = 5400000005;
}

-- One second behind it.
abbrev soon : World
soon = record world { now = 1000005 }

abbrev film_request : EnqueueRequest
film_request = record {
  file_path = film_path;
  settings = none;
  ids = no_source;
  respect_tracked = true;
  bypass_dedup_window = false;
}

waiting_film : is_duplicate world film_path true (store (film 1 JobStatus.pending ∷ []) []) ≡ true
unfolding is_duplicate is_active any_job is_active_for is_pending str_eq
waiting_film = refl

failed_film_soon : is_recently_processed soon film_path (store [] (failed_row ∷ [])) ≡ true
unfolding is_recently_processed any_recent is_recent is_terminal list_job_history passes str_eq
failed_film_soon = refl

failed_film_later : is_recently_processed world film_path (store [] (failed_row ∷ [])) ≡ false
unfolding is_recently_processed any_recent is_recent is_terminal list_job_history passes str_eq
failed_film_later = refl

enqueue_file-EnqueueEnd_example :
    EnqueueEnd world film_request
      (store [] (failed_row ∷ []))
      (enqueue_file world film_request (store [] (failed_row ∷ [])))
enqueue_file-EnqueueEnd_example =
    enqueue_file-EnqueueEnd world film_request (store [] (failed_row ∷ []))

top_up-limit_example :
    (((settings_row.auto_queue_paused ≡ true)
        ⊎ (auto_queue_limit ≤ count_pending (film 1 JobStatus.pending ∷ [])))
      × (top_up world (store (film 1 JobStatus.pending ∷ []) [])
          ≡ (store (film 1 JobStatus.pending ∷ []) [], ok [])))
    ⊎ ((count_pending (film 1 JobStatus.pending ∷ []) < auto_queue_limit)
        × (count_pending (top_up world (store (film 1 JobStatus.pending ∷ []) [])).0.queue.jobs
            ≤ auto_queue_limit))
top_up-limit_example = top_up-limit world (store (film 1 JobStatus.pending ∷ []) [])

clear_queue-cleared_example :
    (t : Store) × (r : ClearQueueResult) × (clear_queue world
        (store (film 1 JobStatus.running ∷ film 2 JobStatus.pending ∷ []) [])
      ≡ then_top_up world r t)
    × (t.queue.jobs ≡ claimed_jobs (film 1 JobStatus.running ∷ film 2 JobStatus.pending ∷ []))
    × (r.cancelled ≡ count_pending (film 1 JobStatus.running ∷ film 2 JobStatus.pending ∷ []))
    × (r.already_running ≡ 0)
unfolding find_job
clear_queue-cleared_example =
    clear_queue-cleared world (store (film 1 JobStatus.running ∷ film 2 JobStatus.pending ∷ []) [])
      (refl, (refl, tt))

process_now-ProcessEnd_example :
    ProcessEnd world film_path
      (store (film 1 JobStatus.pending ∷ []) [])
      (process_now world film_path (store (film 1 JobStatus.pending ∷ []) []))
unfolding find_job
process_now-ProcessEnd_example =
    process_now-ProcessEnd world film_path (store (film 1 JobStatus.pending ∷ []) []) (refl, tt)
      refl

-- Two rows of one file that failed a second ago.
abbrev failed_twice : Store
failed_twice = store [] (failed_row ∷ failed_row ∷ [])

requeue_all_failed-IsAccounted_example :
    IsAccounted soon failed_twice failed_twice []
      (map
        (λ row. row.file_path)
        (list_job_history none (some failed) (some downmix) failed_twice.history))
      (record { requeued = []; skipped = film_path ∷ [] })
unfolding requeue_all_failed requeue_rows trigger_file enqueue_file is_duplicate is_active any_job
    is_recently_processed any_recent is_recent is_terminal list_job_history passes status_eq kind_eq
    str_eq has_language note_requeue after_action
requeue_all_failed-IsAccounted_example =
    requeue_all_failed-IsAccounted soon failed_twice failed_twice
      (record { requeued = []; skipped = film_path ∷ [] }) refl

trigger-DefaultAudioEnd_example :
    DefaultAudioEnd world film_path true
      (store [] [])
      (trigger_set_default_audio world film_path true (store [] []))
trigger-DefaultAudioEnd_example = trigger-DefaultAudioEnd world film_path true (store [] [])

abbrev one_worker : JobQueue
one_worker = record {
  max_concurrency = 1;
  jobs = [];
  next_priority = pos 0;
  workers = 0;
  started = false;
  force_start_threads = [];
  is_shutdown = false;
  active = 0;
}

-- The queue is rehydrated with a job of another film.
abbrev other_film : Job
other_film = record (film 2 JobStatus.pending) { file_path = codes "/media/other.mkv" }

abbrev restored : System
restored = record {
  queue = rehydrate (other_film ∷ []) (seed_next_priority (pos 9) one_worker);
  threads = [];
}

restored-IsSafe : IsSafe restored
unfolding new_queue is_pending find_job seed_next_priority
restored-IsSafe =
    Step-IsSafe (rehydrates (other_film ∷ []) ((refl, refl, omega arith), tt))
      (Step-IsSafe (seeds (pos 9)) (new_queue-once 1 one_worker refl).0)

restored-once : (path : Str) → active_count path restored.queue.jobs ≤ 1
unfolding rehydrate put_jobs put_job count_jobs seed_next_priority
restored-once path = ground arith

abbrev film_added : Guarded
film_added = record {
  system = record restored { queue = (enqueue_job (film 1 JobStatus.pending) restored.queue).0 };
  holder = none;
}

-- The lock is taken, the film is tested and enqueued.
film_steps : GuardReach (record { system = restored; holder = none }) film_added
unfolding is_active is_active_for any_job is_pending find_job rehydrate put_jobs put_job str_eq
    seed_next_priority
film_steps =
    next (next here (checks film_path refl refl)) (adds (film 1 JobStatus.pending) refl refl refl)

GuardReach-once_example : active_count film_path film_added.system.queue.jobs ≤ 1
GuardReach-once_example =
    GuardReach-once restored film_added film_path restored-IsSafe restored-once film_steps
