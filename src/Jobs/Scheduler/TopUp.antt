-- ===== src/Jobs/Scheduler/TopUp.antt =====
-- collapsarr/jobs/scheduler.py: filling the queue up to the Auto-Queue Limit.
pub mod Bound
use collapsarr.Common.{
  ℕ, suc, Bool, true, false, Option, none, some, List, [], ◌∷◌, ◌++◌, Str, leb, if◌then◌else◌,
}
use collapsarr.Common.Result.{Result, ok, raise, http_error}
use collapsarr.Arr.Paths.{
  ArrInstance, RemotePathMapping, MonitoredFile, list_path_mappings, resolve_path,
}
use collapsarr.Media.Rows.{SourceIds}
use collapsarr.Jobs.Job.{Job}
use collapsarr.Jobs.Scheduler.Active.{count_pending}
use collapsarr.Jobs.Scheduler.Store.{World, Action, after_action}
use collapsarr.Jobs.Scheduler.Enqueue.{EnqueueRequest, enqueue_file}

abbrev pub auto_queue_limit : ℕ
auto_queue_limit = 5

-- The variables of the loops: the count of pending jobs, and the jobs enqueued.
pub record Progress : Type 0 where
  pub pending : ℕ
  pub enqueued : List Job

unfoldable pub after_file : Progress → Option Job → Progress
after_file p none = p
after_file p (some job) = record { pending = suc p.pending; enqueued = p.enqueued ++ job ∷ [] }

-- The request of the scan for one file.
unfoldable pub monitored_request : List RemotePathMapping → MonitoredFile → EnqueueRequest
unfolding resolve_path
monitored_request mappings monitored = record {
  file_path = resolve_path monitored.file_path mappings;
  settings = none;
  ids = record {
    instance_id = some monitored.instance_id;
    sonarr_episode_id = monitored.sonarr_episode_id;
    radarr_movie_id = monitored.radarr_movie_id;
  };
  respect_tracked = true;
  bypass_dedup_window = false;
}

-- The inner loop.
unfoldable pub fill_files :
    World → List RemotePathMapping → List MonitoredFile → Progress → Action Progress
unfolding after_file monitored_request enqueue_file after_action
fill_files world mappings [] p s = (s, ok p)
fill_files world mappings (monitored ∷ files) p s =
    if leb auto_queue_limit p.pending
    then (s, ok p)
    else after_action (λ job. fill_files world mappings files (after_file p job))
        (enqueue_file world (monitored_request mappings monitored) s)

-- `except httpx.HTTPError` around the fetch, and the loop over its files.
unfoldable pub fill_instance :
    World → ArrInstance → Result (List MonitoredFile) → Progress → Action Progress
unfolding list_path_mappings fill_files
fill_instance world instance (raise http_error) p s = (s, ok p)
fill_instance world instance (raise e) p s = (s, raise e)
fill_instance world instance (ok files) p s =
    fill_files world (list_path_mappings s.mappings instance.id) files p s

-- The outer loop.
unfoldable pub fill_instances : World → List ArrInstance → Progress → Action Progress
unfolding fill_instance after_action
fill_instances world [] p s = (s, ok p)
fill_instances world (instance ∷ instances) p s =
    if leb auto_queue_limit p.pending
    then (s, ok p)
    else after_action (λ q. fill_instances world instances q)
        (fill_instance world instance (world.fetch_monitored_files instance) p s)

-- `_top_up_locked`: two passes never run at the same time.
unfoldable pub top_up : World → Action (List Job)
unfolding count_pending fill_instances after_action
top_up world s =
    if s.settings.auto_queue_paused
    then (s, ok [])
    else if leb auto_queue_limit (count_pending s.queue.jobs)
    then (s, ok [])
    else after_action (λ p t. (t, ok p.enqueued))
        (fill_instances world s.instances
          (record { pending = count_pending s.queue.jobs; enqueued = [] }) s)
