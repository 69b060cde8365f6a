-- ===== src/Jobs/Scheduler/Enqueue.antt =====
-- collapsarr/jobs/scheduler.py: `enqueue_file` with its steps, and the manual triggers.
pub mod Effect
use collapsarr.Common.{
  ℕ, suc, ◌+◌, ◌*◌, Bool, true, false, not, ◌&&◌, ◌||◌, Option, none, some, List, [], ◌∷◌, ◌++◌,
  Str, ◌==◌, leb, if◌then◌else◌,
}
use collapsarr.Common.Result.{Result, ok, raise, ffprobe_error}
use collapsarr.Downmix.Stream.{AudioStreamInfo}
use collapsarr.Downmix.Targets.{
  DownmixSettings, QualifyingTarget, detect_qualifying_targets, has_language,
}
use collapsarr.Downmix.DefaultAudio.{
  DefaultAudioPreference, StreamRef, refs, resolve_default_audio_stream,
}
use collapsarr.Library.Nodes.{LibraryNode, list_nodes, get_node_by_source_id, resolve_tracked}
use collapsarr.Media.Rows.{SourceIds, upsert_tracked_media}
use collapsarr.Jobs.Job.{JobStatus, succeeded, failed, Job}
use collapsarr.Jobs.Queue.{JobQueue, enqueue, enqueue_default_audio}
use collapsarr.Jobs.Run.{GlobalSettings, as_default_audio_preference}
use collapsarr.Jobs.History.{JobHistory, record_job_history, list_job_history}
use collapsarr.Jobs.Scheduler.Active.{is_active}
use collapsarr.Jobs.Scheduler.Store.{Store, World, Action}

-- `row.status in _TERMINAL_STATUSES`
unfoldable pub is_terminal : JobStatus → Bool
is_terminal succeeded = true
is_terminal failed = true
is_terminal _ = false

-- One minute of a `timedelta`.
abbrev pub minute : ℕ
minute = 60000000

-- `ended >= now - window`, where a time is not negative.
unfoldable pub is_recent : ℕ → ℕ → JobHistory → Bool
unfolding is_terminal
is_recent now window row =
    is_terminal row.status
    && elim row.ended_at [ none ↦ false | some ended ↦ leb now (ended + window) ]

unfoldable pub any_recent : ℕ → ℕ → List JobHistory → Bool
unfolding is_recent
any_recent now window [] = false
any_recent now window (row ∷ rows) = is_recent now window row || any_recent now window rows

unfoldable pub is_recently_processed : World → Str → Store → Bool
unfolding any_recent list_job_history
is_recently_processed world path s =
    let minutes = s.settings.recently_processed_window_minutes in
    if minutes == 0
    then false
    else any_recent world.now (minutes * minute) (list_job_history (some path) none none s.history)

unfoldable pub is_duplicate : World → Str → Bool → Store → Bool
unfolding is_active is_recently_processed
is_duplicate world path bypass_dedup_window s =
    is_active path s.queue.jobs || (not bypass_dedup_window && is_recently_processed world path s)

-- The arguments of `enqueue_file`.
pub record EnqueueRequest : Type 0 where
  pub file_path : Str
  pub settings : Option DownmixSettings
  pub ids : SourceIds
  pub respect_tracked : Bool
  pub bypass_dedup_window : Bool

unfoldable pub tracked_of_node : ℕ → Store → Result (Option LibraryNode) → Result Bool
unfolding list_nodes resolve_tracked
tracked_of_node instance_id s (raise e) = raise e
tracked_of_node instance_id s (ok none) = ok s.settings.default_tracked
tracked_of_node instance_id s (ok (some node)) =
    resolve_tracked node (list_nodes s.nodes instance_id true) s.settings.default_tracked

unfoldable pub resolve_tracked_in : ℕ → SourceIds → Store → Result Bool
unfolding tracked_of_node get_node_by_source_id
resolve_tracked_in instance_id ids s =
    tracked_of_node instance_id s
      (get_node_by_source_id s.nodes instance_id ids.sonarr_episode_id ids.radarr_movie_id)

-- A file without the ids of a node counts as tracked.
unfoldable pub resolve_tracked_for : SourceIds → Store → Result Bool
unfolding resolve_tracked_in
resolve_tracked_for ids s = elim ids.instance_id [
  | none ↦ ok true
  | some instance_id ↦ elim ids.sonarr_episode_id [
    | some i ↦ resolve_tracked_in instance_id ids s
    | none ↦ elim ids.radarr_movie_id [
      | some i ↦ resolve_tracked_in instance_id ids s
      | none ↦ ok true
    ]
  ]
]

-- The gate of an automatic trigger.
unfoldable pub tracked_gate : EnqueueRequest → Store → Result Bool
unfolding resolve_tracked_for
tracked_gate request s =
    if request.respect_tracked then resolve_tracked_for request.ids s else ok true

-- `self._queue.enqueue(...)`: the block of the queue, and then its history recorder.
unfoldable pub recorded : World → JobQueue × Job → Store → Store × Job
unfolding record_job_history
recorded world (q, job) s = (
  record s { queue = q; history = record_job_history world.text job s.history; ids = suc s.ids },
  job,
)

-- The block under `_enqueue_lock`.
unfoldable pub enqueue_locked : World → Str → DownmixSettings → Bool → Action (Option Job)
unfolding is_duplicate recorded enqueue
enqueue_locked world path settings bypass_dedup_window s =
    if is_duplicate world path bypass_dedup_window s
    then (s, ok none)
    else let (after, job) = recorded world (enqueue (world.uuid s.ids) path settings s.queue) s in
      (after, ok (some job))

unfoldable pub enqueue_targets :
    World → Str → DownmixSettings → Bool → List QualifyingTarget → Action (Option Job)
unfolding enqueue_locked
enqueue_targets world path settings bypass_dedup_window [] s = (s, ok none)
enqueue_targets world path settings bypass_dedup_window (q ∷ qs) s =
    enqueue_locked world path settings bypass_dedup_window s

unfoldable pub enqueue_gated :
    World
    → EnqueueRequest
    → DownmixSettings
    → List AudioStreamInfo
    → Result Bool
    → Action (Option Job)
unfolding enqueue_targets
enqueue_gated world request settings streams (raise e) s = (s, raise e)
enqueue_gated world request settings streams (ok false) s = (s, ok none)
enqueue_gated world request settings streams (ok true) s =
    enqueue_targets world (world.as_path request.file_path) settings request.bypass_dedup_window
      (detect_qualifying_targets streams settings) s

unfoldable pub track_media :
    Str → List AudioStreamInfo → DownmixSettings → SourceIds → Store → Store
unfolding upsert_tracked_media
track_media path streams settings ids s = record s {
  media = upsert_tracked_media path streams settings ids s.media;
}

-- `except FfprobeError` around the probe, and the steps behind it.
unfoldable pub enqueue_probed :
    World → EnqueueRequest → DownmixSettings → Result (List AudioStreamInfo) → Action (Option Job)
unfolding track_media tracked_gate enqueue_gated
enqueue_probed world request settings (raise ffprobe_error) s = (s, ok none)
enqueue_probed world request settings (raise e) s = (s, raise e)
enqueue_probed world request settings (ok streams) s =
    let tracked = track_media (world.as_path request.file_path) streams settings request.ids s in
    enqueue_gated world request settings streams (tracked_gate request tracked) tracked

unfoldable pub effective_settings : World → Option DownmixSettings → DownmixSettings
effective_settings world none = world.downmix_settings
effective_settings world (some settings) = settings

unfoldable pub enqueue_file : World → EnqueueRequest → Action (Option Job)
unfolding is_duplicate effective_settings enqueue_probed
enqueue_file world request s =
    let path = world.as_path request.file_path in
    if is_duplicate world path request.bypass_dedup_window s
    then (s, ok none)
    else enqueue_probed world request (effective_settings world request.settings) (world.probe path)
        s

abbrev pub no_source : SourceIds
no_source = record { instance_id = none; sonarr_episode_id = none; radarr_movie_id = none }

-- `self._downmix_settings` with the languages added to its allow-list, a set.
unfoldable pub settings_with_extra_languages : DownmixSettings → List Str → DownmixSettings
settings_with_extra_languages settings [] = settings
settings_with_extra_languages settings (l ∷ ls) = elim settings.language_allow_list [
  | none ↦ settings
  | some allowed ↦ record settings { language_allow_list = some (allowed ++ l ∷ ls) }
]

unfoldable pub trigger_file : World → Str → List Str → Bool → Action (Option Job)
unfolding settings_with_extra_languages enqueue_file
trigger_file world file_path extra_languages bypass_dedup_window = enqueue_file world (record {
  file_path = file_path;
  settings = some (settings_with_extra_languages world.downmix_settings extra_languages);
  ids = no_source;
  respect_tracked = false;
  bypass_dedup_window = bypass_dedup_window;
})

unfoldable pub requeue_file : World → Str → Action (Option Job)
unfolding trigger_file
requeue_file world file_path = trigger_file world file_path [] true
