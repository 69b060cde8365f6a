-- ===== src/Jobs/Run.antt =====
-- collapsarr/jobs/queue.py: `_run_job`, the recorders and notifiers that it calls, and the keyword
-- arguments of the two pipelines. What a hook or a pipeline does is a parameter: a call returns or
-- raises.
pub mod Outcomes
pub mod Kwargs
use collapsarr.Common.{
  ℕ, Bool, true, false, not, ◌&&◌, Option, none, some, List, [], ◌∷◌, ◌++◌, Str, codes, str_eq,
  if◌then◌else◌,
}
use collapsarr.Common.Result.{Result, ok, raise, other_error}
use collapsarr.Downmix.Targets.{DownmixSettings, DownmixTarget}
use collapsarr.Downmix.DefaultAudio.{DefaultAudioPreference}
use collapsarr.Downmix.Cancellation.{CancellationHandle}
use collapsarr.Downmix.Pipeline.{PipelineResult}
use collapsarr.Jobs.Job.{
  JobStatus, pending, running, succeeded, failed, JobKind, downmix, set_default_audio, Job,
}
use collapsarr.Jobs.Queue.{JobQueue, find_job, put_job, enqueue_job}
use collapsarr.Jobs.Pool.{release}

-- A keyword argument of a pipeline.
pub data Value : Type 0 where
  flag : Bool → Value
  audio_preference : Option DefaultAudioPreference → Value
  text : Str → Value

abbrev pub Kwargs : Type 0
Kwargs = List (Str × Value)

unfoldable pub get_key : Str → Kwargs → Option Value
get_key k [] = none
get_key k ((j, v) ∷ kwargs) = if str_eq j k then some v else get_key k kwargs

-- `resolved.setdefault(key, value)`
unfoldable pub set_default : Str → Value → Kwargs → Kwargs
set_default k v [] = (k, v) ∷ []
set_default k v ((j, w) ∷ kwargs) =
    if str_eq j k then (j, w) ∷ kwargs else (j, w) ∷ set_default k v kwargs

-- The columns of the settings row that the queue's factory and the scheduler read. The window is not
-- negative, as the route that writes it checks.
pub record GlobalSettings : Type 0 where
  pub default_tracked : Bool
  pub recently_processed_window_minutes : ℕ
  pub auto_queue_paused : Bool
  pub auto_set_default_audio : Bool
  pub default_audio_language : Option Str
  pub default_audio_channel_tier : Option DownmixTarget
  pub ffmpeg_path : Option Str

unfoldable pub as_default_audio_preference : GlobalSettings → Option DefaultAudioPreference
as_default_audio_preference settings = elim settings.default_audio_language [
  | none ↦ none
  | some language ↦ elim settings.default_audio_channel_tier [
    | none ↦ none
    | some tier ↦ some (record { language = language; channel_tier = tier })
  ]
]

abbrev pub auto_key : Str
auto_key = codes "auto_set_default_audio"

abbrev pub preference_key : Str
preference_key = codes "default_audio_preference"

abbrev pub ffmpeg_key : Str
ffmpeg_key = codes "ffmpeg_path"

unfoldable pub with_default_audio : GlobalSettings → Kwargs → Kwargs
unfolding set_default as_default_audio_preference
with_default_audio settings kwargs =
    if settings.auto_set_default_audio
    then set_default preference_key (audio_preference (as_default_audio_preference settings))
        (set_default auto_key (flag true) kwargs)
    else kwargs

-- `if global_settings.ffmpeg_path:` passes over `None` and the empty text.
unfoldable pub with_ffmpeg_path : GlobalSettings → Kwargs → Kwargs
unfolding set_default
with_ffmpeg_path settings kwargs = elim settings.ffmpeg_path [
  | none ↦ kwargs
  | some path ↦ elim path [ [] ↦ kwargs | c ∷ cs ↦ set_default ffmpeg_key (text (c ∷ cs)) kwargs ]
]

unfoldable pub resolve_pipeline_kwargs : Kwargs → GlobalSettings → Kwargs
unfolding with_default_audio with_ffmpeg_path
resolve_pipeline_kwargs kwargs settings =
    with_ffmpeg_path settings (with_default_audio settings kwargs)

-- The keys of `_SHARED_DEFAULT_AUDIO_PIPELINE_KWARGS`.
unfoldable pub shared_kwargs : Kwargs → Kwargs
shared_kwargs [] = []
shared_kwargs ((k, v) ∷ kwargs) =
    let rest = shared_kwargs kwargs in if str_eq k ffmpeg_key then (k, v) ∷ rest else rest

abbrev pub Hook : Type 0
Hook = Option (Job → Result (Unit {0}))

-- What the queue is constructed with.
pub record Hooks : Type 0 where
  pub pipeline_runner :
      Str → DownmixSettings → Option CancellationHandle → Kwargs → Result PipelineResult
  pub default_audio_pipeline_runner :
      Str → DefaultAudioPreference → Option CancellationHandle → Kwargs → Result PipelineResult
  pub pipeline_kwargs : Kwargs
  pub history_recorder : Hook
  pub failure_notifier : Hook
  pub tracked_media_recorder : Hook
  pub plex_analyzer : Hook
  pub job_terminal_hook : Hook

-- A call of a hook, with the job as it stood.
pub data HookCall : Type 0 where
  history tracked_media failure plex terminal : Job → HookCall

-- The calls made so far, and what is returned or raised.
abbrev pub Calls : Type 0
Calls = List HookCall × Result (Unit {0})

unfoldable pub record_history : Hooks → Job → Calls
record_history hooks job = elim hooks.history_recorder [
  | none ↦ ([], ok tt)
  | some recorder ↦ (history job ∷ [], recorder job)
]

unfoldable pub record_tracked_media : Hooks → Job → Calls
record_tracked_media hooks job = elim hooks.tracked_media_recorder [
  | none ↦ ([], ok tt)
  | some recorder ↦ elim job.status [
    | succeeded ↦ (tracked_media job ∷ [], recorder job)
    | _ ↦ ([], ok tt)
  ]
]

-- `except Exception: pass`
unfoldable pub notify_failure : Hooks → Job → Calls
notify_failure hooks job = elim hooks.failure_notifier [
  | none ↦ ([], ok tt)
  | some notifier ↦ elim job.status [ failed ↦ (failure job ∷ [], ok tt) | _ ↦ ([], ok tt) ]
]

unfoldable pub trigger_plex_analyze : Hooks → Job → Calls
trigger_plex_analyze hooks job = elim hooks.plex_analyzer [
  | none ↦ ([], ok tt)
  | some analyzer ↦ elim job.status [ succeeded ↦ (plex job ∷ [], ok tt) | _ ↦ ([], ok tt) ]
]

unfoldable pub call_job_terminal_hook : Hooks → Job → Calls
call_job_terminal_hook hooks job = elim hooks.job_terminal_hook [
  | none ↦ ([], ok tt)
  | some hook ↦ (terminal job ∷ [], ok tt)
]

-- One statement after another, until one raises.
abbrev pub and_then : Calls → Calls → Calls
and_then (calls, ok _) (more, r) = (calls ++ more, r)
and_then (calls, raise e) _ = (calls, raise e)

-- The five calls behind a job that has reached its terminal status.
unfoldable pub after_effects : Hooks → Job → Calls
unfolding record_history record_tracked_media notify_failure trigger_plex_analyze
    call_job_terminal_hook
after_effects hooks job = and_then (record_history hooks job) (
    and_then (record_tracked_media hooks job) (
      and_then (notify_failure hooks job)
        (and_then (trigger_plex_analyze hooks job) (call_job_terminal_hook hooks job))))

-- The `try` around the pipeline. The failing `assert` is caught like any other exception.
unfoldable pub run_pipeline : Hooks → Job → Result PipelineResult
unfolding shared_kwargs
run_pipeline hooks job = elim job.kind [
  | set_default_audio ↦ elim job.preference [
    | none ↦ raise other_error
    | some preference ↦
        hooks.default_audio_pipeline_runner job.file_path preference job.cancellation
          (shared_kwargs hooks.pipeline_kwargs)
  ]
  | downmix ↦
      hooks.pipeline_runner job.file_path job.settings job.cancellation hooks.pipeline_kwargs
]

-- The locked assignments behind the pipeline.
unfoldable pub settled : ℕ → Result PipelineResult → Job → Job
settled now (raise e) job = record job { status = failed; error = some e; ended_at = some now }
settled now (ok r) job = record job {
  status = if r.success then succeeded else failed;
  result = some r;
  ended_at = some now;
}

-- The `try` block of `_run_job`: the job after it, the calls, and what it raises.
unfoldable pub run_body : Hooks → ℕ → Job → Job × Calls
unfolding record_history after_effects run_pipeline settled
run_body hooks now job = elim (record_history hooks job).1 [
  | raise e ↦ (job, record_history hooks job)
  | ok _ ↦
      let done = settled now (run_pipeline hooks job) job in
      (done, and_then (record_history hooks job) (after_effects hooks done))
]

-- `_run_job` where no other thread acts meanwhile, the `finally` included.
unfoldable pub run_job : Hooks → ℕ → Job → JobQueue → JobQueue × Calls
unfolding run_body put_job release
run_job hooks now job q =
    let (done, calls) = run_body hooks now job in
    (release (record q { jobs = put_job done q.jobs }), calls)

-- `_enqueue`: the locked block, and then the history recorder.
unfoldable pub enqueue_recorded : Hooks → Job → JobQueue → JobQueue × Job × Calls
unfolding enqueue_job record_history
enqueue_recorded hooks job q =
    let (after, queued) = enqueue_job job q in (after, queued, record_history hooks queued)
