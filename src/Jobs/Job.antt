-- ===== src/Jobs/Job.antt =====
-- collapsarr/jobs/queue.py: the job that the queue runs. An id is a number that is only compared, and
-- a time is a number.
use collapsarr.Common.{ℕ, Bool, true, false, Option, none, Str}
use collapsarr.Common.Int.{ℤ, pos}
use collapsarr.Common.Result.{Exception}
use collapsarr.Downmix.Targets.{DownmixSettings}
use collapsarr.Downmix.DefaultAudio.{DefaultAudioPreference}
use collapsarr.Downmix.Cancellation.{CancellationHandle}
use collapsarr.Downmix.Pipeline.{PipelineResult}

pub data JobStatus : Type 0 where
  pending running succeeded failed : JobStatus

pub data JobKind : Type 0 where
  downmix set_default_audio : JobKind

pub record Job : Type 0 where
  pub file_path : Str
  pub settings : DownmixSettings
  pub id : ℕ
  pub kind : JobKind
  pub preference : Option DefaultAudioPreference
  pub priority : ℤ
  pub status : JobStatus
  pub result : Option PipelineResult
  pub error : Option Exception
  pub started_at : Option ℕ
  pub ended_at : Option ℕ
  pub cancellation : Option CancellationHandle

-- `Job(file_path=..., settings=..., kind=..., preference=...)`: the other fields at their defaults.
unfoldable pub new_job : ℕ → Str → DownmixSettings → JobKind → Option DefaultAudioPreference → Job
new_job id file_path settings kind preference = record {
  file_path = file_path;
  settings = settings;
  id = id;
  kind = kind;
  preference = preference;
  priority = pos 0;
  status = JobStatus.pending;
  result = none;
  error = none;
  started_at = none;
  ended_at = none;
  cancellation = none;
}

unfoldable pub is_pending : Job → Bool
is_pending job = elim job.status [ JobStatus.pending ↦ true | _ ↦ false ]

unfoldable pub is_running : Job → Bool
is_running job = elim job.status [ JobStatus.running ↦ true | _ ↦ false ]
