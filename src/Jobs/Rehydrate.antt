-- ===== src/Jobs/Rehydrate.antt =====
-- collapsarr/jobs/rehydrate.py: the pending rows of the history, put back on the queue of a restarted
-- process, and the rows that cannot be.
pub mod Rebuild
pub mod NoGhosts
mod Tests
use collapsarr.Common.{
  ℕ, suc, Bool, true, false, Option, none, some, List, [], ◌∷◌, map, Str, codes, if◌then◌else◌,
}
use collapsarr.Common.Int.{ℤ, pos, ltb_ℤ, suc_ℤ}
use collapsarr.Downmix.Targets.{DownmixSettings, default_settings}
use collapsarr.Downmix.DefaultAudio.{DefaultAudioPreference}
use collapsarr.Jobs.Job.{
  JobStatus, pending, running, failed, JobKind, downmix, set_default_audio, Job,
}
use collapsarr.Jobs.Queue.{JobQueue}
use collapsarr.Jobs.Pool.{seed_next_priority, rehydrate}
use collapsarr.Jobs.History.{JobHistory, status_eq}

-- `settings` is what `as_downmix_settings` makes of the settings row, `preference` what
-- `as_default_audio_preference` does, `no_uuid` the reason for a row whose `job_id` is no UUID.
pub record Restart : Type 0 where
  pub settings : DownmixSettings
  pub preference : Option DefaultAudioPreference
  pub no_uuid : JobHistory → Str
  pub now : ℕ

-- `Job(...)` with the columns of a row.
unfoldable pub live_job : ℕ → JobHistory → DownmixSettings → Option DefaultAudioPreference → Job
live_job id row settings preference = record {
  file_path = row.file_path;
  settings = settings;
  id = id;
  kind = row.kind;
  preference = preference;
  priority = row.priority;
  status = JobStatus.pending;
  result = none;
  error = none;
  started_at = none;
  ended_at = none;
  cancellation = none;
}

-- The job of a row, or the reason why there is none.
pub data Reconstructed : Type 0 where
  rebuilt : Job → Reconstructed
  unresolved : Str → Reconstructed

unfoldable pub reconstruct_kind : Restart → ℕ → JobHistory → JobKind → Reconstructed
unfolding live_job
reconstruct_kind restart id row downmix = rebuilt (live_job id row restart.settings none)
reconstruct_kind restart id row set_default_audio = elim restart.preference [
  | none ↦
      unresolved
        (codes "cannot rehydrate: Default Audio Track preference is no longer fully configured")
  | some preference ↦
      rebuilt (live_job id row (record default_settings { enabled_targets = [] }) (some preference))
]

unfoldable pub reconstruct_job : Restart → JobHistory → Reconstructed
unfolding reconstruct_kind
reconstruct_job restart row = elim row.job_id [
  | none ↦ unresolved (restart.no_uuid row)
  | some id ↦ reconstruct_kind restart id row row.kind
]

unfoldable pub mark_unrehydratable : Restart → Str → JobHistory → JobHistory
mark_unrehydratable restart reason row = record row {
  status = failed;
  error_text = some reason;
  ended_at = some restart.now;
}

abbrev orphaned : Str
orphaned = codes "orphaned: still RUNNING at startup, no live Job could survive the restart"

unfoldable pub row_unless : Restart → JobHistory → Reconstructed → JobHistory
unfolding mark_unrehydratable
row_unless restart row (rebuilt job) = row
row_unless restart row (unresolved reason) = mark_unrehydratable restart reason row

-- What becomes of a row.
unfoldable pub restart_row : Restart → JobStatus → JobHistory → JobHistory
unfolding reconstruct_job mark_unrehydratable row_unless
restart_row restart running row = mark_unrehydratable restart orphaned row
restart_row restart pending row = row_unless restart row (reconstruct_job restart row)
restart_row restart _ row = row

unfoldable pub pending_rows : List JobHistory → List JobHistory
unfolding status_eq
pending_rows [] = []
pending_rows (row ∷ rows) =
    let rest = pending_rows rows in if status_eq row.status pending then row ∷ rest else rest

unfoldable pub insert_row : JobHistory → List JobHistory → List JobHistory
insert_row row [] = row ∷ []
insert_row row (r ∷ rows) =
    if ltb_ℤ r.priority row.priority then r ∷ insert_row row rows else row ∷ r ∷ rows

-- `sorted(rows, key=lambda row: row.priority)`, which keeps the order of equal rows.
unfoldable pub sort_rows : List JobHistory → List JobHistory
unfolding insert_row
sort_rows [] = []
sort_rows (row ∷ rows) = insert_row row (sort_rows rows)

unfoldable pub add_rebuilt : Reconstructed → List Job → List Job
add_rebuilt (rebuilt job) jobs = job ∷ jobs
add_rebuilt (unresolved reason) jobs = jobs

unfoldable pub rebuild_all : Restart → List JobHistory → List Job
unfolding reconstruct_job add_rebuilt
rebuild_all restart [] = []
rebuild_all restart (row ∷ rows) =
    add_rebuilt (reconstruct_job restart row) (rebuild_all restart rows)

unfoldable pub max_priority : ℤ → List JobHistory → ℤ
max_priority n [] = n
max_priority n (row ∷ rows) = max_priority (if ltb_ℤ n row.priority then row.priority else n) rows

unfoldable pub seed_from : List JobHistory → JobQueue → JobQueue
unfolding max_priority seed_next_priority suc_ℤ
seed_from [] q = q
seed_from (row ∷ rows) q = seed_next_priority (suc_ℤ (max_priority row.priority rows)) q

-- The rows behind the restart, the queue, and the jobs put on it.
unfoldable pub rehydrate_pending_jobs :
    Restart → List JobHistory → JobQueue → List JobHistory × JobQueue × List Job
unfolding restart_row pending_rows sort_rows rebuild_all seed_from rehydrate
rehydrate_pending_jobs restart rows q =
    let jobs = rebuild_all restart (sort_rows (pending_rows rows)) in
    (map (λ row. restart_row restart row.status row) rows, rehydrate jobs (seed_from rows q), jobs)
