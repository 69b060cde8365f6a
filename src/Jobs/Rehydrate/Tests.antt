-- ===== src/Jobs/Rehydrate/Tests.antt =====
-- A history with a row of each kind, and its restart.
use collapsarr.Common.{false, ◌≡◌, refl, none, some, List, [], ◌∷◌, codes, All, ℕ, arith}
use collapsarr.Common.Int.{pos, suc_ℤ}
use collapsarr.Downmix.Targets.{default_settings}
use collapsarr.Jobs.Job.{JobStatus, pending, running, JobKind, downmix, set_default_audio}
use collapsarr.Jobs.Queue.{JobQueue}
use collapsarr.Jobs.Pool.{rehydrate, seed_next_priority}
use collapsarr.Jobs.History.{JobHistory, status_eq}
use collapsarr.Jobs.Threads.{Rehydratable}
use collapsarr.Jobs.Rehydrate.{
  Restart, live_job, reconstruct_job, reconstruct_kind, rehydrate_pending_jobs, seed_from,
  pending_rows, sort_rows, insert_row, rebuild_all, add_rebuilt, max_priority,
}
use collapsarr.Jobs.Rehydrate.Rebuild.{HasIdsOnce}
use collapsarr.Jobs.Rehydrate.NoGhosts.{RowEnd, rehydrate_pending_jobs-RowEnd}

abbrev history_row : ℕ → JobKind → JobStatus → ℕ → JobHistory
history_row id kind status priority = record {
  job_id = some id;
  file_path = codes "/media/film.mkv";
  status = status;
  kind = kind;
  priority = pos priority;
  started_at = none;
  ended_at = none;
  exit_code = none;
  error_text = none;
  target = none;
  language = none;
}

abbrev rows : List JobHistory
rows =
    history_row 1 downmix running 0
    ∷ history_row 2 downmix pending 2
    ∷ history_row 3 set_default_audio pending 1
    ∷ []

-- No preference is set any more.
abbrev restart : Restart
restart = record { settings = default_settings; preference = none; no_uuid = λ row. []; now = 7 }

abbrev new_queue : JobQueue
new_queue = record {
  max_concurrency = 1;
  jobs = [];
  next_priority = pos 0;
  workers = 0;
  started = false;
  force_start_threads = [];
  is_shutdown = false;
  active = 0;
}

restart_jobs :
    (rehydrate_pending_jobs restart rows new_queue).2
    ≡ live_job 2 (history_row 2 downmix pending 2) default_settings none ∷ []
unfolding rehydrate_pending_jobs pending_rows sort_rows insert_row rebuild_all add_rebuilt
    reconstruct_job reconstruct_kind status_eq
restart_jobs = refl

restart_counter : (rehydrate_pending_jobs restart rows new_queue).1.next_priority ≡ pos 3
unfolding rehydrate_pending_jobs rehydrate seed_from seed_next_priority max_priority suc_ℤ
restart_counter = refl

rows-HasIdsOnce : HasIdsOnce rows
rows-HasIdsOnce a b i m n e f = ground arith

rehydrate_pending_jobs-RowEnd_example :
    All
      (RowEnd (rehydrate_pending_jobs restart rows new_queue).1)
      (rehydrate_pending_jobs restart rows new_queue).0
    × All
        (Rehydratable (seed_from rows new_queue))
        (rehydrate_pending_jobs restart rows new_queue).2
rehydrate_pending_jobs-RowEnd_example =
    rehydrate_pending_jobs-RowEnd restart rows new_queue rows-HasIdsOnce refl
