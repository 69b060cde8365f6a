-- ===== src/Jobs/Scheduler/Store.antt =====
-- collapsarr/jobs/scheduler.py: what the scheduler reads and writes, and what it is constructed with.
-- An action is a method where no other thread acts meanwhile: it takes the store, and gives it back
-- with what it returns or raises. A session is not modelled: every read sees the last write.
use collapsarr.Common.{ℕ, List, Str}
use collapsarr.Common.Result.{Exception, Result, ok, raise}
use collapsarr.Downmix.Stream.{AudioStreamInfo}
use collapsarr.Downmix.Targets.{DownmixSettings}
use collapsarr.Arr.Paths.{ArrInstance, RemotePathMapping, MonitoredFile}
use collapsarr.Library.Nodes.{LibraryNode}
use collapsarr.Media.Rows.{MediaTables}
use collapsarr.Jobs.Queue.{JobQueue}
use collapsarr.Jobs.Run.{GlobalSettings}
use collapsarr.Jobs.History.{JobHistory}

-- The live queue and the tables; `ids` counts the calls of `uuid4` so far.
pub record Store : Type 0 where
  pub queue : JobQueue
  pub history : List JobHistory
  pub media : MediaTables
  pub settings : GlobalSettings
  pub nodes : List LibraryNode
  pub instances : List ArrInstance
  pub mappings : List RemotePathMapping
  pub ids : ℕ

-- `as_path` is what `Path` makes of a text, `uuid` the values of `uuid4`, `text` is `str` of an
-- exception, and `now` a time in microseconds.
pub record World : Type 0 where
  pub downmix_settings : DownmixSettings
  pub probe : Str → Result (List AudioStreamInfo)
  pub fetch_monitored_files : ArrInstance → Result (List MonitoredFile)
  pub as_path : Str → Str
  pub uuid : ℕ → ℕ
  pub text : Exception → Str
  pub now : ℕ

abbrev pub Action : Type 0 → Type 0
Action A = Store → Store × Result A

-- One step after another, until one raises.
unfoldable pub after_action : {A B : Type 0} → (A → Action B) → Store × Result A → Store × Result B
after_action rest (s, ok a) = rest a s
after_action rest (s, raise e) = (s, raise e)
