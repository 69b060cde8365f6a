-- ===== src/Jobs/History.antt =====
-- collapsarr/jobs/history.py, collapsarr/jobs/models.py: the persisted state of the jobs.
use collapsarr.Common.{
  ℕ, Bool, true, false, ◌&&◌, Option, none, some, List, [], ◌∷◌, ◌++◌, Str, codes, str_eq, ◌==◌,
  if◌then◌else◌,
}
use collapsarr.Common.Int.{ℤ}
use collapsarr.Common.Result.{Exception}
use collapsarr.Downmix.Targets.{
  DownmixTarget, stereo, two_point_one, five_point_one, is_enabled, sort_languages,
}
use collapsarr.Jobs.Job.{
  JobStatus, pending, running, succeeded, failed, JobKind, downmix, set_default_audio, Job,
}

-- `job_id` is a text; none stands for one that is no UUID.
pub record JobHistory : Type 0 where
  pub job_id : Option ℕ
  pub file_path : Str
  pub status : JobStatus
  pub kind : JobKind
  pub priority : ℤ
  pub started_at : Option ℕ
  pub ended_at : Option ℕ
  pub exit_code : Option ℤ
  pub error_text : Option Str
  pub target : Option Str
  pub language : Option Str

unfoldable pub status_eq : JobStatus → JobStatus → Bool
status_eq pending pending = true
status_eq running running = true
status_eq succeeded succeeded = true
status_eq failed failed = true
status_eq _ _ = false

unfoldable pub kind_eq : JobKind → JobKind → Bool
kind_eq downmix downmix = true
kind_eq set_default_audio set_default_audio = true
kind_eq _ _ = false

unfoldable pub exit_code : Job → Option ℤ
exit_code job = elim job.result [
  | none ↦ none
  | some result ↦ elim result.remux_result [ none ↦ none | some remux ↦ some remux.returncode ]
]

-- `text` is `str` of an exception.
unfoldable pub error_text : (Exception → Str) → Job → Option Str
error_text text job = elim job.error [
  | some e ↦ some (text e)
  | none ↦ elim job.result [
    | none ↦ none
    | some result ↦ if result.success then none else some result.detail
  ]
]

-- `DownmixTarget.value`
unfoldable pub target_value : DownmixTarget → Str
target_value stereo = codes "stereo"
target_value two_point_one = codes "2.1"
target_value five_point_one = codes "5.1"

-- `",".join(texts)`
unfoldable pub join_comma : List Str → Str
join_comma [] = []
join_comma (t ∷ []) = t
join_comma (t ∷ u ∷ ts) = t ++ codes "," ++ join_comma (u ∷ ts)

-- The values of the targets of a set, in the order of their texts.
unfoldable pub sorted_values : List DownmixTarget → List DownmixTarget → List Str
unfolding is_enabled target_value
sorted_values enabled [] = []
sorted_values enabled (t ∷ ts) =
    let rest = sorted_values enabled ts in
    if is_enabled enabled t then target_value t ∷ rest else rest

abbrev value_order : List DownmixTarget
value_order = two_point_one ∷ five_point_one ∷ stereo ∷ []

unfoldable pub target : Job → Option Str
unfolding target_value join_comma sorted_values
target job = elim job.kind [
  | set_default_audio ↦ elim job.preference [
    | none ↦ none
    | some preference ↦ some (target_value preference.channel_tier)
  ]
  | downmix ↦ elim job.settings.enabled_targets [
    | [] ↦ none
    | t ∷ ts ↦ some (join_comma (sorted_values (t ∷ ts) value_order))
  ]
]

-- The allow-list is a set, so that the list of its languages has none of them twice.
unfoldable pub language : Job → Option Str
unfolding join_comma
language job = elim job.kind [
  | set_default_audio ↦ elim job.preference [
    | none ↦ none
    | some preference ↦ some preference.language
  ]
  | downmix ↦ elim job.settings.language_allow_list [
    | none ↦ none
    | some languages ↦ some (join_comma (sort_languages languages))
  ]
]

-- The row that a job is written to.
unfoldable pub row_of : (Exception → Str) → Job → JobHistory
unfolding exit_code error_text target language
row_of text job = record {
  job_id = some job.id;
  file_path = job.file_path;
  status = job.status;
  kind = job.kind;
  priority = job.priority;
  started_at = job.started_at;
  ended_at = job.ended_at;
  exit_code = exit_code job;
  error_text = error_text text job;
  target = target job;
  language = language job;
}

-- `JobHistory.job_id == str(job_id)`
unfoldable pub is_row_of : ℕ → JobHistory → Bool
is_row_of i row = elim row.job_id [ none ↦ false | some j ↦ j == i ]

unfoldable pub put_row : ℕ → JobHistory → List JobHistory → List JobHistory
unfolding is_row_of
put_row i new [] = new ∷ []
put_row i new (row ∷ rows) =
    let rest = put_row i new rows in if is_row_of i row then new ∷ rows else row ∷ rest

-- The table in the order of its ids.
unfoldable pub record_job_history : (Exception → Str) → Job → List JobHistory → List JobHistory
unfolding row_of put_row
record_job_history text job rows = put_row job.id (row_of text job) rows

unfoldable pub get_job_history : ℕ → List JobHistory → Option JobHistory
unfolding is_row_of
get_job_history i [] = none
get_job_history i (row ∷ rows) =
    let rest = get_job_history i rows in if is_row_of i row then some row else rest

-- `job_id` is unique.
unfoldable pub delete_row : ℕ → List JobHistory → List JobHistory
unfolding is_row_of
delete_row i [] = []
delete_row i (row ∷ rows) =
    let rest = delete_row i rows in if is_row_of i row then rows else row ∷ rest

unfoldable pub delete_job_history : ℕ → List JobHistory → List JobHistory × Bool
unfolding get_job_history delete_row
delete_job_history i rows = elim (get_job_history i rows) [
  | none ↦ (rows, false)
  | some row ↦ (delete_row i rows, true)
]

-- A filter that is not given lets every row pass.
unfoldable pub passes : {A : Type 0} → (A → A → Bool) → Option A → A → Bool
passes eq none x = true
passes eq (some y) x = eq x y

unfoldable pub list_job_history :
    Option Str → Option JobStatus → Option JobKind → List JobHistory → List JobHistory
unfolding passes status_eq kind_eq
list_job_history path status kind [] = []
list_job_history path status kind (row ∷ rows) =
    let rest = list_job_history path status kind rows in
    if passes str_eq path row.file_path
      && (passes status_eq status row.status && passes kind_eq kind row.kind)
    then row ∷ rest
    else rest
