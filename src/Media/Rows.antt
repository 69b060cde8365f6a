-- ===== src/Media/Rows.antt =====
-- collapsarr/media/models.py, collapsarr/media/service.py, collapsarr/jobs/tracked_media.py: the rows
-- of the tracked files, of their (language, target) pairs, and the operations that write them.
use collapsarr.Common.{
  ℕ, suc, Bool, false, ◌&&◌, ◌||◌, Option, none, some, List, [], ◌∷◌, ◌++◌, map, Str, str_eq, ◌==◌,
  ltb, if◌then◌else◌,
}
use collapsarr.Downmix.Stream.{AudioStreamInfo}
use collapsarr.Downmix.Targets.{
  DownmixTarget, DownmixSettings, QualifyingTarget, target_order, target_eq, is_enabled, is_allowed,
  has_language, detect_qualifying_targets,
}
use collapsarr.Jobs.Job.{succeeded, Job}

pub data MediaTargetStatus : Type 0 where
  missing processed excluded_by_language_filter : MediaTargetStatus

pub record TrackedMediaFile : Type 0 where
  pub id : ℕ
  pub file_path : Str
  pub instance_id : Option ℕ
  pub sonarr_episode_id : Option ℕ
  pub radarr_movie_id : Option ℕ
  pub current_default_language : Option Str
  pub current_default_channel_layout : Option Str

-- The three columns that are unique together.
pub record StatusKey : Type 0 where
  pub media_id : ℕ
  pub language : Str
  pub target : DownmixTarget

pub record TrackedMediaTargetStatus : Type 0 where
  pub key : StatusKey
  pub status : MediaTargetStatus

-- The two tables in the order of their ids, and the id of the next file.
pub record MediaTables : Type 0 where
  pub files : List TrackedMediaFile
  pub statuses : List TrackedMediaTargetStatus
  pub next_id : ℕ

-- What a scan, a webhook or nothing says of the ids that other services use.
pub record SourceIds : Type 0 where
  pub instance_id : Option ℕ
  pub sonarr_episode_id : Option ℕ
  pub radarr_movie_id : Option ℕ

-- `one_or_none` on a column that is unique.
unfoldable pub get_tracked_media : Str → List TrackedMediaFile → Option TrackedMediaFile
get_tracked_media path [] = none
get_tracked_media path (m ∷ ms) =
    let rest = get_tracked_media path ms in if str_eq m.file_path path then some m else rest

unfoldable pub new_file : ℕ → Str → TrackedMediaFile
new_file id path = record {
  id = id;
  file_path = path;
  instance_id = none;
  sonarr_episode_id = none;
  radarr_movie_id = none;
  current_default_language = none;
  current_default_channel_layout = none;
}

unfoldable pub add_missing :
    Str → MediaTables → Option TrackedMediaFile → MediaTables × TrackedMediaFile
unfolding new_file
add_missing path tables (some m) = (tables, m)
add_missing path tables none =
    let m = new_file tables.next_id path in
    (record tables { files = tables.files ++ m ∷ []; next_id = suc tables.next_id }, m)

-- The row of the path, which is added where there is none.
unfoldable pub get_or_add : Str → MediaTables → MediaTables × TrackedMediaFile
unfolding get_tracked_media add_missing
get_or_add path tables = add_missing path tables (get_tracked_media path tables.files)

-- The row with the id of `m` becomes `m`.
unfoldable pub write_file : TrackedMediaFile → List TrackedMediaFile → List TrackedMediaFile
write_file m [] = []
write_file m (n ∷ ns) = let rest = write_file m ns in if n.id == m.id then m ∷ rest else n ∷ rest

unfoldable pub default_streams : List AudioStreamInfo → List AudioStreamInfo
default_streams [] = []
default_streams (x ∷ xs) = let rest = default_streams xs in if x.is_default then x ∷ rest else rest

-- `min` keeps the first of the smallest.
unfoldable pub first_index_from : AudioStreamInfo → List AudioStreamInfo → AudioStreamInfo
first_index_from best [] = best
first_index_from best (x ∷ xs) = first_index_from (if ltb x.index best.index then x else best) xs

unfoldable pub current_default_stream : List AudioStreamInfo → Option AudioStreamInfo
unfolding default_streams first_index_from
current_default_stream streams = elim (default_streams streams) [
  | [] ↦ none
  | x ∷ xs ↦ some (first_index_from x xs)
]

-- A value that is given, or the one that is there.
unfoldable pub given_or : Option ℕ → Option ℕ → Option ℕ
given_or (some i) _ = some i
given_or none old = old

-- The columns that `upsert_tracked_media` assigns.
unfoldable pub linked_file : SourceIds → List AudioStreamInfo → TrackedMediaFile → TrackedMediaFile
unfolding given_or current_default_stream
linked_file ids streams m =
    let default_stream = current_default_stream streams in
    record m {
      instance_id = given_or ids.instance_id m.instance_id;
      sonarr_episode_id = given_or ids.sonarr_episode_id m.sonarr_episode_id;
      radarr_movie_id = given_or ids.radarr_movie_id m.radarr_movie_id;
      current_default_language = elim default_stream [ none ↦ none | some x ↦ some x.language ];
      current_default_channel_layout = elim default_stream [
        | none ↦ none
        | some x ↦ some x.channel_layout
      ];
    }

-- A key of a dict that is only asked for.
unfoldable pub see : List Str → Str → List Str
unfolding has_language
see seen l = if has_language seen l then seen else seen ++ l ∷ []

-- The keys of `_channels_by_language`, each one once.
unfoldable pub stream_languages : List Str → List AudioStreamInfo → List Str
unfolding see
stream_languages seen [] = seen
stream_languages seen (x ∷ xs) = stream_languages (see seen x.language) xs

-- A frozenset of targets, iterated in ascending order.
unfoldable pub enabled_list : List DownmixTarget → List DownmixTarget → List DownmixTarget
unfolding is_enabled
enabled_list enabled [] = []
enabled_list enabled (t ∷ ts) =
    let rest = enabled_list enabled ts in if is_enabled enabled t then t ∷ rest else rest

-- The pairs that the two loops pass, in their order.
unfoldable pub status_keys : ℕ → List Str → List DownmixTarget → List StatusKey
status_keys media_id [] ts = []
status_keys media_id (l ∷ ls) ts =
    map (λ t. record { media_id = media_id; language = l; target = t }) ts
    ++ status_keys media_id ls ts

-- `key in qualifying`
unfoldable pub qualifies : List QualifyingTarget → Str → DownmixTarget → Bool
unfolding target_eq
qualifies [] l t = false
qualifies (q ∷ qs) l t = (str_eq q.language l && target_eq q.target t) || qualifies qs l t

unfoldable pub status_of : DownmixSettings → List QualifyingTarget → StatusKey → MediaTargetStatus
unfolding is_allowed qualifies
status_of settings qualifying key =
    if is_allowed settings.language_allow_list key.language
    then if qualifies qualifying key.language key.target then missing else processed
    else excluded_by_language_filter

unfoldable pub key_eq : StatusKey → StatusKey → Bool
unfolding target_eq
key_eq j k =
    j.media_id == k.media_id && (str_eq j.language k.language && target_eq j.target k.target)

-- The row of the key gets the status, or a new row is added with it. A loop that passes no key twice
-- may ask the table as it was before it.
unfoldable pub put_status :
    StatusKey → MediaTargetStatus → List TrackedMediaTargetStatus → List TrackedMediaTargetStatus
unfolding key_eq
put_status k s [] = record { key = k; status = s } ∷ []
put_status k s (row ∷ rows) =
    let rest = put_status k s rows in
    if key_eq row.key k then record row { status = s } ∷ rows else row ∷ rest

unfoldable pub find_status : StatusKey → List TrackedMediaTargetStatus → Option MediaTargetStatus
unfolding key_eq
find_status k [] = none
find_status k (row ∷ rows) =
    let rest = find_status k rows in if key_eq row.key k then some row.status else rest

unfoldable pub put_statuses :
    (StatusKey → MediaTargetStatus)
    → List StatusKey
    → List TrackedMediaTargetStatus
    → List TrackedMediaTargetStatus
unfolding put_status
put_statuses f [] rows = rows
put_statuses f (k ∷ ks) rows = put_statuses f ks (put_status k (f k) rows)

unfoldable pub upsert_tracked_media :
    Str → List AudioStreamInfo → DownmixSettings → SourceIds → MediaTables → MediaTables
unfolding get_or_add write_file linked_file stream_languages enabled_list status_keys status_of
    put_statuses
upsert_tracked_media path streams settings ids tables =
    let (added, media) = get_or_add path tables in
    record added {
      files = write_file (linked_file ids streams media) added.files;
      statuses =
          put_statuses (status_of settings (detect_qualifying_targets streams settings))
            (status_keys media.id (stream_languages [] streams)
              (enabled_list settings.enabled_targets target_order))
            added.statuses;
    }

unfoldable pub record_target_processed : Str → Str → DownmixTarget → MediaTables → MediaTables
unfolding get_or_add put_status
record_target_processed path language target tables =
    let (added, media) = get_or_add path tables in
    record added {
      statuses =
          put_status (record { media_id = media.id; language = language; target = target })
            processed added.statuses;
    }

unfoldable pub record_targets : Str → List QualifyingTarget → MediaTables → MediaTables
unfolding record_target_processed
record_targets path [] tables = tables
record_targets path (q ∷ qs) tables =
    record_targets path qs (record_target_processed path q.language q.target tables)

-- collapsarr/jobs/tracked_media.py: what a finished job writes.
unfoldable pub record_tracked_media : Job → MediaTables → MediaTables
unfolding record_targets
record_tracked_media job tables = elim job.status [
  | succeeded ↦ elim job.result [
    | none ↦ tables
    | some result ↦ record_targets job.file_path result.tracks_added tables
  ]
  | _ ↦ tables
]
